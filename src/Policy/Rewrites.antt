-- ===== src/Policy/Rewrites.antt =====
-- proxy/policy.go: header lines that are rewritten and added.
use lucid_gate.Prelude.{
  Bool, true, false, ◌||◌, not, Option, none, some, List, [], ◌∷◌, Bytes, codes, if◌then◌else◌,
}
use lucid_gate.Text.{is_empty, ◌=ᵇ◌, has_key}
use lucid_gate.Decision.{Regex}
use lucid_gate.Policy.Web.{Web, Header, header_get, header_add}
use lucid_gate.Policy.Headers.{RewriteRule, HeaderAddRule, HeaderRules, header_line, split_colon}

-- The names of `isDangerousRequestFramingHeader` and `isDangerousResponseFramingHeader`.
abbrev pub request_framing : List Bytes
request_framing =
    codes "Content-Length"
    ∷ codes "Transfer-Encoding"
    ∷ codes "Host"
    ∷ codes "Connection"
    ∷ codes "Upgrade"
    ∷ []

abbrev pub response_framing : List Bytes
response_framing =
    codes "Content-Length" ∷ codes "Transfer-Encoding" ∷ codes "Connection" ∷ codes "Upgrade" ∷ []

unfoldable pub is_dangerous_framing_header : Web → List Bytes → Bytes → Bool
is_dangerous_framing_header w names key = has_key names (w.canonical_header_key key)

-- The loop over the rules, on a line: the line, and whether some rule matched.
unfoldable pub rewrite_line : List RewriteRule → Bytes → Bytes × Bool
rewrite_line [] line = (line, false)
rewrite_line (r ∷ rs) line =
    let hit = r.regex.match_string line in
    let (out, modified) =
      rewrite_line rs (if hit then r.regex.replace_all line r.replace else line) in
    (out, hit || modified)

-- The headers so far, and `modified`.
abbrev pub Rewritten : Type 0
Rewritten = Header × Bool

-- What becomes of a line that was rewritten.
unfoldable pub place_line : Web → Bytes → Rewritten → Rewritten
place_line w line (h, modified) =
    let trimmed = w.unicode.trim_space line in
    if is_empty trimmed then (h, true) else elim (split_colon trimmed) [
      | none ↦ (h, true)
      | some (key, val) ↦
          (header_add w h (w.unicode.trim_space key) (w.unicode.trim_space val), modified)
    ]

-- The body of the inner loop, for a value of a key.
unfoldable pub rewrite_value :
    Web → List Bytes → List RewriteRule → Bytes → Bytes → Rewritten → Rewritten
rewrite_value w framing rules key val (h, modified) =
    let line = header_line key val in
    if is_dangerous_framing_header w framing key
    then place_line w line (h, modified)
    else place_line w (rewrite_line rules line).0 (h, modified || (rewrite_line rules line).1)

unfoldable pub rewrite_values :
    Web → List Bytes → List RewriteRule → Bytes → List Bytes → Rewritten → Rewritten
rewrite_values w framing rules key [] s = s
rewrite_values w framing rules key (v ∷ vs) s =
    rewrite_values w framing rules key vs (rewrite_value w framing rules key v s)

unfoldable pub rewrite_all : Web → List Bytes → List RewriteRule → Header → Rewritten → Rewritten
rewrite_all w framing rules [] s = s
rewrite_all w framing rules ((key, values) ∷ h) s =
    rewrite_all w framing rules h (rewrite_values w framing rules key values s)

abbrev canonical_keys : Web → Header → List Bytes
canonical_keys w [] = []
canonical_keys w ((k, vs) ∷ h) = w.canonical_header_key k ∷ canonical_keys w h

-- `Del` of each key in turn: `Del` deletes the canonical form of the key.
unfoldable pub without_keys : List Bytes → Header → Header
without_keys keys [] = []
without_keys keys ((k, vs) ∷ h) =
    let rest = without_keys keys h in if has_key keys k then rest else (k, vs) ∷ rest

-- `header[k] = v`.
unfoldable pub put_values : Bytes → List Bytes → Header → Header
put_values key vs [] = (key, vs) ∷ []
put_values key vs ((k, us) ∷ h) =
    let rest = put_values key vs h in if k =ᵇ key then (k, vs) ∷ h else (k, us) ∷ rest

unfoldable pub put_all : Header → Header → Header
put_all [] h = h
put_all ((k, vs) ∷ new) h = put_all new (put_values k vs h)

abbrev replaced : Web → Header → Rewritten → Header
replaced w header (new, false) = header
replaced w header (new, true) = put_all new (without_keys (canonical_keys w header) header)

abbrev rewrite_headers : Web → List Bytes → List RewriteRule → Header → Header
rewrite_headers w framing [] header = header
rewrite_headers w framing (r ∷ rs) header =
    replaced w header (rewrite_all w framing (r ∷ rs) header ([], false))

-- `RewriteRequestHeaders` and `RewriteResponseHeaders`, for the rules of a policy.
unfoldable pub rewrite_request_headers : Web → Option HeaderRules → Header → Header
rewrite_request_headers w none header = header
rewrite_request_headers w (some r) header =
    rewrite_headers w request_framing r.request_rewrites header

unfoldable pub rewrite_response_headers : Web → Option HeaderRules → Header → Header
rewrite_response_headers w none header = header
rewrite_response_headers w (some r) header =
    rewrite_headers w response_framing r.response_rewrites header

abbrev pub misses : Option Regex → Bytes → Bool
misses none url = false
misses (some rx) url = not (rx.match_string url)

-- One round of `AddRequestHeaders`.
unfoldable pub add_header : Web → HeaderAddRule → Header → Bytes → Header
add_header w rule header url =
    if misses rule.url_regex url
      || (header_get w header rule.key =ᵇ rule.val)
      || is_dangerous_framing_header w request_framing rule.key
    then header
    else header_add w header rule.key rule.val

unfoldable pub add_headers : Web → List HeaderAddRule → Header → Bytes → Header
add_headers w [] header url = header
add_headers w (r ∷ rs) header url = add_headers w rs (add_header w r header url) url

unfoldable pub add_request_headers : Web → Option HeaderRules → Header → Bytes → Header
add_request_headers w none header url = header
add_request_headers w (some r) header url = add_headers w r.request_adds header url
