-- ===== src/Policy/Guards.antt =====
-- What the rewriting of URLs and the adding of headers leave alone.
use lucid_gate.Prelude.{
  ◌≡◌, inl, inr, Bool, true, false, ◌&&◌, ◌||◌, Option, none, some, List, [], ◌∷◌, Bytes, arith,
  refl, ◌∙◌, if◌then◌else◌, Bool-cases,
}
use lucid_gate.Text.{◌=ᵇ◌, =ᵇ_iff, has_key}
use lucid_gate.Policy.Web.{Web, Header, values_of, append_value, header_add, header_get}
use lucid_gate.Policy.Headers.{RewriteRule, HeaderAddRule, HeaderRules}
use lucid_gate.Policy.Rewrites.{
  request_framing, is_dangerous_framing_header, misses, add_header, add_headers,
  add_request_headers,
}
use lucid_gate.Policy.Urls.{UrlRules, get_host, rewrite_from, rewrite_url}

rewrite_from-host :
    (w : Web) (rs : List RewriteRule) (original current : Bytes) (modified : Bool)
    → get_host w current ≡ get_host w original
    → get_host w (rewrite_from w rs original current modified).0 ≡ get_host w original
unfolding rewrite_from
rewrite_from-host w [] original current modified h = h
rewrite_from-host w (r ∷ rs) original current modified h =
    let new = r.regex.replace_all current r.replace in
    let taken = r.regex.match_string current && (get_host w new =ᵇ get_host w original) in
    rewrite_from-host w rs original (if taken then new else current) (modified || taken)
      (elim (Bool-cases (r.regex.match_string current)) [
        | inr miss ↦ rw miss h
        | inl hit ↦ elim (Bool-cases (get_host w new =ᵇ get_host w original)) [
          | inl same ↦ rw (hit, same) ((=ᵇ_iff _ _).0 same)
          | inr other ↦ rw (hit, other) h
        ]
      ])

rewrite_from-unmodified :
    (w : Web) (rs : List RewriteRule) (original current : Bytes) (modified : Bool)
    → (rewrite_from w rs original current modified).1 ≡ false
    → (modified ≡ false) × ((rewrite_from w rs original current modified).0 ≡ current)
unfolding rewrite_from
rewrite_from-unmodified w [] original current modified h = (h, refl)
rewrite_from-unmodified w (r ∷ rs) original current modified h =
    let new = r.regex.replace_all current r.replace in
    let taken = r.regex.match_string current && (get_host w new =ᵇ get_host w original) in
    let rest =
      rewrite_from-unmodified w rs original (if taken then new else current) (modified || taken)
        h in
    elim (Bool-cases taken) [
      | inl e ↦ absurd (ground arith)
      | inr e ↦ (ground arith, rest.1 ∙ ground arith)
    ]

-- Whatever the rewrite rules replace, the rewritten URL has the host of the URL that came in, and a URL that is
-- reported as not modified is the one that came in.
pub rewrite_url-get_host :
    (w : Web) (r : Option UrlRules) (url : Bytes)
    → (get_host w (rewrite_url w r url).0 ≡ get_host w url)
      × ((rewrite_url w r url).1 ≡ false → (rewrite_url w r url).0 ≡ url)
unfolding rewrite_url
rewrite_url-get_host w none url = (refl, λ e. refl)
rewrite_url-get_host w (some r) url = (
  rewrite_from-host w r.rewrites url url false refl,
  λ e. (rewrite_from-unmodified w r.rewrites url url false e).1,
)

values_of-append_value :
    (k key v : Bytes) (h : Header)
    → (key =ᵇ k) ≡ false
    → values_of k (append_value key v h) ≡ values_of k h
unfolding values_of append_value
values_of-append_value k key v [] e = rw e refl
values_of-append_value k key v ((j, vs) ∷ h) e = elim (Bool-cases (j =ᵇ key)) [
  | inl same ↦ rw same (rw ((=ᵇ_iff j key).0 same) (rw e refl))
  | inr other ↦ rw other (ground (arith, values_of-append_value k key v h e))
]

has_key-false :
    (keys : List Bytes) (k j : Bytes)
    → has_key keys k ≡ true
    → has_key keys j ≡ false
    → (j =ᵇ k) ≡ false
has_key-false keys k j h n = elim (Bool-cases (j =ᵇ k)) [
  | inl same ↦ absurd (ground (arith, (=ᵇ_iff j k).0 same))
  | inr other ↦ other
]

skipped :
    (k : Bytes) (a b c : Bool) (x y : Header)
    → (c ≡ false → values_of k y ≡ values_of k x)
    → values_of k (if a || b || c then x else y) ≡ values_of k x
skipped k true b c x y h = refl
skipped k false true c x y h = refl
skipped k false false true x y h = refl
skipped k false false false x y h = h refl

add_header-framing :
    (w : Web) (rule : HeaderAddRule) (h : Header) (url k : Bytes)
    → has_key request_framing k ≡ true
    → values_of k (add_header w rule h url) ≡ values_of k h
unfolding add_header header_add is_dangerous_framing_header
add_header-framing w rule h url k e =
    skipped k (misses rule.url_regex url) (header_get w h rule.key =ᵇ rule.val)
      (has_key request_framing (w.canonical_header_key rule.key)) h
      (append_value (w.canonical_header_key rule.key) rule.val h)
      λ other.
        values_of-append_value k (w.canonical_header_key rule.key) rule.val h
          (has_key-false request_framing k (w.canonical_header_key rule.key) e other)

-- Whatever the rules add, and for every URL, the values of the framing headers Content-Length,
-- Transfer-Encoding, Host, Connection and Upgrade stay as they are.
pub add_request_headers-framing :
    (w : Web) (r : Option HeaderRules) (h : Header) (url k : Bytes)
    → has_key request_framing k ≡ true
    → values_of k (add_request_headers w r h url) ≡ values_of k h
unfolding add_request_headers add_headers
add_request_headers-framing w none h url k e = refl
add_request_headers-framing w (some r) h url k e = all_rules r.request_adds h
  where
    all_rules :
        (rs : List HeaderAddRule) (h : Header)
        → values_of k (add_headers w rs h url) ≡ values_of k h
    all_rules [] h = refl
    all_rules (rule ∷ rs) h =
        all_rules rs (add_header w rule h url) ∙ add_header-framing w rule h url k e
