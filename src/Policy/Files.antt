-- ===== src/Policy/Files.antt =====
-- proxy/policy.go: the rules on the names and the types of files.
use lucid_gate.Prelude.{
  Bool, false, ◌&&◌, ◌||◌, not, Option, none, some, List, [], ◌∷◌, ◌++◌, Bytes, codes,
  if◌then◌else◌, take,
}
use lucid_gate.Text.{is_empty, has_prefix, trim_prefix, has_key, index, ◌=ᵇ◌}
use lucid_gate.Decision.{PolicyDecision, no_decision, block}
use lucid_gate.Policy.Web.{
  Web, Url, Request, Response, MediaType, header_get, lower_trimmed, path_base, path_ext,
  forward_slashes,
}

-- The sets are the lists of their keys.
pub record FileRulesConfig : Type 0 where
  pub banned_extensions : List Bytes
  pub exception_extensions : List Bytes
  pub banned_mimes : List Bytes
  pub exception_mimes : List Bytes
  pub banned_filenames : List Bytes
  pub exception_filenames : List Bytes

pub record FileRules : Type 0 where
  pub banned_extensions : List Bytes
  pub exception_extensions : List Bytes
  pub banned_mimes : List Bytes
  pub exception_mimes : List Bytes
  pub banned_filenames : List Bytes
  pub exception_filenames : List Bytes

pub record FileMatchInput : Type 0 where
  pub url : Bytes
  pub filename : Bytes
  pub content_type : Bytes

unfoldable pub normalized_set : (Bytes → Bytes) → List Bytes → List Bytes
normalized_set normalize [] = []
normalized_set normalize (v ∷ vs) =
    let rest = normalized_set normalize vs in
    if is_empty (normalize v) then rest else normalize v ∷ rest

unfoldable pub normalize_extension_rule : Web → Bytes → Bytes
normalize_extension_rule w ext =
    let trimmed = lower_trimmed w ext in
    let bare = trim_prefix trimmed (codes "*") in
    if is_empty trimmed then [] else if has_prefix bare (codes ".") then bare else codes "." ++ bare

abbrev is_no_name : Bytes → Bool
is_no_name s = (s =ᵇ codes ".") || (s =ᵇ codes "/")

unfoldable pub normalize_filename_rule : Web → Bytes → Bytes
normalize_filename_rule w filename =
    let trimmed = lower_trimmed w filename in
    let name = path_base (forward_slashes trimmed) in
    if is_empty trimmed || is_no_name trimmed || is_no_name name then [] else name

abbrev kind_or : Option MediaType → Bytes → Bytes
kind_or none value = value
kind_or (some m) value = m.kind

unfoldable pub normalize_mime_type : Web → Bytes → Bytes
normalize_mime_type w value =
    let trimmed = lower_trimmed w value in
    if is_empty trimmed then [] else kind_or (w.parse_media_type trimmed) trimmed

-- `major/*` of a type with a part in front of its first slash.
abbrev major_key : Bytes → Option Bytes
major_key value = elim (index value (codes "/")) [
  | none ↦ none
  | some i ↦ if is_empty (take i value) then none else some (take i value ++ codes "/*")
]

abbrev has_optional : List Bytes → Option Bytes → Bool
has_optional set none = false
has_optional set (some k) = has_key set k

unfoldable pub mime_set_matches : List Bytes → Bytes → Bool
mime_set_matches set value = has_key set value || has_optional set (major_key value)

unfoldable pub new_file_rules : Web → FileRulesConfig → FileRules
new_file_rules w cfg = record {
  banned_extensions = normalized_set (normalize_extension_rule w) cfg.banned_extensions;
  exception_extensions = normalized_set (normalize_extension_rule w) cfg.exception_extensions;
  banned_mimes = normalized_set (normalize_mime_type w) cfg.banned_mimes;
  exception_mimes = normalized_set (normalize_mime_type w) cfg.exception_mimes;
  banned_filenames = normalized_set (normalize_filename_rule w) cfg.banned_filenames;
  exception_filenames = normalized_set (normalize_filename_rule w) cfg.exception_filenames;
}

-- A value that is not empty and in the set.
abbrev pub listed : List Bytes → Bytes → Bool
listed set value = not (is_empty value) && has_key set value

abbrev pub mime_listed : List Bytes → Bytes → Bool
mime_listed set value = not (is_empty value) && mime_set_matches set value

unfoldable pub file_decision : Web → Option FileRules → FileMatchInput → PolicyDecision
file_decision w none input = no_decision
file_decision w (some r) input =
    let filename = normalize_filename_rule w input.filename in
    let ext = normalize_extension_rule w (path_ext filename) in
    let mime_type = normalize_mime_type w input.content_type in
    if listed r.exception_filenames filename
    then no_decision
    else if listed r.exception_extensions ext
    then no_decision
    else if mime_listed r.exception_mimes mime_type
    then no_decision
    else if listed r.banned_filenames filename
    then block "filename" filename
    else if listed r.banned_extensions ext
    then block "extension" ext
    else if mime_listed r.banned_mimes mime_type
    then block "mime" mime_type
    else no_decision

abbrev unescaped_or : Option Bytes → Bytes → Bytes
unescaped_or none s = s
unescaped_or (some t) s = t

unfoldable pub filename_from_url : Web → Option Url → Bytes
filename_from_url w none = []
filename_from_url w (some u) =
    let escaped = u.escaped_path in
    if is_empty escaped || (escaped =ᵇ codes "/")
    then []
    else normalize_filename_rule w (unescaped_or (w.path_unescape escaped) escaped)

abbrev named_file : Web → MediaType → Bytes
named_file w m =
    if not (is_empty (m.parameter (codes "filename")))
    then normalize_filename_rule w (m.parameter (codes "filename"))
    else if not (is_empty (m.parameter (codes "filename*")))
    then normalize_filename_rule w (m.parameter (codes "filename*"))
    else []

unfoldable pub response_filename : Web → Option Response → Bytes
response_filename w none = []
response_filename w (some resp) =
    let cd = header_get w resp.header (codes "Content-Disposition") in
    if is_empty cd then [] else elim (w.parse_media_type cd) [ none ↦ [] | some m ↦ named_file w m ]

-- `requestURLExtension`.
unfoldable pub request_url_extension : Web → Option Request → Bytes
request_url_extension w none = []
request_url_extension w (some req) = elim req.url [
  | none ↦ []
  | some u ↦ normalize_extension_rule w (path_ext (filename_from_url w (some u)))
]
