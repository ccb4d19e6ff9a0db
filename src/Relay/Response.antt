-- ===== src/Relay/Response.antt =====
-- proxy/relay.go: which filters a response goes through, by its type.
use lucid_gate.Prelude.{
  Bool, true, false, ◌||◌, ◌&&◌, not, Option, none, some, List, [], ◌∷◌, ◌++◌, Bytes, codes,
  if◌then◌else◌,
}
use lucid_gate.Text.{Unicode, is_empty, ◌=ᵇ◌, has_key, has_prefix, contains, before_byte}
use lucid_gate.Policy.Web.{Web, Request, header_get}
use lucid_gate.Filter.Injection
use lucid_gate.Filter.HtmlText.{new_html_text_filter}
use lucid_gate.Semantic.Automaton.{PhraseFilter}
use lucid_gate.Semantic.Stream
use lucid_gate.Filter.Content.{
  StreamFilter, text, injection, ContentFilter, ContentStream, stream_for, magic_part,
  semantic_part, log_part, masking_part, substitution_part,
}

-- The type in front of the parameters, as the tests on types read it.
unfoldable pub media_type : Unicode → Bytes → Bytes
media_type u ct = u.to_lower (u.trim_space (before_byte ct b';'))

unfoldable pub is_structured_stream_content_type : Bytes → Bool
is_structured_stream_content_type mt = mt =ᵇ codes "text/event-stream"

abbrev mutable_types : List Bytes
mutable_types =
    codes "application/javascript"
    ∷ codes "application/x-javascript"
    ∷ codes "application/ecmascript"
    ∷ codes "application/x-www-form-urlencoded"
    ∷ codes "application/grpc-web-text"
    ∷ codes "application/x-ndjson"
    ∷ []

unfoldable pub is_mutable_content_type : Unicode → Bytes → Bool
is_mutable_content_type u ct =
    let mt = media_type u ct in
    if is_empty ct
    then false
    else if is_structured_stream_content_type mt
    then false
    else if has_prefix mt (codes "text/")
    then true
    else if contains mt (codes "json") || contains mt (codes "xml")
    then true
    else has_key mutable_types mt

abbrev script_types : List Bytes
script_types =
    codes "application/javascript"
    ∷ codes "application/x-javascript"
    ∷ codes "application/ecmascript"
    ∷ codes "text/javascript"
    ∷ codes "text/ecmascript"
    ∷ codes "text/css"
    ∷ []

unfoldable pub is_script_or_style_content_type : Unicode → Bytes → Bool
is_script_or_style_content_type u ct = has_key script_types (media_type u ct)

unfoldable pub is_filter_mutable_response_type : Unicode → Bytes → Bool
is_filter_mutable_response_type u ct =
    if not (is_mutable_content_type u ct) then false else not (is_script_or_style_content_type u ct)

unfoldable pub is_html_content_type : Unicode → Bytes → Bool
is_html_content_type u ct =
    has_key (codes "text/html" ∷ codes "application/xhtml+xml" ∷ []) (media_type u ct)

-- `none` is a request that is nil.
unfoldable pub should_inject_html_banner : Web → Option Request → Bool
should_inject_html_banner w none = true
should_inject_html_banner w (some req) =
    let dest =
      w.unicode.to_lower
        (w.unicode.trim_space (header_get w req.header (codes "Sec-Fetch-Dest"))) in
    if is_empty dest then true else dest =ᵇ codes "document"

abbrev pub text_part : Option PhraseFilter → List StreamFilter
text_part none = []
text_part (some g) = text (new_html_text_filter, Stream.new_filter g) ∷ []

abbrev pub text_log_part : Option PhraseFilter → List StreamFilter
text_log_part none = []
text_log_part (some g) =
    text (new_html_text_filter, record (Stream.new_filter g) { observe_only = true }) ∷ []

abbrev pub banner_part : Bool → Option Bytes → List StreamFilter
banner_part injects none = []
banner_part injects (some banner) =
    if not (is_empty banner) && injects then injection (Injection.new_filter banner) ∷ [] else []

-- The filters for a page.
unfoldable pub html_filters : Bool → ContentFilter → List StreamFilter
html_filters injects f =
    text_part f.semantic
    ++ text_log_part f.log_semantic
    ++ substitution_part f.substitution
    ++ banner_part injects f.html

-- The filters for another text. A substitution without rules passes everything, and is left out.
unfoldable pub plain_filters : ContentFilter → List StreamFilter
plain_filters f =
    semantic_part f.semantic
    ++ log_part f.log_semantic
    ++ masking_part f.masking
    ++ substitution_part f.substitution

abbrev pub typed_filters : Web → ContentFilter → Bytes → Option Request → List StreamFilter
typed_filters w f ct req =
    if is_filter_mutable_response_type w.unicode ct
    then if is_html_content_type w.unicode ct
      then html_filters (should_inject_html_banner w req) f
      else plain_filters f
    else []

-- `respFilter` for a `ContentFilter`, with `newChainOrPassThrough`.
unfoldable pub resp_filter : Web → ContentFilter → Bytes → Option Request → ContentStream
resp_filter w f ct req = stream_for (magic_part f.magic ++ typed_filters w f ct req)
