-- ===== src/Relay/Banner.antt =====
-- What the filters of the relay make of a page that they neither block nor substitute in.
use lucid_gate.Prelude.{
  ℕ, suc, ◌≡◌, inl, inr, Bool, true, false, ◌&&◌, not, Option, none, some, List, [], ◌∷◌, ◌++◌,
  Bytes, refl, sym, ap, ◌∙◌, append-nil, Option-cases, if◌then◌else◌,
}
use lucid_gate.Text.{is_empty}
use lucid_gate.Policy.Web.{Web, Request}
use lucid_gate.Semantic.Automaton.{PhraseFilter}
use lucid_gate.Semantic.Stream.{PhraseStream}
use lucid_gate.Semantic.Stream
use lucid_gate.Semantic.Chunks.{IsOpen}
use lucid_gate.Filter.Injection.{InjectionStream}
use lucid_gate.Filter.Injection
use lucid_gate.Filter.InjectionStream.{concat, inject_page, run-new_filter}
use lucid_gate.Filter.Magic.{Sniffer}
use lucid_gate.Filter.Masking.{MaskingFilter}
use lucid_gate.Filter.Chain.{passed, answered, after_output, deliver}
use lucid_gate.Filter.ChainPasses.{Effect, Composed, AllStream}
use lucid_gate.Filter.HtmlText.{HtmlTextState, consume_byte, show_byte, after_byte, process_bytes}
use lucid_gate.Filter.Content.{
  StreamFilter, injection, text, phrase_engine, phrase_step, process_filter, flush_filter,
  stream_engine, content_engine, ContentFilter,
}
use lucid_gate.Filter.ContentStreams.{process_chunk-IsOpen, stream_for-Composed}
use lucid_gate.Relay.Response.{
  is_filter_mutable_response_type, is_html_content_type, should_inject_html_banner, text_log_part,
  banner_part, html_filters, resp_filter,
}

show_byte-IsOpen :
    (h : HtmlTextState) (f : PhraseStream) (b : ℕ)
    → IsOpen f
    → (g : PhraseStream) × (out : Bytes) × (show_byte phrase_engine (h, f) b
        ≡ (((consume_byte h b).0, g), passed out))
      × IsOpen g
unfolding show_byte
show_byte-IsOpen h f b o = elim (Option-cases (consume_byte h b).1) [
  | inl e ↦ (f, [], rw (e, show_byte) refl, o)
  | inr (v, e) ↦
      let (g, eq, p) = process_chunk-IsOpen f (v ∷ []) o in
      (
        g,
        v ∷ [],
        rw (e, show_byte)
            (ap (λ r. (((consume_byte h b).0, (phrase_step f r).0), (phrase_step f r).1)) eq),
        p,
      )
]

process_bytes-IsOpen :
    (input s : Bytes) (h : HtmlTextState) (f : PhraseStream) (i : ℕ)
    → IsOpen f
    → (k : HtmlTextState) × (g : PhraseStream) × (process_bytes phrase_engine input (h, f) s i
        ≡ ((k, g), passed input))
      × IsOpen g
unfolding process_bytes
process_bytes-IsOpen input [] h f i o = (h, f, refl, o)
process_bytes-IsOpen input (b ∷ s) h f i o =
    let (g, out, eq, p) = show_byte-IsOpen h f b o in
    let (k, g2, next, q) = process_bytes-IsOpen input s (consume_byte h b).0 g (suc i) p in
    (
      k,
      g2,
      ap (λ r. after_byte phrase_engine input i r (process_bytes phrase_engine input r.0 s (suc i)))
            eq
          ∙ next,
      q,
    )

module _ (m : Sniffer) where
  deliver-text :
      (h : HtmlTextState) (f : PhraseStream) (cs : List Bytes)
      → IsOpen f
      → deliver (stream_engine m) (text (h, f)) cs ≡ passed (concat cs)
  unfolding deliver flush_filter process_filter
  deliver-text h f [] o = refl
  deliver-text h f (c ∷ cs) o =
      let (k, g, eq, p) = process_bytes-IsOpen c c h f 0 o in
      ap (λ r. answered r.1 (λ out. after_output out (deliver (stream_engine m) (text r.0) cs))) eq
      ∙ ap (after_output c) (deliver-text k g cs p)

  deliver-injection :
      (f : InjectionStream) (cs : List Bytes)
      → deliver (stream_engine m) (injection f) cs ≡ passed (Injection.run f cs)
  unfolding deliver process_filter flush_filter Injection.run
  deliver-injection f [] = refl
  deliver-injection f (c ∷ cs) =
      ap (after_output (Injection.process_chunk f c).1)
        (deliver-injection (Injection.process_chunk f c).0 cs)

-- A configuration without phrases that block, types that block and substitutions: phrases are observed at
-- most, words may be masked where the page is not HTML, and the banner is put in.
abbrev pub bannered : Option PhraseFilter → Option MaskingFilter → Bytes → ContentFilter
bannered log masking banner = record {
  semantic = none;
  log_semantic = log;
  masking = masking;
  magic = none;
  substitution = none;
  html = some banner;
}

abbrev pub page_with_banner : Bool → Bytes → Bytes → Bytes
page_with_banner injects banner page =
    if not (is_empty banner) && injects then inject_page banner page else page

-- Filters that together make of a page what `wanted` makes of it.
abbrev Makes : Sniffer → List StreamFilter → (Bytes → Bytes) → Type 1
Makes m fs wanted =
    (Rs : List Effect) × AllStream (stream_engine m) fs Rs
    × ((s t : Bytes) → Composed Rs s t → t ≡ wanted s)

not_empty : (a b : Bool) → (not a && b) ≡ true → a ≡ false
not_empty true b h = absurd (cc)
not_empty false b h = refl

Makes-injection :
    (m : Sniffer) (banner : Bytes) (b : Bool)
    → (b ≡ true → is_empty banner ≡ false)
    → Makes m
        (if b then injection (Injection.new_filter banner) ∷ [] else [])
        λ page. if b then inject_page banner page else page
Makes-injection m banner false h = ([], tt, λ s t q. sym q)
Makes-injection m banner true h = (
  (λ s t. t ≡ inject_page banner s) ∷ [],
  ((λ cs. (_, deliver-injection m _ cs, run-new_filter banner cs (h refl))), tt),
  λ s t (x, e, q). sym q ∙ e,
)

Makes-banner_part :
    (m : Sniffer) (injects : Bool) (banner : Bytes)
    → Makes m (banner_part injects (some banner)) (page_with_banner injects banner)
Makes-banner_part m injects banner =
    Makes-injection m banner (not (is_empty banner) && injects)
      λ h. not_empty (is_empty banner) injects h

Makes-text_log_part :
    (m : Sniffer) (log : Option PhraseFilter) (fs : List StreamFilter) (wanted : Bytes → Bytes)
    → Makes m fs wanted
    → Makes m (text_log_part log ++ fs) wanted
unfolding Stream.new_filter
Makes-text_log_part m none fs wanted k = k
Makes-text_log_part m (some g) fs wanted (Rs, a, made) = (
  (λ s t. s ≡ t) ∷ Rs,
  ((λ cs. (concat cs, deliver-text m _ _ cs (inl refl), refl)), a),
  λ s t (x, e, q). made x t q ∙ ap wanted (sym e),
)

html_filters-bannered :
    (injects : Bool) (log : Option PhraseFilter) (masking : Option MaskingFilter) (banner : Bytes)
    → html_filters injects (bannered log masking banner)
      ≡ text_log_part log ++ banner_part injects (some banner)
unfolding html_filters
html_filters-bannered injects log masking banner =
    ap (λ fs. fs ++ banner_part injects (some banner)) (append-nil (text_log_part log))

-- A page of a type that is HTML and may be changed, under a configuration that has a banner, possibly empty, and
-- neither phrases that block nor types that block nor substitutions (phrases may be observed, and masking is
-- for other types), comes out of the relay's filters as it is, except for the banner: if it is not empty and the request
-- is for a document, it stands in front of the first closing body tag. It does so however the page is cut.
pub deliver-resp_filter :
    (m : Sniffer) (w : Web) (log : Option PhraseFilter) (masking : Option MaskingFilter)
    (banner ct : Bytes) (req : Option Request) (cs : List Bytes)
    → is_filter_mutable_response_type w.unicode ct ≡ true
    → is_html_content_type w.unicode ct ≡ true
    → deliver (content_engine m) (resp_filter w (bannered log masking banner) ct req) cs
      ≡ passed (page_with_banner (should_inject_html_banner w req) banner (concat cs))
unfolding resp_filter
deliver-resp_filter m w log masking banner ct req cs mutable html =
    let injects = should_inject_html_banner w req in
    let (Rs, a, made) =
      Makes-text_log_part m log (banner_part injects (some banner))
        (page_with_banner injects banner) (Makes-banner_part m injects banner) in
    let (out, eq, q) =
      stream_for-Composed m (text_log_part log ++ banner_part injects (some banner)) Rs a cs in
    rw (mutable, html, html_filters-bannered injects log masking banner)
      (eq ∙ ap (λ x. passed x) (made (concat cs) out q))
