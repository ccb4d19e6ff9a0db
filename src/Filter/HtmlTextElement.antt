-- ===== src/Filter/HtmlTextElement.antt =====
-- What a filter under the text filter is shown of a page with a script or a style in it.
use lucid_gate.Prelude.{
  ℕ, suc, ◌≡◌, ◌≢◌, inl, inr, Option, none, some, [], ◌∷◌, ◌++◌, Bytes, codes, map, All, arith,
  refl, sym, ap, ◌∙◌, append_assoc, append-nil, Option-cases,
}
use lucid_gate.Filter.Fold.{lower_ascii}
use lucid_gate.Filter.Chain.{passed, FilterEngine}
use lucid_gate.Semantic.Stream.{unmatched}
use lucid_gate.Filter.HtmlText.{
  HtmlTextState, new_html_text_filter, closing, consume_byte, show_byte, process_bytes,
}
use lucid_gate.Filter.HtmlTextSkip.{visible_text, shown_first, Lacks, visible-element}
use lucid_gate.Filter.HtmlTextTags.{IsSkipped, script, style, Opens, read_opening}

-- A filter that keeps what it is given.
abbrev pub recorder : FilterEngine Bytes
recorder = record {
  process_chunk = λ kept input. (kept ++ input, passed input);
  flush = λ kept. none;
  decision = λ kept. none;
  log_decision = λ kept. unmatched;
}

-- What `inner` has been given after a page.
abbrev pub given_inner : Bytes → Bytes
given_inner page = (process_bytes recorder page (new_html_text_filter, []) page 0).0.1

process_bytes-none :
    (input : Bytes) (f : HtmlTextState) (kept : Bytes) (b : ℕ) (s : Bytes) (i : ℕ)
    → (consume_byte f b).1 ≡ none
    → process_bytes recorder input (f, kept) (b ∷ s) i
      ≡ process_bytes recorder input ((consume_byte f b).0, kept) s (suc i)
unfolding process_bytes show_byte
process_bytes-none input f kept b s i h = rw (h, process_bytes, show_byte) refl

process_bytes-some :
    (input : Bytes) (f : HtmlTextState) (kept : Bytes) (b v : ℕ) (s : Bytes) (i : ℕ)
    → (consume_byte f b).1 ≡ some v
    → process_bytes recorder input (f, kept) (b ∷ s) i
      ≡ process_bytes recorder input ((consume_byte f b).0, kept ++ v ∷ []) s (suc i)
unfolding process_bytes show_byte
process_bytes-some input f kept b v s i h = rw (h, process_bytes, show_byte) refl

visible_text-cons :
    (f : HtmlTextState) (b : ℕ) (s : Bytes) (o : Option ℕ)
    → (consume_byte f b).1 ≡ o
    → visible_text f (b ∷ s) ≡ shown_first o (visible_text (consume_byte f b).0 s)
unfolding visible_text
visible_text-cons f b s o h = ap (λ o. shown_first o (visible_text (consume_byte f b).0 s)) h

process_bytes-visible_text :
    (input s : Bytes) (f : HtmlTextState) (kept : Bytes) (i : ℕ)
    → (process_bytes recorder input (f, kept) s i).0.1 ≡ kept ++ visible_text f s
process_bytes-visible_text input [] f kept i =
    unfold process_bytes visible_text in sym (append-nil kept)
process_bytes-visible_text input (b ∷ s) f kept i = elim (Option-cases (consume_byte f b).1) [
  | inl h ↦
      ap (λ r. r.0.1) (process_bytes-none input f kept b s i h)
      ∙ process_bytes-visible_text input s (consume_byte f b).0 kept (suc i)
      ∙ ap (λ r. kept ++ r) (sym (visible_text-cons f b s none h))
  | inr (v, h) ↦
      ap (λ r. r.0.1) (process_bytes-some input f kept b v s i h)
      ∙ process_bytes-visible_text input s (consume_byte f b).0 (kept ++ v ∷ []) (suc i)
      ∙ append_assoc kept (v ∷ []) (visible_text (consume_byte f b).0 s)
      ∙ ap (λ r. kept ++ r) (sym (visible_text-cons f b s (some v) h))
]

given_inner-visible_text :
    (page : Bytes) → given_inner page ≡ visible_text new_html_text_filter page
given_inner-visible_text page = process_bytes-visible_text page page new_html_text_filter [] 0

script_letters : All (λ c. c ≢ 60) (codes "script")
script_letters =
    (omega arith, (omega arith, (omega arith, (omega arith, (omega arith, (omega arith, tt))))))

style_letters : All (λ c. c ≢ 60) (codes "style")
style_letters = (omega arith, (omega arith, (omega arith, (omega arith, (omega arith, tt)))))

-- Of a page that starts with a script or a style, the filter under the text filter is given what it is
-- given of the page after the element: nothing of the element, where its body holds its closing tag, without
-- blanks, nowhere. The opening tag has its name in letters of any case, alone or followed by a blank or a slash and
-- attributes, whose quoted values may hold a `>`; the closing tag may be in any case.
pub given_inner-element :
    (name opening body close rest : Bytes)
    → IsSkipped name
    → Opens name opening
    → Lacks (closing name) (map lower_ascii body)
    → map lower_ascii close ≡ closing name
    → given_inner (opening ++ (body ++ (close ++ rest))) ≡ given_inner rest
given_inner-element name opening body close rest script o lacks e =
    given_inner-visible_text (opening ++ (body ++ (close ++ rest)))
    ∙ read_opening (codes "script") opening (body ++ (close ++ rest)) script o
    ∙ visible-element new_html_text_filter b's' (codes "cript") script_letters body close rest lacks
        e
    ∙ sym (given_inner-visible_text rest)
given_inner-element name opening body close rest style o lacks e =
    given_inner-visible_text (opening ++ (body ++ (close ++ rest)))
    ∙ read_opening (codes "style") opening (body ++ (close ++ rest)) style o
    ∙ visible-element new_html_text_filter b's' (codes "tyle") style_letters body close rest lacks e
    ∙ sym (given_inner-visible_text rest)
