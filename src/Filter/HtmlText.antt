-- ===== src/Filter/HtmlText.antt =====
-- proxy/html_filter.go: `htmlTextFilter`, which shows the text of a page, without tags, comments, scripts
-- and styles, to the filter under it.
use lucid_gate.Prelude.{
  ℕ, suc, Bool, true, false, ◌&&◌, ◌||◌, not, Option, none, some, [], ◌∷◌, ◌++◌, Bytes, codes, ◌==◌,
  if◌then◌else◌, length, take, get_elem?, ltb,
}
use lucid_gate.Text.{is_empty, ◌=ᵇ◌, contains_byte}
use lucid_gate.Filter.Fold.{lower_ascii}
use lucid_gate.Filter.Chain.{Answer, refused, passed, stopped, FilterEngine}

-- `htmlTextFilter` without `inner`; a `quote` of 0 is none.
pub record HtmlTextState : Type 0 where
  pub in_tag : Bool
  pub tag_closing : Bool
  pub tag_name : Bytes
  pub tag_name_done : Bool
  pub quote : ℕ
  pub comment : ℕ
  pub skip : Bytes
  pub close_match : ℕ

-- `newHTMLTextFilter`.
abbrev pub new_html_text_filter : HtmlTextState
new_html_text_filter = record {
  in_tag = false;
  tag_closing = false;
  tag_name = [];
  tag_name_done = false;
  quote = 0;
  comment = 0;
  skip = [];
  close_match = 0;
}

-- `isHTMLSpace`: blank, tab, carriage return, newline, form feed.
unfoldable pub is_html_space : ℕ → Bool
is_html_space b = contains_byte (32 ∷ 9 ∷ 13 ∷ 10 ∷ 12 ∷ []) b

unfoldable pub start_tag : HtmlTextState → HtmlTextState
start_tag f = record f {
  in_tag = true;
  tag_closing = false;
  tag_name_done = false;
  quote = 0;
  tag_name = [];
}

abbrev skips : HtmlTextState → Bool
skips f = not f.tag_closing && ((f.tag_name =ᵇ codes "script") || (f.tag_name =ᵇ codes "style"))

abbrev leave_tag : HtmlTextState → HtmlTextState
leave_tag f = record f {
  in_tag = false;
  tag_closing = false;
  tag_name_done = false;
  quote = 0;
  tag_name = [];
}

unfoldable pub finish_tag : HtmlTextState → HtmlTextState
finish_tag f = leave_tag (if skips f then record f { skip = f.tag_name; close_match = 0 } else f)

unfoldable pub consume_tag : HtmlTextState → ℕ → HtmlTextState
consume_tag f b =
    if not (f.quote == 0)
    then if b == f.quote then record f { quote = 0 } else f
    else if b == 34 || b == 39
    then record f { quote = b }
    else if is_empty f.tag_name && not f.tag_closing && b == 33
    then record f { comment = 1; in_tag = false }
    else if is_empty f.tag_name && b == 47
    then record f { tag_closing = true }
    else if b == 62
    then finish_tag f
    else if is_html_space b || b == 47
    then record f { tag_name_done = true }
    else if not f.tag_name_done
    then record f { tag_name = f.tag_name ++ lower_ascii b ∷ [] }
    else f

abbrev close_comment : ℕ → ℕ
close_comment b = if b == 62 then 0 else 1

-- The new value of `comment`.
unfoldable pub consume_comment : ℕ → ℕ → ℕ
consume_comment comment b =
    if comment == 1
    then if b == 45 then 2 else close_comment b
    else if comment == 2
    then if b == 45 then 3 else close_comment b
    else if comment == 3
    then if b == 62 then 0 else if b == 45 then 3 else close_comment b
    else close_comment b

-- The closing tag of an element.
abbrev pub closing : Bytes → Bytes
closing name = 60 ∷ 47 ∷ name ++ 62 ∷ []

-- The index `closeMatch` lies in the tag, since it is set back when the tag is complete.
unfoldable pub consume_skipped_content : HtmlTextState → ℕ → HtmlTextState
consume_skipped_content f b = elim (get_elem? (closing f.skip) f.close_match) [
  | none ↦ f
  | some wanted ↦
      if lower_ascii b == wanted
      then if suc f.close_match == length (closing f.skip)
        then record f { skip = []; close_match = 0 }
        else record f { close_match = suc f.close_match }
      else if lower_ascii b == 60
      then record f { close_match = 1 }
      else record f { close_match = 0 }
]

-- `consumeByte`: the byte, if it is visible.
unfoldable pub consume_byte : HtmlTextState → ℕ → HtmlTextState × Option ℕ
consume_byte f b =
    if not (is_empty f.skip)
    then (consume_skipped_content f b, none)
    else if ltb 0 f.comment
    then (record f { comment = consume_comment f.comment b }, none)
    else if f.in_tag
    then (consume_tag f b, none)
    else if b == 60
    then (start_tag f, none)
    else (f, some b)

module _ {F : Type 0} (e : FilterEngine F) where
  -- A round of the loop of `ProcessChunk`: what `inner` answers, if the byte is shown to it.
  unfoldable pub show_byte : HtmlTextState × F → ℕ → (HtmlTextState × F) × Answer
  show_byte (f, g) b = elim (consume_byte f b).1 [
    | none ↦ (((consume_byte f b).0, g), passed [])
    | some visible ↦ let (h, a) = e.process_chunk g (visible ∷ []) in (((consume_byte f b).0, h), a)
  ]

  -- What becomes of the loop by that answer; `rest` is the loop on the bytes after it.
  abbrev pub after_byte :
      Bytes
      → ℕ
      → (HtmlTextState × F) × Answer
      → (HtmlTextState × F) × Answer
      → (HtmlTextState × F) × Answer
  after_byte input i (st, refused) rest = (st, refused)
  after_byte input i (st, stopped out) rest = (st, stopped (take (suc i) input))
  after_byte input i (st, passed out) rest = rest

  -- The loop on what is left of the chunk, from the index `i` on.
  unfoldable pub process_bytes :
      Bytes → HtmlTextState × F → Bytes → ℕ → (HtmlTextState × F) × Answer
  process_bytes input st [] i = (st, passed input)
  process_bytes input st (b ∷ s) i =
      after_byte input i (show_byte st b) (process_bytes input (show_byte st b).0 s (suc i))

-- The engine of the text filter over the one of `inner`; it has no `Flush`.
abbrev pub html_engine : {F : Type 0} → FilterEngine F → FilterEngine (HtmlTextState × F)
html_engine e = record {
  process_chunk = λ f input. process_bytes e input f input 0;
  flush = λ f. none;
  decision = λ (f, g). e.decision g;
  log_decision = λ (f, g). e.log_decision g;
}
