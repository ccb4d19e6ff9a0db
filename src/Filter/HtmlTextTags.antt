-- ===== src/Filter/HtmlTextTags.antt =====
-- Opening tags of scripts and styles, as the text filter reads them.
use lucid_gate.Prelude.{
  ℕ, ◌≡◌, ◌≢◌, ◌≤◌, ◌⊎◌, inl, inr, Bool, true, false, ◌||◌, [], ◌∷◌, ◌++◌, Bytes, codes, ◌==◌, map,
  All, arith, refl, sym, ap, subst, ◌∙◌, append_assoc, append-nil,
}
use lucid_gate.Text.{◌=ᵇ◌, is_empty, contains_byte}
use lucid_gate.Filter.Fold.{lower_ascii}
use lucid_gate.Filter.HtmlText.{
  HtmlTextState, new_html_text_filter, consume_byte, consume_tag, start_tag, finish_tag,
  is_html_space,
}
use lucid_gate.Filter.HtmlTextSkip.{visible_text, skips_from}

-- The attributes of a tag: bytes that do not end it, and quoted values that may hold any byte but the quote.
pub data Attributes : Bytes → Type 0 where
  none_left : Attributes []
  bare : (b : ℕ) (rest : Bytes) → b ≢ 34 → b ≢ 39 → b ≢ 62 → Attributes rest → Attributes (b ∷ rest)
  quoted :
      (quote : ℕ) (value rest : Bytes)
      → (quote ≡ 34) ⊎ (quote ≡ 39)
      → All (λ c. c ≢ quote) value
      → Attributes rest
      → Attributes (quote ∷ (value ++ quote ∷ rest))

-- The elements whose content is not text.
pub data IsSkipped : Bytes → Type 0 where
  script : IsSkipped (codes "script")
  style : IsSkipped (codes "style")

-- An opening tag of such an element, its name in letters of any case, alone or followed by a blank or a slash and
-- attributes.
pub data Opens (name : Bytes) : Bytes → Type 0 where
  alone : (word : Bytes) → map lower_ascii word ≡ name → Opens name (60 ∷ (word ++ 62 ∷ []))
  with_attributes :
      (word : Bytes) (blank : ℕ) (attributes : Bytes)
      → map lower_ascii word ≡ name
      → (is_html_space blank || (blank == 47)) ≡ true
      → Attributes attributes
      → Opens name (60 ∷ (word ++ blank ∷ (attributes ++ 62 ∷ [])))

-- The state in a tag after some of it.
abbrev tag_state : Bytes → Bool → ℕ → HtmlTextState
tag_state name done quote = record new_html_text_filter {
  in_tag = true;
  tag_name = name;
  tag_name_done = done;
  quote = quote;
}

abbrev AreLetters : Bytes → Type 0
AreLetters s = All (λ c. (97 ≤ c) × (c ≤ 122)) s

visible-opening :
    (s : Bytes) → visible_text new_html_text_filter (60 ∷ s) ≡ visible_text (tag_state [] false 0) s
unfolding visible_text consume_byte start_tag is_empty
visible-opening s = refl

visible-tag :
    (name : Bytes) (done : Bool) (quote b : ℕ) (s : Bytes) (g : HtmlTextState)
    → consume_tag (tag_state name done quote) b ≡ g
    → visible_text (tag_state name done quote) (b ∷ s) ≡ visible_text g s
unfolding visible_text consume_byte is_empty
visible-tag name done quote b s g h = ap (λ g. visible_text g s) h

consume-letter :
    (name : Bytes) (b : ℕ)
    → 97 ≤ lower_ascii b
    → lower_ascii b ≤ 122
    → consume_tag (tag_state name false 0) b ≡ tag_state (name ++ lower_ascii b ∷ []) false 0
unfolding consume_tag lower_ascii is_html_space contains_byte
consume-letter name b h g = ground (arith, h, g)

read_name :
    (name word s : Bytes)
    → AreLetters (map lower_ascii word)
    → visible_text (tag_state name false 0) (word ++ s)
      ≡ visible_text (tag_state (name ++ map lower_ascii word) false 0) s
read_name name [] s h = ap (λ n. visible_text (tag_state n false 0) s) (sym (append-nil name))
read_name name (b ∷ word) s h =
    visible-tag name false 0 b (word ++ s) _ (consume-letter name b h.0.0 h.0.1)
    ∙ read_name (name ++ lower_ascii b ∷ []) word s h.1
    ∙ ap (λ n. visible_text (tag_state n false 0) s)
        (append_assoc name (lower_ascii b ∷ []) (map lower_ascii word))

module _ (c : ℕ) (name : Bytes) where
  consume-blank :
      (b : ℕ)
      → (is_html_space b || (b == 47)) ≡ true
      → consume_tag (tag_state (c ∷ name) false 0) b ≡ tag_state (c ∷ name) true 0
  unfolding consume_tag is_html_space contains_byte is_empty
  consume-blank b h = ground (arith, h)

  consume-bare :
      (b : ℕ)
      → b ≢ 34
      → b ≢ 39
      → b ≢ 62
      → consume_tag (tag_state (c ∷ name) true 0) b ≡ tag_state (c ∷ name) true 0
  unfolding consume_tag is_empty
  consume-bare b h g k = ground (arith, h, g, k)

  consume-quote :
      (quote : ℕ)
      → (quote ≡ 34) ⊎ (quote ≡ 39)
      → (consume_tag (tag_state (c ∷ name) true 0) quote ≡ tag_state (c ∷ name) true quote)
        × (consume_tag (tag_state (c ∷ name) true quote) quote ≡ tag_state (c ∷ name) true 0)
  unfolding consume_tag is_empty
  consume-quote quote (inl h) = rw h (refl, refl)
  consume-quote quote (inr h) = rw h (refl, refl)

  consume-value :
      (quote b : ℕ)
      → (quote ≡ 34) ⊎ (quote ≡ 39)
      → b ≢ quote
      → consume_tag (tag_state (c ∷ name) true quote) b ≡ tag_state (c ∷ name) true quote
  unfolding consume_tag
  consume-value quote b h g = ground (arith, h, g)

  consume-end :
      (done : Bool)
      → consume_tag (tag_state (c ∷ name) done 0) 62 ≡ finish_tag (tag_state (c ∷ name) done 0)
  unfolding consume_tag is_empty
  consume-end done = refl

  read_value :
      (quote : ℕ) (value s : Bytes)
      → (quote ≡ 34) ⊎ (quote ≡ 39)
      → All (λ c. c ≢ quote) value
      → visible_text (tag_state (c ∷ name) true quote) (value ++ quote ∷ s)
        ≡ visible_text (tag_state (c ∷ name) true 0) s
  read_value quote [] s q h = visible-tag (c ∷ name) true quote quote s _ (consume-quote quote q).1
  read_value quote (b ∷ value) s q h =
      visible-tag (c ∷ name) true quote b (value ++ quote ∷ s) _ (consume-value quote b q h.0)
      ∙ read_value quote value s q h.1

  read_attributes :
      (attributes s : Bytes)
      → Attributes attributes
      → visible_text (tag_state (c ∷ name) true 0) (attributes ++ s)
        ≡ visible_text (tag_state (c ∷ name) true 0) s
  read_attributes attributes s none_left = refl
  read_attributes attributes s (bare b rest h g k more) =
      visible-tag (c ∷ name) true 0 b (rest ++ s) _ (consume-bare b h g k)
      ∙ read_attributes rest s more
  read_attributes attributes s (quoted quote value rest q h more) =
      visible-tag (c ∷ name) true 0 quote ((value ++ quote ∷ rest) ++ s) _ (consume-quote quote q).0
      ∙ ap (visible_text (tag_state (c ∷ name) true quote)) (append_assoc value (quote ∷ rest) s)
      ∙ read_value quote value (rest ++ s) q h
      ∙ read_attributes rest s more

  read_word :
      (word s : Bytes)
      → AreLetters (c ∷ name)
      → map lower_ascii word ≡ c ∷ name
      → visible_text new_html_text_filter (60 ∷ (word ++ s))
        ≡ visible_text (tag_state (c ∷ name) false 0) s
  read_word word s letters e =
      visible-opening (word ++ s)
      ∙ read_name [] word s (subst AreLetters (sym e) letters)
      ∙ ap (λ n. visible_text (tag_state n false 0) s) e

  -- A tag leads to the state that its end leads to.
  read_tag :
      (opening s : Bytes)
      → AreLetters (c ∷ name)
      → Opens (c ∷ name) opening
      → (done : Bool) × (visible_text new_html_text_filter (opening ++ s)
          ≡ visible_text (finish_tag (tag_state (c ∷ name) done 0)) s)
  read_tag opening s letters (alone word e) = (
    false,
    ap (λ r. visible_text new_html_text_filter (60 ∷ r)) (append_assoc word (62 ∷ []) s)
        ∙ read_word word (62 ∷ s) letters e
        ∙ visible-tag (c ∷ name) false 0 62 s _ (consume-end false),
  )
  read_tag opening s letters (with_attributes word blank attributes e h given) = (
    true,
    ap (λ r. visible_text new_html_text_filter (60 ∷ r))
          (append_assoc word (blank ∷ (attributes ++ 62 ∷ [])) s)
        ∙ read_word word (blank ∷ ((attributes ++ 62 ∷ []) ++ s)) letters e
        ∙ visible-tag (c ∷ name) false 0 blank ((attributes ++ 62 ∷ []) ++ s) _
            (consume-blank blank h)
        ∙ ap (visible_text (tag_state (c ∷ name) true 0)) (append_assoc attributes (62 ∷ []) s)
        ∙ read_attributes attributes (62 ∷ s) given
        ∙ visible-tag (c ∷ name) true 0 62 s _ (consume-end true),
  )

finish-script :
    (done : Bool)
    → finish_tag (tag_state (codes "script") done 0)
      ≡ skips_from new_html_text_filter (codes "script") 0
unfolding finish_tag ◌=ᵇ◌
finish-script done = refl

finish-style :
    (done : Bool)
    → finish_tag (tag_state (codes "style") done 0)
      ≡ skips_from new_html_text_filter (codes "style") 0
unfolding finish_tag ◌=ᵇ◌
finish-style done = refl

-- After the opening tag the text filter skips the element.
pub read_opening :
    (name opening s : Bytes)
    → IsSkipped name
    → Opens name opening
    → visible_text new_html_text_filter (opening ++ s)
      ≡ visible_text (skips_from new_html_text_filter name 0) s
read_opening name opening s script o =
    let (done, read) = read_tag b's' (codes "cript") opening s (ground arith) o in
    read ∙ ap (λ f. visible_text f s) (finish-script done)
read_opening name opening s style o =
    let (done, read) = read_tag b's' (codes "tyle") opening s (ground arith) o in
    read ∙ ap (λ f. visible_text f s) (finish-style done)
