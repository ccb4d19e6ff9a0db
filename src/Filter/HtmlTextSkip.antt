-- ===== src/Filter/HtmlTextSkip.antt =====
-- The text filter in a script or a style: nothing of it is shown, up to its closing tag.
use lucid_gate.Prelude.{
  ℕ, zero, suc, ◌≡◌, ◌<◌, inl, inr, true, false, Option, none, some, List, [], ◌∷◌, ◌++◌, Bytes,
  length, take, get_elem?, map, arith, refl, sym, subst, ap, ◌∙◌, append-nil, ◌==◌, ◌≢◌, All,
  length-append, Bool-cases, ==_iff, take_all,
}
use lucid_gate.Text.{has_prefix, is_empty}
use lucid_gate.Filter.Fold.{lower_ascii}
use lucid_gate.Filter.MaskingStream.{All-append}
use lucid_gate.Filter.HtmlText.{HtmlTextState, closing, consume_byte, consume_skipped_content}

-- The bytes of a page that the filter under it is shown, and the state after them.
abbrev pub shown_first : Option ℕ → Bytes → Bytes
shown_first none s = s
shown_first (some b) s = b ∷ s

unfoldable pub visible_text : HtmlTextState → Bytes → Bytes
visible_text f [] = []
visible_text f (b ∷ s) = shown_first (consume_byte f b).1 (visible_text (consume_byte f b).0 s)

-- A text that holds a word nowhere.
abbrev pub Lacks : Bytes → Bytes → Type 0
Lacks word [] = Unit
Lacks word (c ∷ s) = (has_prefix (c ∷ s) word ≡ false) × Lacks word s

-- A state in an element whose closing tag has come up to some byte, but not to its end.
abbrev pub skips_from : HtmlTextState → Bytes → ℕ → HtmlTextState
skips_from f name k = record f { skip = name; close_match = k }

Lacks-suffix : (word s t : Bytes) → Lacks word (s ++ t) → Lacks word t
Lacks-suffix word [] t h = h
Lacks-suffix word (c ∷ s) t h = Lacks-suffix word s t h.1

has_prefix_self : (s t : Bytes) → has_prefix (s ++ t) s ≡ true
unfolding has_prefix
has_prefix_self [] t = refl
has_prefix_self (c ∷ s) t = rw (has_prefix_self s t) (ground arith)

take-next :
    (xs ys : Bytes) (k w : ℕ)
    → get_elem? xs k ≡ some w
    → take k xs ++ w ∷ ys ≡ take (suc k) xs ++ ys
take-next [] ys k w h = absurd (cc)
take-next (x ∷ xs) ys zero w h = ap (λ r. r ∷ ys) (cc)
take-next (x ∷ xs) ys (suc k) w h = ap (λ r. x ∷ r) (take-next xs ys k w h)

get_elem?-next :
    (xs ys : Bytes) (k w : ℕ) → k < length xs → take k xs ++ w ∷ ys ≡ xs → get_elem? xs k ≡ some w
get_elem?-next [] ys k w h e = absurd (omega arith)
get_elem?-next (x ∷ xs) ys zero w h e = cc
get_elem?-next (x ∷ xs) ys (suc k) w h e = get_elem?-next xs ys k w (omega arith) (cc)

get_elem?-inside : (xs : Bytes) (k : ℕ) → k < length xs → (w : ℕ) × (get_elem? xs k ≡ some w)
get_elem?-inside [] k h = absurd (omega arith)
get_elem?-inside (x ∷ xs) zero h = (x, refl)
get_elem?-inside (x ∷ xs) (suc k) h = get_elem?-inside xs k (omega arith)

take-length : (xs : Bytes) (k : ℕ) → k < length xs → length (take k xs) ≡ k
take-length [] k h = absurd (omega arith)
take-length (x ∷ xs) zero h = refl
take-length (x ∷ xs) (suc k) h = ap suc (take-length xs k (omega arith))

map-nothing : (xs s : Bytes) → xs ++ map lower_ascii s ≡ xs → s ≡ []
map-nothing xs [] h = refl
map-nothing xs (c ∷ s) h =
    absurd (omega (arith, ap (λ x. length x) h, length-append xs (map lower_ascii (c ∷ s))))

some-same {ℓ} : {A : Type ℓ} (x y : A) → some x ≡ some y → x ≡ y
some-same x y h = cc

get_elem?-All {ℓ κ} :
    {A : Type ℓ} (P : A → Type κ) (xs : List A) (i : ℕ) (w : A)
    → All P xs
    → get_elem? xs i ≡ some w
    → P w
get_elem?-All P [] i w a h = absurd (cc)
get_elem?-All P (x ∷ xs) zero w a h = subst P (some-same x w h) a.0
get_elem?-All P (x ∷ xs) (suc i) w a h = get_elem?-All P xs i w a.1 h

module _ (f : HtmlTextState) (n : ℕ) (name : Bytes) where
  abbrev word : Bytes
  word = closing (n ∷ name)

  abbrev from : ℕ → HtmlTextState
  from k = skips_from f (n ∷ name) k

  visible-skipped :
      (k b : ℕ) (g : HtmlTextState) (s : Bytes)
      → consume_skipped_content (from k) b ≡ g
      → visible_text (from k) (b ∷ s) ≡ visible_text g s
  unfolding visible_text consume_byte is_empty
  visible-skipped k b g s h = ap (λ g. visible_text g s) h

  consume-next :
      (k b w : ℕ)
      → get_elem? word k ≡ some w
      → (lower_ascii b == w) ≡ true
      → (suc k == length word) ≡ false
      → consume_skipped_content (from k) b ≡ from (suc k)
  unfolding consume_skipped_content
  consume-next k b w h e l = rw (h, e, l) refl

  consume-last :
      (k b w : ℕ)
      → get_elem? word k ≡ some w
      → (lower_ascii b == w) ≡ true
      → (suc k == length word) ≡ true
      → consume_skipped_content (from k) b ≡ record f { skip = []; close_match = 0 }
  unfolding consume_skipped_content
  consume-last k b w h e l = rw (h, e, l) refl

  consume-restart :
      (k b w : ℕ)
      → get_elem? word k ≡ some w
      → (lower_ascii b == w) ≡ false
      → (lower_ascii b == 60) ≡ true
      → consume_skipped_content (from k) b ≡ from 1
  unfolding consume_skipped_content
  consume-restart k b w h e l = rw (h, e, l) refl

  consume-other :
      (k b w : ℕ)
      → get_elem? word k ≡ some w
      → (lower_ascii b == w) ≡ false
      → (lower_ascii b == 60) ≡ false
      → consume_skipped_content (from k) b ≡ from 0
  unfolding consume_skipped_content
  consume-other k b w h e l = rw (h, e, l) refl

  -- From a position in the closing tag, a text that does not complete it leads to a position again.
  Skipped : Bytes → ℕ → Type 0
  Skipped s k =
      (j : ℕ) × (j < length word)
      × ((t : Bytes) → visible_text (from k) (s ++ t) ≡ visible_text (from j) t)

  Skipped-cons :
      (b : ℕ) (s : Bytes) (k j : ℕ)
      → consume_skipped_content (from k) b ≡ from j
      → Skipped s j
      → Skipped (b ∷ s) k
  unfolding Skipped
  Skipped-cons b s k j h (i, lt, same) =
      (i, lt, λ t. visible-skipped k b (from j) (s ++ t) h ∙ same t)

  first_byte-word : get_elem? word 0 ≡ some 60
  first_byte-word = refl

  -- The word is not in what it would be the front of.
  not_complete :
      (s : Bytes) (k w : ℕ)
      → get_elem? word k ≡ some w
      → suc k ≡ length word
      → Lacks word (take k word ++ w ∷ s)
      → ⊥
  not_complete s k w h e lacks =
      let whole : take k word ++ w ∷ s ≡ word ++ s =
        take-next word s k w h ∙ ap (λ x. x ++ s) (take_all (suc k) word (omega arith)) in
      let found = has_prefix_self word s in
      let missed = (subst (Lacks word) whole lacks).0 in absurd (cc)

  body-Skipped :
      (s : Bytes) (k : ℕ)
      → k < length word
      → Lacks word (take k word ++ map lower_ascii s)
      → Skipped s k
  body-Skipped [] k lt lacks = unfold Skipped in (k, lt, λ t. refl)
  body-Skipped (b ∷ s) k lt lacks =
      let (w, h) = get_elem?-inside word k lt in
      let after = Lacks-suffix word (take k word) (lower_ascii b ∷ map lower_ascii s) lacks in
      elim (Bool-cases (lower_ascii b == w)) [
        | inl same ↦ elim (Bool-cases (suc k == length word)) [
          | inl full ↦ absurd (
              not_complete (map lower_ascii s) k w h (ground arith) (
                subst (λ x. Lacks word (take k word ++ x ∷ map lower_ascii s))
                  ((==_iff (lower_ascii b) w).0 same) lacks))
          | inr more ↦ Skipped-cons b s k (suc k) (consume-next k b w h same more) (
              body-Skipped s (suc k) (ground arith) (
                subst (Lacks word) (take-next word (map lower_ascii s) k w h) (
                  subst (λ x. Lacks word (take k word ++ x ∷ map lower_ascii s))
                    ((==_iff (lower_ascii b) w).0 same) lacks)))
        ]
        | inr other ↦ elim (Bool-cases (lower_ascii b == 60)) [
          | inl opening ↦ Skipped-cons b s k 1 (consume-restart k b w h other opening) (
              body-Skipped s 1 (omega arith) (
                subst (λ x. Lacks word (x ∷ map lower_ascii s))
                  ((==_iff (lower_ascii b) 60).0 opening) after))
          | inr none_of ↦
              Skipped-cons b s k 0 (consume-other k b w h other none_of)
                (body-Skipped s 0 (omega arith) after.1)
        ]
      ]

  -- The rest of the closing tag, from a position in it.
  finish_word :
      (s : Bytes) (k : ℕ)
      → k < length word
      → take k word ++ map lower_ascii s ≡ word
      → (t : Bytes)
      → visible_text (from k) (s ++ t) ≡ visible_text (record f { skip = []; close_match = 0 }) t
  finish_word [] k lt e t = absurd (
      omega (arith, take-length word k lt, ap (λ x. length x) (sym (append-nil (take k word)) ∙ e)))
  finish_word (b ∷ s) k lt e t =
      let h = get_elem?-next word (map lower_ascii s) k (lower_ascii b) lt e in
      let next = sym (take-next word (map lower_ascii s) k (lower_ascii b) h) ∙ e in
      let same = (==_iff (lower_ascii b) (lower_ascii b)).1 refl in
      elim (Bool-cases (suc k == length word)) [
        | inl full ↦
            visible-skipped k b _ (s ++ t) (consume-last k b (lower_ascii b) h same full)
            ∙ ap (λ s. visible_text (record f { skip = []; close_match = 0 }) (s ++ t))
                (map-nothing word s (
                  ap (λ x. x ++ map lower_ascii s) (sym (take_all (suc k) word (ground arith)))
                  ∙ next))
        | inr more ↦
            visible-skipped k b _ (s ++ t) (consume-next k b (lower_ascii b) h same more)
            ∙ finish_word s (suc k) (ground arith) next t
      ]

  module _ (plain : All (λ c. c ≢ 60) (n ∷ name)) where
    plain_word : All (λ c. c ≢ 60) (47 ∷ n ∷ name ++ 62 ∷ [])
    plain_word =
        (omega arith, All-append (λ c. c ≢ 60) (n ∷ name) (62 ∷ []) plain (omega arith, tt))

    -- The first byte of the closing tag counts from every position in it.
    first_byte :
        (k b : ℕ)
        → k < length word
        → lower_ascii b ≡ 60
        → consume_skipped_content (from k) b ≡ from 1
    first_byte zero b lt e = consume-next 0 b 60 refl (ground (arith, e)) (ground arith)
    first_byte (suc k) b lt e =
        let (w, h) = get_elem?-inside word (suc k) lt in
        let differs = get_elem?-All (λ c. c ≢ 60) (47 ∷ n ∷ name ++ 62 ∷ []) k w plain_word h in
        consume-restart (suc k) b w h (ground (arith, e, differs)) (ground (arith, e))

    whole_word :
        (close : Bytes) (k : ℕ)
        → k < length word
        → map lower_ascii close ≡ word
        → (t : Bytes)
        → visible_text (from k) (close ++ t)
          ≡ visible_text (record f { skip = []; close_match = 0 }) t
    whole_word [] k lt e t = absurd (cc)
    whole_word (b ∷ close) k lt e t =
        visible-skipped k b (from 1) (close ++ t) (first_byte k b lt (cc))
        ∙ finish_word close 1 (omega arith) (ap (λ x. 60 ∷ x) (cc)) t

    pub visible-element :
        (body close rest : Bytes)
        → Lacks word (map lower_ascii body)
        → map lower_ascii close ≡ word
        → visible_text (from 0) (body ++ (close ++ rest))
          ≡ visible_text (record f { skip = []; close_match = 0 }) rest
    unfolding Skipped
    visible-element body close rest lacks e =
        let (j, lt, same) = body-Skipped body 0 (omega arith) lacks in
        same (close ++ rest) ∙ whole_word close j lt e rest
