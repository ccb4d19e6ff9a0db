-- ===== src/Filter/MaskingStream.antt =====
-- What the masking stream puts out, however the page is cut: the page with some bytes overwritten,
-- and none of the phrases, not even across a cut.
use lucid_gate.Prelude.{
  ℕ, zero, suc, ◌-◌, ◌≤◌, ◌<◌, ◌≡◌, ◌≢◌, inl, inr, true, false, List, [], ◌∷◌, ◌++◌, Bytes, length,
  take, drop, All, arith, refl, sym, subst, ap, ◌∙◌, append_assoc, append-nil, length-append,
  length-drop, take-append-drop, Bool-cases,
}
use native.Mathlib.Decide.{dec_lt}
use lucid_gate.Text.{Unicode, is_empty}
use lucid_gate.Filter.Fold.{matches_at-append}
use lucid_gate.Filter.Masking.{
  MaskingFilter, MaskingStream, asterisk, mask_pending, process_chunk, flush, mask_from,
  mask_phrases, new_filter, run, normalize_phrase, add_normalized, no_phrases, add_phrases,
  new_masking_filter,
}
use lucid_gate.Filter.Masked.{
  IsMasked, IsMasked-refl, IsMasked-trans, IsMasked-append, matches_at-IsMasked, IsPhrase, NoneHere,
  IsClean, mask_pending-IsMasked, mask_pending-IsClean,
}
use lucid_gate.Filter.InjectionStream.{concat}

-- The phrases of a filter are phrases, and fit into its window.
pub record IsFilter (f : MaskingFilter) : Type 0 where
  pub phrases : All IsPhrase f.phrases
  pub fit : All (λ p. length p ≤ f.max_len) f.phrases

module _ (n : ℕ) where
  NoneHere-join :
      (ps : List Bytes) (s t u : Bytes)
      → All IsPhrase ps
      → All (λ p. length p ≤ n) ps
      → n ≤ length s
      → IsMasked (s ++ t) u
      → NoneHere ps s
      → NoneHere ps u
  NoneHere-join [] s t u a b h m c = tt
  NoneHere-join (p ∷ ps) s t u a b h m c = (
    matches_at-IsMasked p (s ++ t) u a.0.1 m (matches_at-append p s t (omega arith) ∙ c.0),
    NoneHere-join ps s t u a.1 b.1 h m c.1,
  )

  -- What was put out and what comes after it hold no phrase across their border.
  IsClean-join :
      (ps : List Bytes) (e q rest r : Bytes)
      → All IsPhrase ps
      → All (λ p. length p ≤ n) ps
      → n ≤ suc (length q)
      → IsMasked (q ++ rest) r
      → IsClean ps (e ++ q)
      → IsClean ps r
      → IsClean ps (e ++ r)
  IsClean-join ps [] q rest r a b h m c d = d
  IsClean-join ps (x ∷ e) q rest r a b h m c d = (
    NoneHere-join ps (x ∷ e ++ q) rest (x ∷ e ++ r) a b (omega (arith, length-append e q))
        (inl refl, across) c.0,
    IsClean-join ps e q rest r a b h m c.1 d,
  )
    where
      across : IsMasked ((e ++ q) ++ rest) (e ++ r)
      across =
          subst (λ s. IsMasked s (e ++ r)) (sym (append_assoc e q rest))
            (IsMasked-append e e (q ++ rest) r (IsMasked-refl e) m)

-- The outcomes of a chunk.
module _ (f : MaskingStream) (c : Bytes) where
  abbrev masked : Bytes
  masked = mask_pending f.compiled.phrases (f.pending ++ c)

  chunk-empty : is_empty c ≡ true → process_chunk f c ≡ (f, c)
  unfolding process_chunk
  chunk-empty e = ground arith

  module _ (e : is_empty c ≡ false) (w : 0 < f.compiled.max_len) where
    chunk-held :
        length masked ≤ f.compiled.max_len - 1
        → process_chunk f c ≡ (record f { pending = masked }, [])
    unfolding process_chunk
    chunk-held h = ground arith

    chunk-emitted :
        (k : ℕ)
        → length masked - (f.compiled.max_len - 1) ≡ k
        → 0 < k
        → process_chunk f c ≡ (record f { pending = drop k masked }, take k masked)
    unfolding process_chunk
    chunk-emitted k h q = ground arith

is_empty-eq : (s : Bytes) → is_empty s ≡ true → s ≡ []
unfolding is_empty
is_empty-eq [] h = refl
is_empty-eq (c ∷ s) h = cc

run-cons :
    (f g : MaskingStream) (c out : Bytes) (cs : List Bytes)
    → process_chunk f c ≡ (g, out)
    → run f (c ∷ cs) ≡ out ++ run g cs
unfolding run
run-cons f g c out cs e = ap (λ r. r.1 ++ run r.0 cs) e

-- What the rest of a stream puts out.
abbrev pub Good : List Bytes → Bytes → Bytes → Type 0
Good ps page out = IsMasked page out × IsClean ps out

Good-run : (ps : List Bytes) (page s t : Bytes) → s ≡ t → Good ps page t → Good ps page s
Good-run ps page s t e g = rw e g

-- The page so far, masked, and the chunks that are still to come.
module _ (f : MaskingStream) (c : Bytes) (cs : List Bytes) (v : IsFilter f.compiled) where
  page_masked : IsMasked (f.pending ++ (c ++ concat cs)) (masked f c ++ concat cs)
  page_masked =
      subst (λ s. IsMasked s (masked f c ++ concat cs)) (append_assoc f.pending c (concat cs))
        (IsMasked-append (f.pending ++ c) (masked f c) (concat cs) (concat cs)
          (mask_pending-IsMasked f.compiled.phrases (f.pending ++ c)) (IsMasked-refl (concat cs)))

  held-Good :
      (r : Bytes)
      → Good f.compiled.phrases (masked f c ++ concat cs) r
      → Good f.compiled.phrases (f.pending ++ (c ++ concat cs)) r
  held-Good r g = (IsMasked-trans _ (masked f c ++ concat cs) r page_masked g.0, g.1)

  emitted-Good :
      (k : ℕ) (r : Bytes)
      → f.compiled.max_len ≤ suc (length (drop k (masked f c)))
      → Good f.compiled.phrases (drop k (masked f c) ++ concat cs) r
      → Good f.compiled.phrases (f.pending ++ (c ++ concat cs)) (take k (masked f c) ++ r)
  emitted-Good k r h g =
      let e = take k (masked f c) in
      let q = drop k (masked f c) in
      let parts = take-append-drop k (masked f c) in
      (
        IsMasked-trans _ (masked f c ++ concat cs) (e ++ r) page_masked (
            subst (λ s. IsMasked s (e ++ r))
              (sym (append_assoc e q (concat cs)) ∙ ap (λ s. s ++ concat cs) parts)
              (IsMasked-append e e (q ++ concat cs) r (IsMasked-refl e) g.0)),
        IsClean-join f.compiled.max_len f.compiled.phrases e q (concat cs) r v.phrases v.fit h g.0
            (subst (IsClean f.compiled.phrases) (sym parts)
              (mask_pending-IsClean f.compiled.phrases (f.pending ++ c) v.phrases))
            g.1,
      )

run-Good :
    (cs : List Bytes) (f : MaskingStream)
    → IsFilter f.compiled
    → 0 < f.compiled.max_len
    → Good f.compiled.phrases (f.pending ++ concat cs) (run f cs)
run-Good [] f v w =
    unfold run flush in
    rw (append-nil f.pending) (
      mask_pending-IsMasked f.compiled.phrases f.pending,
      mask_pending-IsClean f.compiled.phrases f.pending v.phrases,
    )
run-Good (c ∷ cs) f v w = elim (Bool-cases (is_empty c)) [
  | inl blank ↦
      Good-run f.compiled.phrases _ _ (c ++ run f cs) (run-cons f f c c cs (chunk-empty f c blank))
        (rw (is_empty-eq c blank) (run-Good cs f v w))
  | inr e ↦ elim (dec_lt (f.compiled.max_len - 1) (length (masked f c))) [
    | no few ↦
        Good-run f.compiled.phrases _ _ (run (record f { pending = masked f c }) cs)
          (run-cons f _ c [] cs (chunk-held f c e w (omega arith)))
          (held-Good f c cs v _ (run-Good cs (record f { pending = masked f c }) v w))
    | yes many ↦
        let k = length (masked f c) - (f.compiled.max_len - 1) in
        Good-run f.compiled.phrases _ _
          (take k (masked f c) ++ run (record f { pending = drop k (masked f c) }) cs)
          (run-cons f _ c _ cs (chunk-emitted f c e w k refl (omega arith)))
          (emitted-Good f c cs v k _ (omega (arith, length-drop k (masked f c)))
            (run-Good cs (record f { pending = drop k (masked f c) }) v w))
  ]
]

-- The phrases of a configuration that hold no asterisk after normalisation.
abbrev pub AreMaskable : Unicode → List Bytes → Type 0
AreMaskable u ps = All (λ p. All (λ c. c ≢ asterisk) (normalize_phrase u p)) ps

pub All-append {ℓ κ} :
    {A : Type ℓ} (P : A → Type κ) (xs ys : List A) → All P xs → All P ys → All P (xs ++ ys)
All-append P [] ys h k = k
All-append P (x ∷ xs) ys h k = (h.0, All-append P xs ys h.1 k)

All_le :
    (m n : ℕ) (ps : List Bytes) → m ≤ n → All (λ p. length p ≤ m) ps → All (λ p. length p ≤ n) ps
All_le m n [] h a = tt
All_le m n (p ∷ ps) h a = (omega arith, All_le m n ps h a.1)

is_empty-false : (s : Bytes) → is_empty s ≡ false → s ≢ []
unfolding is_empty
is_empty-false [] h e = cc
is_empty-false (c ∷ s) h e = cc

add_normalized-IsFilter :
    (f : MaskingFilter) (p : Bytes) → IsPhrase p → IsFilter f → IsFilter (add_normalized f p)
add_normalized-IsFilter f p a v = record {
  phrases = All-append IsPhrase f.phrases (p ∷ []) v.phrases (a, tt);
  fit =
      All-append (λ q. length q ≤ (add_normalized f p).max_len) f.phrases (p ∷ [])
        (All_le f.max_len _ f.phrases (ground arith) v.fit) (ground arith, tt);
}

add_phrases-IsFilter :
    (u : Unicode) (f : MaskingFilter) (ps : List Bytes)
    → AreMaskable u ps
    → IsFilter f
    → IsFilter (add_phrases u f ps)
unfolding add_phrases
add_phrases-IsFilter u f [] a v = v
add_phrases-IsFilter u f (p ∷ ps) a v = elim (Bool-cases (is_empty (normalize_phrase u p))) [
  | inl blank ↦ rw blank (add_phrases-IsFilter u f ps a.1 v)
  | inr e ↦ rw e (
      add_phrases-IsFilter u (add_normalized f (normalize_phrase u p)) ps a.1
        (add_normalized-IsFilter f (normalize_phrase u p) (is_empty-false _ e, a.0) v))
]

no_phrases-IsFilter : IsFilter no_phrases
no_phrases-IsFilter = record { phrases = tt; fit = tt }

length-positive : (s : Bytes) → s ≢ [] → 0 < length s
length-positive [] h = absurd (h refl)
length-positive (c ∷ s) h = omega arith

-- A filter without a window has no phrases.
no_window :
    (ps : List Bytes) (n : ℕ) → n ≡ 0 → All IsPhrase ps → All (λ p. length p ≤ n) ps → ps ≡ []
no_window [] n z a b = refl
no_window (p ∷ ps) n z a b = absurd (omega (arith, length-positive p a.0.0))

IsClean-nil : (s : Bytes) → IsClean [] s
IsClean-nil [] = tt
IsClean-nil (c ∷ s) = (tt, IsClean-nil s)

mask_from-nil : (n : ℕ) (s : Bytes) → mask_from n [] s ≡ s
unfolding mask_from mask_phrases
mask_from-nil zero s = refl
mask_from-nil (suc n) [] = refl
mask_from-nil (suc n) (c ∷ s) = ap (λ r. c ∷ r) (mask_from-nil n s)

pub run_idle :
    (f : MaskingStream) (cs : List Bytes)
    → f.compiled.max_len ≡ 0
    → f.pending ≡ []
    → run f cs ≡ concat cs
run_idle f [] z q = unfold run flush mask_pending mask_from in rw q refl
run_idle f (c ∷ cs) z q =
    run-cons f f c c cs (unfold process_chunk in ground arith)
    ∙ ap (λ r. c ++ r) (run_idle f cs z q)

-- The stream of a filter that was compiled from phrases without asterisks puts out the page with
-- some bytes overwritten by asterisks and all others kept, and none of the compiled phrases stands
-- anywhere in the output, whatever its case, and wherever the page is cut into chunks.
pub run-new_masking_filter :
    (u : Unicode) (ps : List Bytes) (cs : List Bytes)
    → AreMaskable u ps
    → IsMasked (concat cs) (run (new_filter (new_masking_filter u ps)) cs)
      × IsClean (new_masking_filter u ps).phrases (run (new_filter (new_masking_filter u ps)) cs)
unfolding new_filter new_masking_filter
run-new_masking_filter u ps cs a =
    let f = new_masking_filter u ps in
    let v = add_phrases-IsFilter u no_phrases ps a no_phrases-IsFilter in
    elim (dec_lt 0 f.max_len) [
      | yes w ↦ run-Good cs (new_filter f) v w
      | no idle ↦
          Good-run f.phrases (concat cs) _ (concat cs)
            (run_idle (new_filter f) cs (omega arith) refl)
            (
              IsMasked-refl (concat cs),
              rw (no_window f.phrases f.max_len (omega arith) v.phrases v.fit)
                  (IsClean-nil (concat cs)),
            )
    ]
