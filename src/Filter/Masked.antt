-- ===== src/Filter/Masked.antt =====
-- What `maskPending` does to a text: some bytes are overwritten, and no phrase is left.
use lucid_gate.Prelude.{
  ℕ, zero, suc, ◌≤◌, ◌≡◌, ◌≢◌, ◌⊎◌, inl, inr, Bool, true, false, ◌&&◌, List, [], ◌∷◌, ◌++◌, Bytes,
  ◌==◌, if◌then◌else◌, length, drop, replicate, All, arith, refl, sym, subst, ap, ◌∙◌, Bool-cases,
}
use lucid_gate.Filter.Fold.{
  matches_at, matches_at-le, fold_loop, ascii_equal_fold_bytes, lower_ascii,
}
use lucid_gate.Filter.Masking.{asterisk, mask_phrases, mask_from, mask_pending}

-- The second text is the first with some bytes overwritten by asterisks.
abbrev pub IsMasked : Bytes → Bytes → Type 0
IsMasked [] [] = Unit {0}
IsMasked [] (d ∷ t) = ⊥
IsMasked (c ∷ s) [] = ⊥
IsMasked (c ∷ s) (d ∷ t) = ((d ≡ c) ⊎ (d ≡ asterisk)) × IsMasked s t

pub IsMasked-refl : (s : Bytes) → IsMasked s s
IsMasked-refl [] = tt
IsMasked-refl (c ∷ s) = (inl refl, IsMasked-refl s)

pub IsMasked-trans : (s t u : Bytes) → IsMasked s t → IsMasked t u → IsMasked s u
IsMasked-trans [] [] [] h k = tt
IsMasked-trans [] [] (e ∷ u) h k = absurd k
IsMasked-trans [] (d ∷ t) u h k = absurd h
IsMasked-trans (c ∷ s) [] u h k = absurd h
IsMasked-trans (c ∷ s) (d ∷ t) [] h k = absurd k
IsMasked-trans (c ∷ s) (d ∷ t) (e ∷ u) h k = (ground arith, IsMasked-trans s t u h.1 k.1)

pub IsMasked-append : (s t u v : Bytes) → IsMasked s t → IsMasked u v → IsMasked (s ++ u) (t ++ v)
IsMasked-append [] [] u v h k = k
IsMasked-append [] (d ∷ t) u v h k = absurd h
IsMasked-append (c ∷ s) [] u v h k = absurd h
IsMasked-append (c ∷ s) (d ∷ t) u v h k = (h.0, IsMasked-append s t u v h.1 k)

pub length-IsMasked : (s t : Bytes) → IsMasked s t → length t ≡ length s
length-IsMasked [] [] h = refl
length-IsMasked [] (d ∷ t) h = absurd h
length-IsMasked (c ∷ s) [] h = absurd h
length-IsMasked (c ∷ s) (d ∷ t) h = ap suc (length-IsMasked s t h.1)

IsMasked-asterisks :
    (n : ℕ) (s : Bytes) → n ≤ length s → IsMasked s (replicate n asterisk ++ drop n s)
IsMasked-asterisks zero s h = IsMasked-refl s
IsMasked-asterisks (suc n) [] h = absurd (omega arith)
IsMasked-asterisks (suc n) (c ∷ s) h = (inr refl, IsMasked-asterisks n s (omega arith))

mask_phrases-IsMasked : (ps : List Bytes) (s : Bytes) → IsMasked s (mask_phrases ps s)
unfolding mask_phrases
mask_phrases-IsMasked [] s = IsMasked-refl s
mask_phrases-IsMasked (p ∷ ps) s = elim (Bool-cases (matches_at p s)) [
  | inl hit ↦ rw hit (
      IsMasked-trans s (replicate (length p) asterisk ++ drop (length p) s) _
        (IsMasked-asterisks (length p) s (matches_at-le p s hit)) (mask_phrases-IsMasked ps _))
  | inr miss ↦ rw miss (mask_phrases-IsMasked ps s)
]

-- The phrase, read along the text.
fold_prefix : Bytes → Bytes → Bool
fold_prefix [] s = true
fold_prefix (n ∷ p) [] = false
fold_prefix (n ∷ p) (c ∷ s) = lower_ascii c == n && fold_prefix p s

matches_at-fold_prefix : (p s : Bytes) → matches_at p s ≡ fold_prefix p s
unfolding matches_at ascii_equal_fold_bytes fold_loop fold_prefix
matches_at-fold_prefix [] s = ground arith
matches_at-fold_prefix (n ∷ p) [] = ground arith
matches_at-fold_prefix (n ∷ p) (c ∷ s) = ground (arith, matches_at-fold_prefix p s)

fold_prefix-IsMasked :
    (p s t : Bytes)
    → All (λ c. c ≢ asterisk) p
    → IsMasked s t
    → fold_prefix p t ≡ true
    → fold_prefix p s ≡ true
unfolding fold_prefix lower_ascii
fold_prefix-IsMasked [] s t a m h = refl
fold_prefix-IsMasked (n ∷ p) s [] a m h = absurd (cc)
fold_prefix-IsMasked (n ∷ p) [] (d ∷ t) a m h = absurd m
fold_prefix-IsMasked (n ∷ p) (c ∷ s) (d ∷ t) a m h =
    ground (arith, fold_prefix-IsMasked p s t a.1 m.1, a.0)

-- Overwriting bytes brings no phrase about.
pub matches_at-IsMasked :
    (p s t : Bytes)
    → All (λ c. c ≢ asterisk) p
    → IsMasked s t
    → matches_at p s ≡ false
    → matches_at p t ≡ false
matches_at-IsMasked p s t a m h =
    ground (
      arith,
      matches_at-fold_prefix p s,
      matches_at-fold_prefix p t,
      fold_prefix-IsMasked p s t a m,
    )

-- The bytes of a phrase: there are some, and none of them is an asterisk.
abbrev pub IsPhrase : Bytes → Type 0
IsPhrase p = (p ≢ []) × All (λ c. c ≢ asterisk) p

matches_at-asterisks :
    (p s : Bytes) → IsPhrase p → matches_at p (replicate (length p) asterisk ++ s) ≡ false
unfolding fold_prefix lower_ascii
matches_at-asterisks [] s (n, a) = absurd (n refl)
matches_at-asterisks (c ∷ p) s (n, a) =
    matches_at-fold_prefix (c ∷ p) (replicate (length (c ∷ p)) asterisk ++ s) ∙ ground (arith, a.0)

-- No phrase stands at the head of the text.
abbrev pub NoneHere : List Bytes → Bytes → Type 0
NoneHere ps s = All (λ p. matches_at p s ≡ false) ps

-- No phrase stands anywhere in the text.
abbrev pub IsClean : List Bytes → Bytes → Type 0
IsClean ps [] = Unit {0}
IsClean ps (c ∷ s) = NoneHere ps (c ∷ s) × IsClean ps s

NoneHere-IsMasked :
    (ps : List Bytes) (s t : Bytes) → All IsPhrase ps → IsMasked s t → NoneHere ps s → NoneHere ps t
NoneHere-IsMasked [] s t a m h = tt
NoneHere-IsMasked (p ∷ ps) s t a m h =
    (matches_at-IsMasked p s t a.0.1 m h.0, NoneHere-IsMasked ps s t a.1 m h.1)

-- One phrase at the head of the text.
abbrev mask_one : Bytes → Bytes → Bytes
mask_one p s = if matches_at p s then replicate (length p) asterisk ++ drop (length p) s else s

mask_one-miss : (p s : Bytes) → IsPhrase p → matches_at p (mask_one p s) ≡ false
mask_one-miss p s a = elim (Bool-cases (matches_at p s)) [
  | inl hit ↦ rw hit (matches_at-asterisks p (drop (length p) s) a)
  | inr miss ↦ ground (arith, miss)
]

mask_phrases-NoneHere :
    (ps : List Bytes) (s : Bytes) → All IsPhrase ps → NoneHere ps (mask_phrases ps s)
unfolding mask_phrases
mask_phrases-NoneHere [] s a = tt
mask_phrases-NoneHere (p ∷ ps) s a = (
  matches_at-IsMasked p (mask_one p s) _ a.0.1 (mask_phrases-IsMasked ps (mask_one p s))
      (mask_one-miss p s a.0),
  mask_phrases-NoneHere ps (mask_one p s) a.1,
)

abbrev from_head : ℕ → List Bytes → Bytes → Bytes
from_head n ps [] = []
from_head n ps (c ∷ t) = c ∷ mask_from n ps t

mask_from-suc :
    (n : ℕ) (ps : List Bytes) (s : Bytes)
    → mask_from (suc n) ps s ≡ from_head n ps (mask_phrases ps s)
unfolding mask_from
mask_from-suc n ps s = ground arith

from_head-IsMasked :
    (n : ℕ) (ps : List Bytes) (s : Bytes)
    → ((t : Bytes) → IsMasked t (mask_from n ps t))
    → IsMasked s (from_head n ps s)
from_head-IsMasked n ps [] rest = tt
from_head-IsMasked n ps (c ∷ t) rest = (inl refl, rest t)

mask_from-IsMasked : (n : ℕ) (ps : List Bytes) (s : Bytes) → IsMasked s (mask_from n ps s)
unfolding mask_from
mask_from-IsMasked zero ps s = IsMasked-refl s
mask_from-IsMasked (suc n) ps s = subst (IsMasked s) (sym (mask_from-suc n ps s)) (
    IsMasked-trans s (mask_phrases ps s) _ (mask_phrases-IsMasked ps s)
      (from_head-IsMasked n ps (mask_phrases ps s) (mask_from-IsMasked n ps)))

from_head-IsClean :
    (n : ℕ) (ps : List Bytes) (s : Bytes)
    → All IsPhrase ps
    → NoneHere ps s
    → ((t : Bytes) → length t ≤ n → IsClean ps (mask_from n ps t))
    → length s ≤ suc n
    → IsClean ps (from_head n ps s)
from_head-IsClean n ps [] a h rest q = tt
from_head-IsClean n ps (c ∷ t) a h rest q = (
  NoneHere-IsMasked ps (c ∷ t) (c ∷ mask_from n ps t) a (inl refl, mask_from-IsMasked n ps t) h,
  rest t (omega arith),
)

mask_from-IsClean :
    (n : ℕ) (ps : List Bytes) (s : Bytes)
    → All IsPhrase ps
    → length s ≤ n
    → IsClean ps (mask_from n ps s)
unfolding mask_from
mask_from-IsClean zero ps [] a h = tt
mask_from-IsClean zero ps (c ∷ s) a h = absurd (omega arith)
mask_from-IsClean (suc n) ps s a h = subst (IsClean ps) (sym (mask_from-suc n ps s)) (
    from_head-IsClean n ps (mask_phrases ps s) a (mask_phrases-NoneHere ps s a)
      (λ t q. mask_from-IsClean n ps t a q)
      (omega (arith, length-IsMasked s (mask_phrases ps s) (mask_phrases-IsMasked ps s))))

-- `maskPending` keeps the length, overwrites bytes with asterisks only, and leaves no phrase.
-- Masking a text overwrites some of its bytes with asterisks and keeps all others and the length.
pub mask_pending-IsMasked : (ps : List Bytes) (s : Bytes) → IsMasked s (mask_pending ps s)
unfolding mask_pending
mask_pending-IsMasked ps s = mask_from-IsMasked (length s) ps s

-- After masking with phrases that are not empty and hold no asterisk, none of them stands anywhere in
-- the text, whatever its case.
pub mask_pending-IsClean :
    (ps : List Bytes) (s : Bytes) → All IsPhrase ps → IsClean ps (mask_pending ps s)
unfolding mask_pending
mask_pending-IsClean ps s a = mask_from-IsClean (length s) ps s a (omega arith)
