-- ===== src/Semantic/Edges.antt =====
-- The words one byte longer than a word of the tree: each is there once.
use lucid_gate.Prelude.{
  ℕ, zero, suc, ◌+◌, ◌≡◌, ◌≢◌, ◌<◌, ◌≤◌, inl, inr, true, false, List, [], ◌∷◌, ◌++◌, Bytes, ◌==◌,
  length, arith, refl, sym, subst, ap, ◌∙◌, Bool-cases, ==_iff,
}
use mathlib.Core.List.{Memᴰ}
use mathlib.Core.List.Memᴰ
use lucid_gate.Semantic.Automaton.{Automaton, bytes_from}
use lucid_gate.Semantic.Trie.{length-snoc, next_of}
use lucid_gate.Semantic.Children.{edge_words}

abbrev pub AreDistinct : List Bytes → Type 0
AreDistinct [] = Unit
AreDistinct (x ∷ xs) = (¬ Memᴰ x xs) × AreDistinct xs

pub AreDistinct-append :
    (xs ys : List Bytes)
    → AreDistinct xs
    → AreDistinct ys
    → ((y : Bytes) → Memᴰ y xs → Memᴰ y ys → ⊥)
    → AreDistinct (xs ++ ys)
AreDistinct-append [] ys a b apart = b
AreDistinct-append (x ∷ xs) ys a b apart = (
  λ m. elim (Memᴰ.append_cases xs m) [
    | inl here ↦ a.0 here
    | inr there ↦ apart x (Memᴰ.head refl) there
  ],
  AreDistinct-append xs ys a.1 b (λ y m k. apart y (Memᴰ.tail m) k),
)

pub snoc_injective : (s r : Bytes) (b c : ℕ) → s ++ b ∷ [] ≡ r ++ c ∷ [] → (s ≡ r) × (b ≡ c)
snoc_injective [] [] b c h = (refl, cc)
snoc_injective [] (d ∷ r) b c h = absurd (omega (arith, ap (λ l. length l) h, length-snoc r c))
snoc_injective (d ∷ s) [] b c h = absurd (omega (arith, ap (λ l. length l) h, length-snoc s b))
snoc_injective (d ∷ s) (e ∷ r) b c h =
    let (words, bytes) = snoc_injective s r b c (cc) in
    let first : d ≡ e = cc in (ap (λ d. d ∷ s) first ∙ ap (λ s. e ∷ s) words, bytes)

module _ (a : Automaton) (x : Bytes) (n : ℕ) where
  abbrev words_from : ℕ → ℕ → List Bytes
  words_from s m = edge_words a x n (bytes_from s m)

  words_skip : (s m : ℕ) → (next_of a n s == 0) ≡ true → words_from s (suc m) ≡ words_from (suc s) m
  unfolding bytes_from
  words_skip s m h = rw h refl

  words_add :
      (s m : ℕ)
      → (next_of a n s == 0) ≡ false
      → words_from s (suc m) ≡ (x ++ s ∷ []) ∷ words_from (suc s) m
  unfolding bytes_from
  words_add s m h = rw h refl

  pub edge_words-Mem :
      (m s : ℕ) (y : Bytes)
      → Memᴰ y (words_from s m)
      → (b : ℕ) × (y ≡ x ++ b ∷ []) × (next_of a n b ≢ 0) × (s ≤ b)
  edge_words-Mem zero s y h =
      let nothing : Memᴰ y [] = unfold bytes_from in h in absurd (Memᴰ.not-nil nothing)
  edge_words-Mem (suc m) s y h = elim (Bool-cases (next_of a n s == 0)) [
    | inl e ↦
        let (b, eq, edge, le) = edge_words-Mem m (suc s) y (subst (Memᴰ y) (words_skip s m e) h) in
        (b, eq, edge, omega arith)
    | inr e ↦ elim (Memᴰ.cases_cons (subst (Memᴰ y) (words_add s m e) h)) [
      | inl here ↦ (s, here, (λ z. ground (arith, e, z)), omega arith)
      | inr there ↦
          let (b, eq, edge, le) = edge_words-Mem m (suc s) y there in (b, eq, edge, omega arith)
    ]
  ]

  pub Mem-edge_words :
      (m s b : ℕ) → next_of a n b ≢ 0 → s ≤ b → b < s + m → Memᴰ (x ++ b ∷ []) (words_from s m)
  Mem-edge_words zero s b h le lt = absurd (omega arith)
  Mem-edge_words (suc m) s b h le lt = elim (Bool-cases (next_of a n s == 0)) [
    | inl e ↦
        let other : s ≢ b = λ same. h (ap (λ b. next_of a n b) (sym same) ∙ (==_iff _ _).0 e) in
        subst (Memᴰ (x ++ b ∷ [])) (sym (words_skip s m e))
          (Mem-edge_words m (suc s) b h (omega (arith, other)) (omega arith))
    | inr e ↦ subst (Memᴰ (x ++ b ∷ [])) (sym (words_add s m e)) (elim (Bool-cases (s == b)) [
      | inl same ↦ Memᴰ.head (ap (λ b. x ++ b ∷ []) (sym ((==_iff s b).0 same)))
      | inr other ↦
          Memᴰ.tail (Mem-edge_words m (suc s) b h (ground (arith, other, le)) (omega arith))
    ])
  ]

  pub edge_words-AreDistinct : (m s : ℕ) → AreDistinct (words_from s m)
  edge_words-AreDistinct zero s = unfold bytes_from in tt
  edge_words-AreDistinct (suc m) s = elim (Bool-cases (next_of a n s == 0)) [
    | inl e ↦ subst AreDistinct (sym (words_skip s m e)) (edge_words-AreDistinct m (suc s))
    | inr e ↦ subst AreDistinct (sym (words_add s m e)) (
      λ h.
          let (b, eq, edge, le) = edge_words-Mem m (suc s) (x ++ s ∷ []) h in
          absurd (omega (arith, (snoc_injective x x s b eq).1)),
      edge_words-AreDistinct m (suc s),
    )
  ]
