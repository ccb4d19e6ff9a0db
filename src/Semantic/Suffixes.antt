-- ===== src/Semantic/Suffixes.antt =====
-- The longest suffix of a text that is a word of the tree, and the marks of all its suffixes.
use lucid_gate.Prelude.{
  ℕ, ◌≡◌, ◌≤◌, inl, inr, Option, none, some, [], ◌∷◌, ◌++◌, Bytes, length, arith, refl, sym, ap,
  ◌∙◌, Option-cases,
}
use lucid_gate.Semantic.Automaton.{Automaton}
use lucid_gate.Semantic.Trie.{walk, walk-nil, walk-snoc, then_edge}
use lucid_gate.Semantic.Mark.{Mark, no_mark, join, mark_of}

module _ (a : Automaton) where
  abbrev longest_of : Option ℕ → Bytes → Bytes → Bytes
  longest_of none s rest = rest
  longest_of (some n) s rest = s

  unfoldable pub longest : Bytes → Bytes
  longest [] = []
  longest (c ∷ s) = longest_of (walk a 0 (c ∷ s)) (c ∷ s) (longest s)

  -- The node of a word, or the root.
  abbrev pub node_or_root : Option ℕ → ℕ
  node_or_root none = 0
  node_or_root (some n) = n

  unfoldable pub target : Bytes → ℕ
  target s = node_or_root (walk a 0 (longest s))

  abbrev and_mark : Option ℕ → Mark → Mark
  and_mark none m = m
  and_mark (some n) m = join (mark_of a n) m

  -- What the suffixes of a text that are words of the tree say together.
  unfoldable pub finds : Bytes → Mark
  finds [] = no_mark
  finds (c ∷ s) = and_mark (walk a 0 (c ∷ s)) (finds s)

  longest_missing : (c : ℕ) (s : Bytes) → walk a 0 (c ∷ s) ≡ none → longest (c ∷ s) ≡ longest s
  unfolding longest
  longest_missing c s h = ap (λ o. longest_of o (c ∷ s) (longest s)) h

  pub longest_word : (s : Bytes) (n : ℕ) → walk a 0 s ≡ some n → longest s ≡ s
  unfolding longest
  longest_word [] n h = refl
  longest_word (c ∷ s) n h = ap (λ o. longest_of o (c ∷ s) (longest s)) h

  pub walk-longest : (s : Bytes) → (n : ℕ) × (walk a 0 (longest s) ≡ some n)
  walk-longest [] = (0, unfold longest in walk-nil a 0)
  walk-longest (c ∷ s) = elim (Option-cases (walk a 0 (c ∷ s))) [
    | inl e ↦ let (n, h) = walk-longest s in (n, ap (λ x. walk a 0 x) (longest_missing c s e) ∙ h)
    | inr (n, e) ↦ (n, ap (λ x. walk a 0 x) (longest_word (c ∷ s) n e) ∙ e)
  ]

  pub walk-target : (s : Bytes) → walk a 0 (longest s) ≡ some (target s)
  unfolding target
  walk-target s = let (n, h) = walk-longest s in h ∙ ap (λ o. some (node_or_root o)) (sym h)

  pub target_word : (s : Bytes) (n : ℕ) → walk a 0 s ≡ some n → target s ≡ n
  unfolding target
  target_word s n h = ap (λ x. node_or_root (walk a 0 x)) (longest_word s n h) ∙ ap node_or_root h

  walk_missing_more : (s : Bytes) (b : ℕ) → walk a 0 s ≡ none → walk a 0 (s ++ b ∷ []) ≡ none
  walk_missing_more s b h = walk-snoc a 0 s b ∙ ap (λ o. then_edge a o b) h

  -- The next byte looks at the longest suffix only.
  pub longest-snoc : (s : Bytes) (b : ℕ) → longest (s ++ b ∷ []) ≡ longest (longest s ++ b ∷ [])
  longest-snoc [] b = unfold longest in refl
  longest-snoc (c ∷ s) b = elim (Option-cases (walk a 0 (c ∷ s))) [
    | inl e ↦
        longest_missing c (s ++ b ∷ []) (walk_missing_more (c ∷ s) b e)
        ∙ longest-snoc s b
        ∙ ap (λ x. longest (x ++ b ∷ [])) (sym (longest_missing c s e))
    | inr (n, e) ↦ ap (λ x. longest (x ++ b ∷ [])) (sym (longest_word (c ∷ s) n e))
  ]

  pub target-snoc : (s : Bytes) (b : ℕ) → target (s ++ b ∷ []) ≡ target (longest s ++ b ∷ [])
  unfolding target
  target-snoc s b = ap (λ x. node_or_root (walk a 0 x)) (longest-snoc s b)

  -- A word that is not in the tree leads where its tail leads.
  pub target_missing : (c : ℕ) (s : Bytes) → walk a 0 (c ∷ s) ≡ none → target (c ∷ s) ≡ target s
  unfolding target
  target_missing c s h = ap (λ x. node_or_root (walk a 0 x)) (longest_missing c s h)

  pub finds_missing : (c : ℕ) (s : Bytes) → walk a 0 (c ∷ s) ≡ none → finds (c ∷ s) ≡ finds s
  unfolding finds
  finds_missing c s h = ap (λ o. and_mark o (finds s)) h

  pub finds_word :
      (c : ℕ) (s : Bytes) (n : ℕ)
      → walk a 0 (c ∷ s) ≡ some n
      → finds (c ∷ s) ≡ join (mark_of a n) (finds s)
  unfolding finds
  finds_word c s n h = ap (λ o. and_mark o (finds s)) h

  pub finds-longest : (s : Bytes) → finds (longest s) ≡ finds s
  finds-longest [] = unfold longest in refl
  finds-longest (c ∷ s) = elim (Option-cases (walk a 0 (c ∷ s))) [
    | inl e ↦ ap finds (longest_missing c s e) ∙ finds-longest s ∙ sym (finds_missing c s e)
    | inr (n, e) ↦ ap finds (longest_word (c ∷ s) n e)
  ]

  pub length-longest : (s : Bytes) → length (longest s) ≤ length s
  length-longest [] = unfold longest in omega arith
  length-longest (c ∷ s) = elim (Option-cases (walk a 0 (c ∷ s))) [
    | inl e ↦ omega (arith, ap (λ l. length l) (longest_missing c s e), length-longest s)
    | inr (n, e) ↦ omega (arith, ap (λ l. length l) (longest_word (c ∷ s) n e))
  ]
