-- ===== src/Semantic/Marks.antt =====
-- The marks of the tree are what its phrases say.
use lucid_gate.Prelude.{
  ℕ, ◌≡◌, ◌≤◌, inl, inr, none, List, [], ◌∷◌, Bytes, arith, refl, sym, ap, subst, ◌∙◌, Bool-cases,
  Option-cases,
}
use lucid_gate.Semantic.Automaton.{Automaton}
use lucid_gate.Semantic.Trie.{walk, walk-nil, walk_bounded}
use lucid_gate.Semantic.Mark.{no_mark, join, mark_of, Fits, join_left}
use lucid_gate.Semantic.Entries.{Entry, has_entry, says, told, Fits-says, Fits-told, says_missing}
use lucid_gate.Semantic.Holding.{Holds}
use lucid_gate.Semantic.Suffixes.{finds, finds_word, finds_missing}
use lucid_gate.Semantic.Rounds.{finds-nil}
use lucid_gate.Semantic.Children.{AllFit}

pub told-nil : (entries : List Entry) → told entries [] ≡ no_mark
unfolding told
told-nil entries = refl

pub told-cons :
    (entries : List Entry) (c : ℕ) (s : Bytes)
    → told entries (c ∷ s) ≡ join (says entries (c ∷ s)) (told entries s)
unfolding told
told-cons entries c s = refl

module _ (a : Automaton) (entries : List Entry) (h : Holds a entries) where
  pub mark_of-AllFit : AllFit a
  mark_of-AllFit x n w = subst Fits (sym (h.marks x n w)) (Fits-says entries x)

  no_word : (x : Bytes) → walk a 0 x ≡ none → says entries x ≡ no_mark
  no_word x e = elim (Bool-cases (has_entry entries x)) [
    | inl known ↦ let (n, w) = h.all x known in absurd (cc)
    | inr other ↦ says_missing entries x other
  ]

  pub finds-told : (s : Bytes) → finds a s ≡ told entries s
  finds-told [] = finds-nil a ∙ sym (told-nil entries)
  finds-told (c ∷ s) = elim (Option-cases (walk a 0 (c ∷ s))) [
    | inl e ↦
        finds_missing a c s e
        ∙ finds-told s
        ∙ sym (join_left (told entries s) (Fits-told entries s))
        ∙ ap (λ m. join m (told entries s)) (sym (no_word (c ∷ s) e))
        ∙ sym (told-cons entries c s)
    | inr (n, e) ↦
        finds_word a c s n e
        ∙ ap (λ m. join m (finds a s)) (h.marks (c ∷ s) n e)
        ∙ ap (join (says entries (c ∷ s))) (finds-told s)
        ∙ sym (told-cons entries c s)
  ]

  module _ (unsaid : says entries [] ≡ no_mark) where
    pub mark_of-root : mark_of a 0 ≡ no_mark
    mark_of-root = h.marks [] 0 (walk-nil a 0) ∙ unsaid

    -- A tree of the root alone has no phrases.
    says_root : (x : Bytes) → a.count ≤ 1 → says entries x ≡ no_mark
    says_root x small = elim (Bool-cases (has_entry entries x)) [
      | inr other ↦ says_missing entries x other
      | inl known ↦
          let (n, w) = h.all x known in
          let root : n ≡ 0 = omega (arith, small, walk_bounded a h.trie x n h.root w) in
          sym (h.marks x n w) ∙ ap (mark_of a) root ∙ mark_of-root
    ]

    pub told_root : (s : Bytes) → a.count ≤ 1 → told entries s ≡ no_mark
    told_root [] small = told-nil entries
    told_root (c ∷ s) small =
        told-cons entries c s
        ∙ ap (λ m. join m (told entries s)) (says_root (c ∷ s) small)
        ∙ join_left (told entries s) (Fits-told entries s)
        ∙ told_root s small
