-- ===== src/Semantic/Trie.antt =====
-- proxy/semantic_filter.go: the tree of phrases that `addPhrase` grows, before its failure links.
use lucid_gate.Prelude.{
  ℕ, zero, suc, ◌≡◌, ◌≢◌, ◌<◌, ◌⊎◌, inl, inr, true, false, ◌&&◌, Option, none, some, [], ◌∷◌, ◌++◌,
  Bytes, ◌==◌, if◌then◌else◌, length, arith, refl, sym, subst, ap, ◌∙◌, Bool-cases, ==_iff,
  length-append,
}
use lucid_gate.Semantic.Automaton.{Automaton, put_node, put_next, append_node, child_of}

abbrev pub next_of : Automaton → ℕ → ℕ → ℕ
next_of a n b = (a.nodes n).next b

-- Each node but the root is the target of one edge, which comes from an older node.
pub record IsTrie (a : Automaton) : Type 0 where
  pub grows : (n b : ℕ) → next_of a n b ≢ 0 → n < next_of a n b
  pub bounded : (n b : ℕ) → next_of a n b ≢ 0 → next_of a n b < a.count
  pub unique : (n b k d : ℕ) → next_of a n b ≢ 0 → next_of a n b ≡ next_of a k d → (n ≡ k) × (b ≡ d)
  pub bytes : (n b : ℕ) → next_of a n b ≢ 0 → b < 256

-- One edge from a node that was reached.
abbrev pub then_edge : Automaton → Option ℕ → ℕ → Option ℕ
then_edge a none b = none
then_edge a (some n) b = if next_of a n b == 0 then none else some (next_of a n b)

-- The node that a word leads to.
unfoldable pub walk : Automaton → ℕ → Bytes → Option ℕ
walk a n [] = some n
walk a n (b ∷ s) = elim (next_of a n b == 0) [ true ↦ none | false ↦ walk a (next_of a n b) s ]

pub walk-nil : (a : Automaton) (n : ℕ) → walk a n [] ≡ some n
unfolding walk
walk-nil a n = refl

pub walk-cons :
    (a : Automaton) (n b : ℕ) (s : Bytes)
    → (next_of a n b == 0) ≡ false
    → walk a n (b ∷ s) ≡ walk a (next_of a n b) s
unfolding walk
walk-cons a n b s h = rw (h, walk) refl

pub walk-none :
    (a : Automaton) (n b : ℕ) (s : Bytes) → (next_of a n b == 0) ≡ true → walk a n (b ∷ s) ≡ none
unfolding walk
walk-none a n b s h = rw (h, walk) refl

pub walk-snoc :
    (a : Automaton) (n : ℕ) (s : Bytes) (b : ℕ)
    → walk a n (s ++ b ∷ []) ≡ then_edge a (walk a n s) b
walk-snoc a n [] b = elim (Bool-cases (next_of a n b == 0)) [
  | inl e ↦ walk-none a n b [] e ∙ unfold walk in rw e refl
  | inr e ↦ walk-cons a n b [] e ∙ unfold walk in rw e refl
]
walk-snoc a n (c ∷ s) b = elim (Bool-cases (next_of a n c == 0)) [
  | inl e ↦ walk-none a n c (s ++ b ∷ []) e ∙ ap (λ o. then_edge a o b) (sym (walk-none a n c s e))
  | inr e ↦
      walk-cons a n c (s ++ b ∷ []) e
      ∙ walk-snoc a (next_of a n c) s b
      ∙ ap (λ o. then_edge a o b) (sym (walk-cons a n c s e))
]

pub snoc-cases : (x : Bytes) → (x ≡ []) ⊎ ((s : Bytes) × (b : ℕ) × (x ≡ s ++ b ∷ []))
snoc-cases [] = inl refl
snoc-cases (c ∷ x) = elim (snoc-cases x) [
  | inl e ↦ inr ([], c, ap (λ r. c ∷ r) e)
  | inr (s, b, e) ↦ inr (c ∷ s, b, ap (λ r. c ∷ r) e)
]

then_edge-some :
    (a : Automaton) (o : Option ℕ) (b m : ℕ)
    → then_edge a o b ≡ some m
    → (n : ℕ) × (o ≡ some n) × (next_of a n b ≡ m) × (m ≢ 0)
then_edge-some a none b m h = absurd (cc)
then_edge-some a (some n) b m h = (n, refl, ground (arith, h), ground (arith, h))

pub walk_last :
    (a : Automaton) (s : Bytes) (b m : ℕ)
    → walk a 0 (s ++ b ∷ []) ≡ some m
    → (n : ℕ) × (walk a 0 s ≡ some n) × (next_of a n b ≡ m) × (m ≢ 0)
walk_last a s b m h = then_edge-some a (walk a 0 s) b m (sym (walk-snoc a 0 s b) ∙ h)

pub walk_next :
    (a : Automaton) (s : Bytes) (b n : ℕ)
    → walk a 0 s ≡ some n
    → next_of a n b ≢ 0
    → walk a 0 (s ++ b ∷ []) ≡ some (next_of a n b)
walk_next a s b n h k = walk-snoc a 0 s b ∙ ap (λ o. then_edge a o b) h ∙ ground (arith, k)

pub walk_missing :
    (a : Automaton) (s : Bytes) (b n : ℕ)
    → walk a 0 s ≡ some n
    → next_of a n b ≡ 0
    → walk a 0 (s ++ b ∷ []) ≡ none
walk_missing a s b n h k = walk-snoc a 0 s b ∙ ap (λ o. then_edge a o b) h ∙ ground (arith, k)

pub some_injective : (n m : ℕ) → some n ≡ some m → n ≡ m
some_injective n m h = cc

root_word : (a : Automaton) (n : ℕ) → walk a 0 [] ≡ some n → n ≡ 0
unfolding walk
root_word a n h = cc

-- A word that leads to a node is empty, and the node is the root, or it has a last edge.
abbrev pub LastEdge : Automaton → Bytes → ℕ → Type 0
LastEdge a x n =
    (s : Bytes) × (b k : ℕ) × (x ≡ s ++ b ∷ [])
    × (walk a 0 s ≡ some k)
    × (next_of a k b ≡ n)
    × (n ≢ 0)

pub walk-cases :
    (a : Automaton) (x : Bytes) (n : ℕ)
    → walk a 0 x ≡ some n
    → ((x ≡ []) × (n ≡ 0)) ⊎ LastEdge a x n
walk-cases a x n h = elim (snoc-cases x) [
  | inl e ↦ inl (e, root_word a n (subst (λ s. walk a 0 s ≡ some n) e h))
  | inr (s, b, e) ↦
      let (k, w, next, pos) = walk_last a s b n (subst (λ s. walk a 0 s ≡ some n) e h) in
      inr (s, b, k, e, w, next, pos)
]

pub length-snoc : (s : Bytes) (b : ℕ) → length (s ++ b ∷ []) ≡ suc (length s)
length-snoc s b = omega (arith, length-append s (b ∷ []))

module _ (a : Automaton) (t : IsTrie a) where
  -- Two words that lead to one node are the same.
  walk_injective_within :
      (fuel : ℕ) (x y : Bytes) (n : ℕ)
      → length x < fuel
      → walk a 0 x ≡ some n
      → walk a 0 y ≡ some n
      → x ≡ y
  walk_injective_within zero x y n le h k = absurd (omega arith)
  walk_injective_within (suc fuel) x y n le h k = elim (walk-cases a x n h) [
    | inl (e, z) ↦ elim (walk-cases a y n k) [
      | inl (f, w) ↦ e ∙ sym f
      | inr (r, c, j, f, w, next, pos) ↦ absurd (pos z)
    ]
    | inr (s, b, i, e, v, before, pos) ↦ elim (walk-cases a y n k) [
      | inl (f, w) ↦ absurd (pos w)
      | inr (r, c, j, f, w, next, pos2) ↦
          let (same, byte) = t.unique i b j c (λ z. pos (sym before ∙ z)) (before ∙ sym next) in
          let words =
            walk_injective_within fuel s r i (omega (arith, length-snoc s b, ap (λ l. length l) e))
              v (w ∙ ap (λ i. some i) (sym same)) in
          e ∙ ap (λ l. l ++ b ∷ []) words ∙ ap (λ b. r ++ b ∷ []) byte ∙ sym f
    ]
  ]

  pub walk_injective : (x y : Bytes) (n : ℕ) → walk a 0 x ≡ some n → walk a 0 y ≡ some n → x ≡ y
  walk_injective x y n = walk_injective_within (suc (length x)) x y n (omega arith)

  pub walk_bounded : (x : Bytes) (n : ℕ) → 0 < a.count → walk a 0 x ≡ some n → n < a.count
  walk_bounded x n p h = elim (walk-cases a x n h) [
    | inl (e, z) ↦ omega arith
    | inr (s, b, k, e, w, next, pos) ↦
        let lt = t.bounded k b (λ z. pos (sym next ∙ z)) in omega arith
  ]

  -- An edge that is not there yet, to a new node.
  module _ (n b : ℕ) (inside : n < a.count) (byte : b < 256) (free : next_of a n b ≡ 0) where
    abbrev pub grown : Automaton
    grown = (child_of a n b).0

    fresh : (d : ℕ) → next_of a a.count d ≡ 0
    fresh d = elim (Bool-cases (next_of a a.count d == 0)) [
      | inl e ↦ (==_iff _ _).0 e
      | inr e ↦
          let some_edge : next_of a a.count d ≢ 0 = λ z. absurd (ground (arith, e, z)) in
          absurd (omega (arith, t.grows a.count d some_edge, t.bounded a.count d some_edge))
    ]

    pub next_of-grown :
        (i d : ℕ) → next_of grown i d ≡ (if (i == n) && (d == b) then a.count else next_of a i d)
    unfolding child_of append_node put_node put_next
    next_of-grown i d = ground (arith, free, inside, fresh d)

    pub count-grown : grown.count ≡ suc a.count
    unfolding child_of append_node put_node
    count-grown = ground (arith, free)

    pub grown-IsTrie : IsTrie grown
    grown-IsTrie = record {
      grows = λ i d h. ground (arith, next_of-grown i d, t.grows i d, h, inside, count-grown);
      bounded = λ i d h. ground (arith, next_of-grown i d, t.bounded i d, h, inside, count-grown);
      unique = λ i d j c h e. ground (
        arith,
        next_of-grown i d,
        next_of-grown j c,
        t.bounded i d,
        t.bounded j c,
        t.unique i d j c,
        h,
        e,
        inside,
      );
      bytes = λ i d h. ground (arith, next_of-grown i d, t.bytes i d, h, byte);
    }
