-- ===== src/Semantic/Growth.antt =====
-- A phrase that is added to the tree: what stays of it, and where the phrase ends.
use lucid_gate.Prelude.{
  ℕ, zero, suc, ◌≡◌, ◌≢◌, ◌<◌, ◌≤◌, ◌⊎◌, inl, inr, true, false, some, [], ◌∷◌, Bytes, ◌==◌,
  if◌then◌else◌, All, arith, refl, sym, ap, ◌∙◌, Bool-cases, ==_iff,
}
use lucid_gate.Semantic.Automaton.{Automaton, put_node, put_next, append_node, child_of, add_bytes}
use lucid_gate.Semantic.Mark.{no_mark, mark_of}
use lucid_gate.Semantic.Trie.{
  next_of, IsTrie, walk, walk-nil, walk-cons, walk-none, walk-cases, walk_next, grown-IsTrie,
  next_of-grown, count-grown,
}

-- A tree that has grown: the old edges and marks are there, and new nodes are not marked.
pub record Extends (a c : Automaton) : Type 0 where
  pub count : a.count ≤ c.count
  pub edges :
      (i d : ℕ)
      → (next_of c i d ≡ next_of a i d) ⊎ ((next_of a i d ≡ 0) × (a.count ≤ next_of c i d))
  pub old : (i : ℕ) → i < a.count → mark_of c i ≡ mark_of a i
  pub new : (i : ℕ) → a.count ≤ i → i < c.count → mark_of c i ≡ no_mark

Extends-refl : (a : Automaton) → Extends a a
Extends-refl a = record {
  count = omega arith;
  edges = λ i d. inl refl;
  old = λ i h. refl;
  new = λ i h k. absurd (omega arith);
}

Extends-trans : (a c e : Automaton) → Extends a c → Extends c e → Extends a e
Extends-trans a c e p q = record {
  count = omega (arith, p.count, q.count);
  edges = λ i d. elim (p.edges i d) [
    | inl same ↦ elim (q.edges i d) [
      | inl same2 ↦ inl (same2 ∙ same)
      | inr (z, le) ↦ inr (sym same ∙ z, omega (arith, le, p.count))
    ]
    | inr (z, le) ↦ elim (q.edges i d) [
      | inl same2 ↦ inr (z, omega (arith, same2, le))
      | inr (z2, le2) ↦ inr (z, omega (arith, le2, p.count))
    ]
  ];
  old = λ i h. q.old i (omega (arith, p.count)) ∙ p.old i h;
  new = λ i h k. ground (arith, p.new i, q.old i, q.new i, h, k, p.count, q.count);
}

child_of_found :
    (a : Automaton) (n b : ℕ) → (next_of a n b == 0) ≡ false → child_of a n b ≡ (a, next_of a n b)
unfolding child_of
child_of_found a n b h = rw (h, child_of) refl

child_of_made :
    (a : Automaton) (n b : ℕ) → (next_of a n b == 0) ≡ true → (child_of a n b).1 ≡ a.count
unfolding child_of
child_of_made a n b h = rw (h, child_of) refl

mark_of-grown :
    (a : Automaton) (n b i : ℕ)
    → n < a.count
    → (next_of a n b == 0) ≡ true
    → mark_of (child_of a n b).0 i ≡ (if i == a.count then no_mark else mark_of a i)
unfolding child_of append_node put_node put_next mark_of
mark_of-grown a n b i inside h = ground (arith, inside, h)

child_of-Extends :
    (a : Automaton) (n b : ℕ)
    → IsTrie a
    → n < a.count
    → b < 256
    → IsTrie (child_of a n b).0
      × Extends a (child_of a n b).0
      × (next_of (child_of a n b).0 n b ≡ (child_of a n b).1)
      × ((child_of a n b).1 ≢ 0)
      × ((child_of a n b).1 < (child_of a n b).0.count)
child_of-Extends a n b t inside byte = elim (Bool-cases (next_of a n b == 0)) [
  | inl e ↦
      let free = (==_iff (next_of a n b) 0).0 e in
      (
        grown-IsTrie a t n b inside byte free,
        record {
          count = omega (arith, count-grown a t n b inside byte free);
          edges = λ i d. ground (arith, next_of-grown a t n b inside byte free i d, free);
          old = λ i h. mark_of-grown a n b i inside e ∙ ground (arith, h);
          new = λ i h k.
              mark_of-grown a n b i inside e
              ∙ ground (arith, h, k, count-grown a t n b inside byte free);
        },
        next_of-grown a t n b inside byte free n b ∙ ground (arith, child_of_made a n b e),
        ground (arith, child_of_made a n b e, inside),
        omega (arith, child_of_made a n b e, count-grown a t n b inside byte free),
      )
  | inr e ↦
      let some_edge : next_of a n b ≢ 0 = λ z. ground (arith, e, z) in
      rw (child_of_found a n b e) (t, Extends-refl a, refl, some_edge, t.bounded n b some_edge)
]

-- A word of the old tree leads to the same node in the new one.
pub walk-Extends :
    (a c : Automaton) (s : Bytes) (n m : ℕ)
    → Extends a c
    → walk a n s ≡ some m
    → walk c n s ≡ some m
walk-Extends a c [] n m p h = walk-nil c n ∙ sym (walk-nil a n) ∙ h
walk-Extends a c (b ∷ s) n m p h = elim (Bool-cases (next_of a n b == 0)) [
  | inl e ↦ absurd (ground (arith, walk-none a n b s e, h))
  | inr e ↦
      let same : next_of c n b ≡ next_of a n b = ground (arith, p.edges n b, e) in
      walk-cons c n b s (ground (arith, same, e))
      ∙ ap (λ k. walk c k s) same
      ∙ walk-Extends a c s (next_of a n b) m p (sym (walk-cons a n b s e) ∙ h)
]

-- A word that leads to an old node was there before.
pub walk_old :
    (fuel : ℕ) (a c : Automaton) (x : Bytes) (n : ℕ)
    → IsTrie c
    → Extends a c
    → n < fuel
    → n < a.count
    → walk c 0 x ≡ some n
    → walk a 0 x ≡ some n
walk_old zero a c x n t p le lt h = absurd (omega arith)
walk_old (suc fuel) a c x n t p le lt h = elim (walk-cases c x n h) [
  | inl (e, z) ↦ ap (λ x. walk a 0 x) e ∙ walk-nil a 0 ∙ ap (λ n. some n) (sym z)
  | inr (s, b, k, e, w, next, pos) ↦
      let older = t.grows k b (λ z. pos (sym next ∙ z)) in
      let before = walk_old fuel a c s k t p (omega arith) (omega arith) w in
      let same : next_of a k b ≡ n = ground (arith, p.edges k b, next, lt) in
      let there = walk_next a s b k before (λ z. pos (sym same ∙ z)) in
      ap (λ x. walk a 0 x) e ∙ there ∙ ap (λ n. some n) same
]

-- The node that a word is added at.
pub record Added (a c : Automaton) (n m : ℕ) (s : Bytes) : Type 0 where
  pub trie : IsTrie c
  pub extends : Extends a c
  pub reached : walk c n s ≡ some m
  pub inside : m < c.count

pub add_bytes-Added :
    (a : Automaton) (n : ℕ) (s : Bytes)
    → IsTrie a
    → n < a.count
    → All (λ b. b < 256) s
    → Added a (add_bytes a n s).0 n (add_bytes a n s).1 s
unfolding add_bytes
add_bytes-Added a n [] t h bytes = record {
  trie = t;
  extends = Extends-refl a;
  reached = walk-nil a n;
  inside = h;
}
add_bytes-Added a n (b ∷ s) t h bytes =
    let (trie, ext, next, pos, lt) = child_of-Extends a n b t h bytes.0 in
    let r = add_bytes-Added (child_of a n b).0 (child_of a n b).1 s trie lt bytes.1 in
    let kept : next_of (add_bytes (child_of a n b).0 (child_of a n b).1 s).0 n b
        ≡ (child_of a n b).1 =
      ground (arith, r.extends.edges n b, next, pos) in
    record {
      trie = r.trie;
      extends = Extends-trans a (child_of a n b).0 _ ext r.extends;
      reached =
          walk-cons _ n b s (ground (arith, kept, pos))
          ∙ ap (λ k. walk (add_bytes (child_of a n b).0 (child_of a n b).1 s).0 k s) kept
          ∙ r.reached;
      inside = r.inside;
    }

-- Where the marks do not matter: the same edges are walked.
pub walk_same :
    (a c : Automaton) (s : Bytes) (n : ℕ)
    → ((i d : ℕ) → next_of c i d ≡ next_of a i d)
    → walk c n s ≡ walk a n s
walk_same a c [] n h = walk-nil c n ∙ sym (walk-nil a n)
walk_same a c (b ∷ s) n h = elim (Bool-cases (next_of a n b == 0)) [
  | inl e ↦ walk-none c n b s (ground (arith, h n b, e)) ∙ sym (walk-none a n b s e)
  | inr e ↦
      walk-cons c n b s (ground (arith, h n b, e))
      ∙ ap (λ k. walk c k s) (h n b)
      ∙ walk_same a c s (next_of a n b) h
      ∙ sym (walk-cons a n b s e)
]
