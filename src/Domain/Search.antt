-- ===== src/Domain/Search.antt =====
-- The binary search over the transitions of a node finds the child of a label.
use lucid_gate.Prelude.{
  ℕ, zero, suc, ◌+◌, ◌-◌, ◌/◌, ◌^◌, ◌≤◌, ◌<◌, ◌≡◌, ◌⊎◌, inl, inr, true, false, Option, none, some,
  List, Bytes, arith, refl, sym, ◌∙◌, subst, get_elem?, Bool-cases, Option-cases, lt→ltb,
  if◌then◌else◌,
}
use native.Mathlib.Decide.{dec_lt, ℕ_discrete}
use native.Mathlib.Numerals.{add-one}
use lucid_gate.Text.{◌=ᵇ◌, ◌≺◌, =ᵇ_iff, ≺_irrefl, ≺_trans, ≺_connex}
use lucid_gate.Domain.Builder.{BuilderNode, Children, nil, child, find_child}
use lucid_gate.Domain.Flat.{FlatTransition, Arrays, child_count, u32, binary_search_transition}
use lucid_gate.Domain.Paths.{Above, AreOrdered}
use lucid_gate.Domain.Layout.{Holds, HoldsChildren}

-- The label and the node of the child with the number `j`.
pub entry : Children → ℕ → Option (Bytes × BuilderNode)
entry nil j = none
entry (child l n cs) zero = some (l, n)
entry (child l n cs) (suc j) = entry cs j

pub entry-some :
    (cs : Children) (j : ℕ)
    → j < child_count cs
    → (l : Bytes) × (n : BuilderNode) × (entry cs j ≡ some (l, n))
unfolding entry child_count
entry-some nil j h = absurd (omega arith)
entry-some (child l n cs) zero h = (l, n, refl)
entry-some (child l n cs) (suc j) h = entry-some cs j (omega arith)

entry-lt :
    (cs : Children) (j : ℕ) (l : Bytes) (n : BuilderNode)
    → entry cs j ≡ some (l, n)
    → j < child_count cs
unfolding entry child_count
entry-lt nil j l n e = cc
entry-lt (child x c cs) zero l n e = omega arith
entry-lt (child x c cs) (suc j) l n e = omega (arith, entry-lt cs j l n e)

module _ (a t : ℕ) (f : Arrays) where
  -- The transition at the number `j` from `k`.
  pub entry-held :
      (k i j : ℕ) (cs : Children) (l : Bytes) (n : BuilderNode)
      → k + j ≡ i
      → HoldsChildren a t f k cs
      → entry cs j ≡ some (l, n)
      → (m : ℕ) × (get_elem? f.transitions i ≡ some (record { label = l; node = m }))
        × Holds a t f m n
  unfolding entry
  entry-held k i j nil l n q h e = cc
  entry-held k i zero (child l n cs) l' n' q h e =
      let same : n ≡ n' = cc in
      let here : k ≡ i = omega arith in (h.0, ground arith, subst (λ x. Holds a t f h.0 x) same h.2)
  entry-held k i (suc j) (child l n cs) l' n' q h e =
      entry-held (suc k) i j cs l' n' (omega arith) h.3 e

entry-Above :
    (k : Bytes) (cs : Children) (j : ℕ) (l : Bytes) (n : BuilderNode)
    → Above k cs
    → entry cs j ≡ some (l, n)
    → (k ≺ l) ≡ true
unfolding entry
entry-Above k nil j l n h e = cc
entry-Above k (child m c cs) zero l n h e = ground arith
entry-Above k (child m c cs) (suc j) l n h e = entry-Above k cs j l n h.1 e

entry-ordered :
    (cs : Children) (i j : ℕ) (k l : Bytes) (m n : BuilderNode)
    → AreOrdered cs
    → i < j
    → entry cs i ≡ some (k, m)
    → entry cs j ≡ some (l, n)
    → (k ≺ l) ≡ true
unfolding entry
entry-ordered nil i j k l m n o h p q = cc
entry-ordered (child x c cs) i zero k l m n o h p q = absurd (omega arith)
entry-ordered (child x c cs) zero (suc j) k l m n o h p q =
    ground (arith, entry-Above x cs j l n o.0 q)
entry-ordered (child x c cs) (suc i) (suc j) k l m n o h p q =
    entry-ordered cs i j k l m n o.2 (omega arith) p q

-- The first child of a label is the only one.
pub entry-find_child :
    (cs : Children) (j : ℕ) (l : Bytes) (n : BuilderNode)
    → AreOrdered cs
    → entry cs j ≡ some (l, n)
    → find_child l cs ≡ some n
unfolding entry find_child
entry-find_child nil j l n o e = cc
entry-find_child (child x c cs) zero l n o e = ground (arith, =ᵇ_iff l x)
entry-find_child (child x c cs) (suc j) l n o e =
    ground
      (arith, entry-find_child cs j l n o.2 e, entry-Above x cs j l n o.0 e, =ᵇ_iff l x, ≺_irrefl l)

find_child-entry :
    (cs : Children) (l : Bytes) (n : BuilderNode)
    → find_child l cs ≡ some n
    → (j : ℕ) × (j < child_count cs) × (entry cs j ≡ some (l, n))
unfolding entry find_child child_count
find_child-entry nil l n e = absurd (cc)
find_child-entry (child x c cs) l n e = elim (Bool-cases (l =ᵇ x)) [
  | inl same ↦ (0, omega arith, ground (arith, =ᵇ_iff l x))
  | inr other ↦ let r = find_child-entry cs l n (ground arith) in (suc r.0, omega arith, r.2)
]

-- The search ended without a panic, and found the child if there is one.
abbrev pub Finds : Children → ℕ → Bytes → Option (Option ℕ) → Type 0
Finds cs k label r =
    ((j : ℕ) × (n : BuilderNode) × (r ≡ some (some (k + j))) × (entry cs j ≡ some (label, n)))
    ⊎ ((r ≡ some none) × (find_child label cs ≡ none))

pub u32_of_lt : (n : ℕ) → n < 2 ^ 32 → u32 n ≡ n
unfolding u32
u32_of_lt n h = omega arith

above_of_not_below : (l k : Bytes) → (l =ᵇ k) ≡ false → (l ≺ k) ≡ false → (k ≺ l) ≡ true
above_of_not_below l k p q = elim (Bool-cases (k ≺ l)) [
  | inl h ↦ h
  | inr h ↦ ground (arith, =ᵇ_iff l k, ≺_connex l k q h)
]

-- One round of the loop, where the middle index is in range.
search_round :
    (fuel : ℕ) (ts : List FlatTransition) (low high mid : ℕ) (label : Bytes) (t : FlatTransition)
    → low < high
    → u32 (low + (high - low) / 2) ≡ mid
    → get_elem? ts mid ≡ some t
    → binary_search_transition (suc fuel) ts low high label ≡ (
        if t.label =ᵇ label
        then some (some mid)
        else if t.label ≺ label
        then binary_search_transition fuel ts (u32 (mid + 1)) high label
        else binary_search_transition fuel ts low mid label)
unfolding binary_search_transition
search_round fuel ts low high mid label t lt e g =
    let g' = rw (← e) at g in rw (← e) (rw (lt→ltb low high lt, g') refl)

search_over :
    (fuel : ℕ) (ts : List FlatTransition) (low high : ℕ) (label : Bytes)
    → high ≤ low
    → binary_search_transition (suc fuel) ts low high label ≡ some none
unfolding binary_search_transition
search_over fuel ts low high label h = ground arith

module _ (a t : ℕ) (f : Arrays) (k : ℕ) (cs : Children) (held : HoldsChildren a t f k cs)
    (ordered : AreOrdered cs) (small : k + child_count cs < 2 ^ 32) (label : Bytes) where
  -- The children before `low` lie below the label, those from `high` on above it.
  pub record Between (low high : ℕ) : Type 0 where
    pub from : k ≤ low
    pub upto : high ≤ k + child_count cs
    pub before :
        (j : ℕ) (l : Bytes) (n : BuilderNode)
        → k + j < low
        → entry cs j ≡ some (l, n)
        → (l ≺ label) ≡ true
    pub behind :
        (j : ℕ) (l : Bytes) (n : BuilderNode)
        → high ≤ k + j
        → entry cs j ≡ some (l, n)
        → (label ≺ l) ≡ true

  no_child : (low high : ℕ) → Between low high → high ≤ low → find_child label cs ≡ none
  no_child low high b h = elim (Option-cases (find_child label cs)) [
    | inl e ↦ e
    | inr (n, e) ↦
        let (j, _, at) = find_child-entry cs label n e in
        absurd (elim (dec_lt (k + j) low) [
          | yes p ↦ cc (b.before j label n p at, ≺_irrefl label)
          | no p ↦ cc (b.behind j label n (omega arith) at, ≺_irrefl label)
        ])
  ]

  module _ (low high j m : ℕ) (l : Bytes) (n : BuilderNode) (b : Between low high)
      (here : entry cs j ≡ some (l, n)) where
    Between-right : k + j < high → (l ≺ label) ≡ true → Between (suc (k + j)) high
    Between-right h p = record {
      from = omega arith;
      upto = b.upto;
      before = λ i x c q e. elim (ℕ_discrete i j) [
        | yes same ↦ ground arith
        | no other ↦ ≺_trans x l label (entry-ordered cs i j x l c n ordered (omega arith) e here) p
      ];
      behind = b.behind;
    }

    Between-left : low ≤ k + j → k + j ≤ high → (label ≺ l) ≡ true → Between low (k + j)
    Between-left h g p = record {
      from = b.from;
      upto = omega arith;
      before = b.before;
      behind = λ i x c q e. elim (ℕ_discrete i j) [
        | yes same ↦ ground arith
        | no other ↦ ≺_trans label l x p (entry-ordered cs j i l x n c ordered (omega arith) here e)
      ];
    }

  pub search-Finds :
      (fuel low high : ℕ)
      → Between low high
      → high - low < fuel
      → Finds cs k label (binary_search_transition fuel f.transitions low high label)
  search-Finds zero low high b h = absurd (omega arith)
  search-Finds (suc fuel) low high b h = elim (dec_lt low high) [
    | no over ↦ inr (
      search_over fuel f.transitions low high label (omega arith),
      no_child low high b (omega arith),
    )
    | yes more ↦
        let mid = low + (high - low) / 2 in
        let from : k ≤ low = b.from in
        let upto : high ≤ k + child_count cs = b.upto in
        let j = mid - k in
        let at : k + j ≡ mid = omega arith in
        let (l, n, here) = entry-some cs j (omega arith) in
        let (m, get, _) = entry-held a t f k (k + j) j cs l n refl held here in
        let round =
          search_round fuel f.transitions low high (k + j) label (record { label = l; node = m })
            more (u32_of_lt mid (omega arith) ∙ sym at) get in
        rw round (elim (Bool-cases (l =ᵇ label)) [
          | inl hit ↦ rw hit (inl (j, n, refl, ground (arith, =ᵇ_iff l label)))
          | inr miss ↦ rw miss (elim (Bool-cases (l ≺ label)) [
            | inl below ↦
                rw (below, u32_of_lt (k + j + 1) (omega arith), add-one (k + j))
                  (search-Finds fuel (suc (k + j)) high
                    (Between-right low high j m l n b here (omega arith) below) (omega arith))
            | inr above ↦ rw above (
                search-Finds fuel low (k + j)
                  (Between-left low high j m l n b here (omega arith) (omega arith)
                    (above_of_not_below l label miss above))
                  (omega arith))
          ])
        ])
  ]

  -- At the start of the search nothing is excluded.
  pub whole : Between k (k + child_count cs)
  unfolding entry child_count
  whole = record {
    from = omega arith;
    upto = omega arith;
    before = λ j l n q e. absurd (omega arith);
    behind = λ j l n q e. absurd (omega (arith, entry-lt cs j l n e));
  }
