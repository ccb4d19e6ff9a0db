-- ===== src/Domain/Matching.antt =====
-- `Match` on the arrays walks the trie that they hold.
use lucid_gate.Prelude.{
  ℕ, zero, suc, ◌+◌, ◌^◌, ◌≤◌, ◌<◌, ◌≡◌, ◌⊎◌, inl, inr, Bool, true, false, ◌||◌, Option, none, some,
  List, [], ◌∷◌, ◌++◌, Bytes, arith, refl, sym, ap, ◌∙◌, length, get_elem?, take, drop, reverse,
  reverse-append, append-nil, ◌≢◌, length-take, lt-length_of_get_elem?, Bool-cases, Option-cases,
}
use native.Mathlib.Decide.{ℕ_discrete}
use lucid_gate.Text.{is_empty, last_index_byte}
use lucid_gate.Domain.Name.{
  dot, pieces, non_empty, fields, pieces-last_index_byte, pieces-no_dot, non_empty-append,
  last_index_byte-lt,
}
use lucid_gate.Domain.Builder.{
  BuilderNode, Children, node, nil, child, children, blocked, find_child, walk,
}
use lucid_gate.Domain.Flat.{
  Arrays, FlatNode, child_count, u32, binary_search_transition, follow, step_label, blocked_at,
  cut_label, match_loop,
}
use lucid_gate.Domain.Paths.{IsOrdered, AreOrdered, find_child-IsOrdered}
use lucid_gate.Domain.Layout.{Holds, HoldsChildren}
use lucid_gate.Domain.Search.{Finds, search-Finds, entry-held, entry-find_child, u32_of_lt, whole}

-- The labels from the last to the first.
abbrev pub backwards : Bytes → List Bytes
backwards h = reverse (fields h)

cut_label-none : (h : Bytes) → last_index_byte h dot ≡ none → cut_label h ≡ (h, [])
unfolding cut_label
cut_label-none h e = ground arith

cut_label-some :
    (h : Bytes) (i : ℕ) → last_index_byte h dot ≡ some i → cut_label h ≡ (drop (suc i) h, take i h)
unfolding cut_label
cut_label-some h i e = ground arith

fields-pieces : (h : Bytes) → fields h ≡ non_empty (pieces h)
unfolding fields
fields-pieces h = refl

fields-nil : fields [] ≡ []
unfolding fields
fields-nil = refl

-- A cut takes the last piece off.
cut_label-fields :
    (h : Bytes) → fields h ≡ fields (cut_label h).1 ++ non_empty ((cut_label h).0 ∷ [])
cut_label-fields h = elim (Option-cases (last_index_byte h dot)) [
  | inl e ↦ rw (cut_label-none h e, fields-nil) (fields-pieces h ∙ ap non_empty (pieces-no_dot h e))
  | inr (i, e) ↦ rw (cut_label-some h i e) (
      fields-pieces h
      ∙ ap non_empty (pieces-last_index_byte h i e)
      ∙ non_empty-append (pieces (take i h)) (drop (suc i) h ∷ [])
      ∙ ap (λ ps. ps ++ non_empty (drop (suc i) h ∷ [])) (sym (fields-pieces (take i h))))
]

length-cut_label : (c : ℕ) (h : Bytes) → length (cut_label (c ∷ h)).1 < length (c ∷ h)
length-cut_label c h = elim (Option-cases (last_index_byte (c ∷ h) dot)) [
  | inl e ↦ rw (cut_label-none (c ∷ h) e) (omega arith)
  | inr (i, e) ↦
      rw (cut_label-some (c ∷ h) i e)
        (omega (arith, length-take i (c ∷ h), last_index_byte-lt (c ∷ h) dot i e))
]

backwards-skip :
    (h : Bytes) → is_empty (cut_label h).0 ≡ true → backwards h ≡ backwards (cut_label h).1
unfolding non_empty
backwards-skip h e = ap reverse (cut_label-fields h ∙ drop_empty)
  where
    drop_empty : fields (cut_label h).1 ++ non_empty ((cut_label h).0 ∷ []) ≡ fields (cut_label h).1
    drop_empty = rw e (append-nil (fields (cut_label h).1))

backwards-label :
    (h : Bytes)
    → is_empty (cut_label h).0 ≡ false
    → backwards h ≡ (cut_label h).0 ∷ backwards (cut_label h).1
unfolding non_empty
backwards-label h e =
    ap reverse (cut_label-fields h)
    ∙ ap reverse keep_label
    ∙ reverse-append (fields (cut_label h).1) ((cut_label h).0 ∷ [])
  where
    keep_label :
        fields (cut_label h).1 ++ non_empty ((cut_label h).0 ∷ [])
        ≡ fields (cut_label h).1 ++ (cut_label h).0 ∷ []
    keep_label = rw e refl

step_label-childless :
    (f : Arrays) (i : ℕ) (label : Bytes) (n : FlatNode)
    → get_elem? f.nodes i ≡ some n
    → n.child_count ≡ 0
    → step_label f i label ≡ some none
unfolding step_label
step_label-childless f i label n e z = ground arith

step_label-follow :
    (f : Arrays) (i : ℕ) (label : Bytes) (n : FlatNode) (high : ℕ)
    → get_elem? f.nodes i ≡ some n
    → n.child_count ≢ 0
    → u32 (n.first_child + n.child_count) ≡ high
    → step_label f i label
      ≡ follow f.transitions
          (binary_search_transition (suc n.child_count) f.transitions n.first_child high label)
unfolding step_label
step_label-follow f i label n high e z h = rw (← h) (ground arith)

find_child-childless : (l : Bytes) (cs : Children) → child_count cs ≡ 0 → find_child l cs ≡ none
unfolding child_count find_child
find_child-childless l nil h = refl
find_child-childless l (child k n cs) h = absurd (omega arith)

match_loop-end : (fuel : ℕ) (f : Arrays) (i : ℕ) → match_loop fuel f [] i ≡ blocked_at f i
unfolding match_loop
match_loop-end zero f i = refl
match_loop-end (suc fuel) f i = refl

module _ (fuel : ℕ) (f : Arrays) (c : ℕ) (h : Bytes) (i : ℕ) where
  match_loop-skip :
      is_empty (cut_label (c ∷ h)).0 ≡ true
      → match_loop (suc fuel) f (c ∷ h) i ≡ match_loop fuel f (cut_label (c ∷ h)).1 i
  unfolding match_loop
  match_loop-skip e = rw e

  match_loop-missing :
      is_empty (cut_label (c ∷ h)).0 ≡ false
      → step_label f i (cut_label (c ∷ h)).0 ≡ some none
      → match_loop (suc fuel) f (c ∷ h) i ≡ some false
  unfolding match_loop
  match_loop-missing e s = rw (e, s)

  -- What is left of a round that went to the node `j`.
  abbrev after_step : Bool → Option Bool → Option Bool
  after_step b rest = elim b [ true ↦ some true | false ↦ rest ]

  match_loop-child :
      (j : ℕ) (b : Bool)
      → is_empty (cut_label (c ∷ h)).0 ≡ false
      → step_label f i (cut_label (c ∷ h)).0 ≡ some (some j)
      → blocked_at f j ≡ some b
      → match_loop (suc fuel) f (c ∷ h) i ≡ after_step b (match_loop fuel f (cut_label (c ∷ h)).1 j)
  unfolding match_loop
  match_loop-child j b e s q = ground arith

or_walk :
    (b w : Bool) (r : Option Bool)
    → r ≡ some w
    → (elim b [ true ↦ some true | false ↦ r ]) ≡ some (b || w)
or_walk true w r e = refl
or_walk false w r e = e

pub walk-end : (n : BuilderNode) → walk [] n ≡ blocked n
unfolding walk
walk-end n = refl

walk-missing :
    (l : Bytes) (ls : List Bytes) (n : BuilderNode)
    → find_child l (children n) ≡ none
    → walk (l ∷ ls) n ≡ false
unfolding walk
walk-missing l ls n e = ground arith

walk-child :
    (l : Bytes) (ls : List Bytes) (n m : BuilderNode)
    → find_child l (children n) ≡ some m
    → walk (l ∷ ls) n ≡ (blocked m || walk ls m)
unfolding walk
walk-child l ls n m e = ground arith

children-ordered : (n : BuilderNode) → IsOrdered n → AreOrdered (children n)
children-ordered (node b cs) o = o

module _ (a t : ℕ) (f : Arrays) (small : length f.transitions < 2 ^ 32) where
  -- The children that are held lie within the transitions.
  held_in_range :
      (k : ℕ) (cs : Children)
      → HoldsChildren a t f k cs
      → child_count cs ≢ 0
      → k + child_count cs ≤ length f.transitions
  unfolding child_count
  held_in_range k nil h e = absurd (e refl)
  held_in_range k (child l n nil) h e = omega (arith, lt-length_of_get_elem? f.transitions k _ h.1)
  held_in_range k (child l n (child m c cs)) h e =
      omega (arith, held_in_range (suc k) (child m c cs) h.3 (omega arith))

  -- A round of `Match` goes to the child of the label, or ends if there is none.
  abbrev Steps : Bytes → BuilderNode → Option (Option ℕ) → Type 0
  Steps label n r =
      ((j : ℕ) × (c : BuilderNode) × (r ≡ some (some j))
        × (find_child label (children n) ≡ some c)
        × Holds a t f j c)
      ⊎ ((r ≡ some none) × (find_child label (children n) ≡ none))

  found :
      (k : ℕ) (cs : Children) (b : Bool) (label : Bytes) (r : Option (Option ℕ))
      → HoldsChildren a t f k cs
      → AreOrdered cs
      → Finds cs k label r
      → Steps label (node b cs) (follow f.transitions r)
  found k cs b label r held o (inl (j, n, e, at)) =
      let (m, get, holds) = entry-held a t f k (k + j) j cs label n refl held at in
      inl (m, n, ground arith, entry-find_child cs j label n o at, holds)
  found k cs b label r held o (inr (e, missing)) = inr (ground arith, missing)

  step_label-Steps :
      (label : Bytes) (i : ℕ) (n : BuilderNode)
      → Holds a t f i n
      → IsOrdered n
      → Steps label n (step_label f i label)
  step_label-Steps label i (node b cs) h o =
      let (first, _, _, get, held) = h in
      elim (ℕ_discrete (child_count cs) 0) [
        | yes z ↦ inr (step_label-childless f i label _ get z, find_child-childless label cs z)
        | no z ↦
            let fits = held_in_range first cs held z in
            let high = u32_of_lt (first + child_count cs) (omega arith) in
            rw (step_label-follow f i label _ (first + child_count cs) get z high) (
              found first cs b label _ held o (
                search-Finds a t f first cs held o (omega arith) label (suc (child_count cs)) first
                  (first + child_count cs) (whole a t f first cs held o (omega arith) label)
                  (omega arith)))
      ]

  blocked_at-Holds : (i : ℕ) (n : BuilderNode) → Holds a t f i n → blocked_at f i ≡ some (blocked n)
  blocked_at-Holds i (node b cs) (_, _, _, get, _) = ground arith

  pub match_loop-walk :
      (fuel : ℕ) (h : Bytes) (i : ℕ) (n : BuilderNode)
      → length h ≤ fuel
      → Holds a t f i n
      → IsOrdered n
      → match_loop fuel f h i ≡ some (walk (backwards h) n)
  unfolding fields
  match_loop-walk fuel [] i n q holds o =
      match_loop-end fuel f i ∙ blocked_at-Holds i n holds ∙ ap some (sym (walk-end n))
  match_loop-walk zero (c ∷ h) i n q holds o = absurd (omega arith)
  match_loop-walk (suc fuel) (c ∷ h) i n q holds o =
      elim (Bool-cases (is_empty (cut_label (c ∷ h)).0)) [
        | inl skip ↦
            match_loop-skip fuel f c h i skip
            ∙ match_loop-walk fuel (cut_label (c ∷ h)).1 i n (omega (arith, length-cut_label c h))
                holds o
            ∙ ap (λ ls. some (walk ls n)) (sym (backwards-skip (c ∷ h) skip))
        | inr label ↦
            rw (backwards-label (c ∷ h) label)
              (elim (step_label-Steps (cut_label (c ∷ h)).0 i n holds o) [
                | inr (e, missing) ↦
                    match_loop-missing fuel f c h i label e
                    ∙ ap some (sym (walk-missing (cut_label (c ∷ h)).0 _ n missing))
                | inl (j, m, e, there, held) ↦
                    match_loop-child fuel f c h i j (blocked m) label e (blocked_at-Holds j m held)
                    ∙ or_walk (blocked m) _ _ (
                        match_loop-walk fuel (cut_label (c ∷ h)).1 j m
                          (omega (arith, length-cut_label c h)) held
                          (find_child-IsOrdered (cut_label (c ∷ h)).0 (children n) m
                            (children-ordered n o) there))
                    ∙ ap some (sym (walk-child (cut_label (c ∷ h)).0 _ n m there))
              ])
      ]
