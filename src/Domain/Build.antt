-- ===== src/Domain/Build.antt =====
-- `buildFlat` lays the trie out in the arrays, and changes nothing that stood there before.
use lucid_gate.Prelude.{
  ℕ, zero, suc, ◌+◌, ◌^◌, ◌≤◌, ◌<◌, ◌≡◌, ◌≢◌, Bool, some, List, [], ◌∷◌, ◌++◌, arith, refl, ◌∙◌,
  Bytes, ap, subst, append_assoc, length, get_elem?, get_elem?-set_self, get_elem?-set_ne,
  get_elem?-append_left, lt-length_of_get_elem?, length-append, Option-cases, inl, inr,
}
use native.Mathlib.Decide.{ℕ_discrete}
use lucid_gate.Domain.Builder.{BuilderNode, Children, node, nil, child}
use lucid_gate.Domain.Flat.{
  FlatNode, FlatTransition, Arrays, child_count, reserved, reserve, appended_node, set_target,
  set_range, u32, build_flat, build_children,
}
use lucid_gate.Domain.Size.{
  size, size_children, length-set_target, length-reserved, nodes_built, transitions_built,
}
use lucid_gate.Domain.Layout.{
  Keeps, Holds, HoldsChildren, Holds-weaken, HoldsChildren-weaken, Holds-keeps, HoldsChildren-keeps,
  From, From-any,
}

u32_of_lt : (n : ℕ) → n < 2 ^ 32 → u32 n ≡ n
unfolding u32
u32_of_lt n h = omega arith

child_count-le-size_children : (cs : Children) → child_count cs ≤ size_children cs
unfolding child_count size
child_count-le-size_children nil = omega arith
child_count-le-size_children (child l (node b ds) cs) =
    omega (arith, child_count-le-size_children cs)

get_elem?-append_at {ℓ} :
    {A : Type ℓ} (xs ys : List A) (k : ℕ) (x : A)
    → length xs ≡ k
    → get_elem? (xs ++ x ∷ ys) k ≡ some x
get_elem?-append_at [] ys zero x e = refl
get_elem?-append_at [] ys (suc k) x e = absurd (omega arith)
get_elem?-append_at (y ∷ xs) ys zero x e = absurd (omega arith)
get_elem?-append_at (y ∷ xs) ys (suc k) x e = get_elem?-append_at xs ys k x (omega arith)

get_elem?-set_target_ne :
    (k i j : ℕ) (ts : List FlatTransition)
    → k ≢ j
    → get_elem? (set_target k i ts) j ≡ get_elem? ts j
unfolding set_target
get_elem?-set_target_ne k i j ts h = elim (Option-cases (get_elem? ts k)) [
  | inl e ↦ ground arith
  | inr (t, e) ↦ ground (arith, get_elem?-set_ne ts k j (record t { node = i }) h)
]

get_elem?-set_target_self :
    (k i : ℕ) (ts : List FlatTransition) (t : FlatTransition)
    → get_elem? ts k ≡ some t
    → get_elem? (set_target k i ts) k ≡ some (record t { node = i })
unfolding set_target
get_elem?-set_target_self k i ts t e =
    ground (arith, get_elem?-set_self ts k (record t { node = i }), lt-length_of_get_elem? ts k t e)

get_elem?-set_range_ne :
    (i first count j : ℕ) (ns : List FlatNode)
    → i ≢ j
    → get_elem? (set_range i first count ns) j ≡ get_elem? ns j
unfolding set_range
get_elem?-set_range_ne i first count j ns h = elim (Option-cases (get_elem? ns i)) [
  | inl e ↦ ground arith
  | inr (n, e) ↦
      ground
        (arith, get_elem?-set_ne ns i j (record n { first_child = first; child_count = count }) h)
]

get_elem?-set_range_self :
    (i first count : ℕ) (ns : List FlatNode) (n : FlatNode)
    → get_elem? ns i ≡ some n
    → get_elem? (set_range i first count ns) i
      ≡ some (record n { first_child = first; child_count = count })
unfolding set_range
get_elem?-set_range_self i first count ns n e = ground (
  arith,
  get_elem?-set_self ns i (record n { first_child = first; child_count = count }),
  lt-length_of_get_elem? ns i n e,
)

-- The transitions to the children are there, with no target yet.
abbrev AreReserved : List FlatTransition → ℕ → Children → Type 0
AreReserved ts k nil = Unit {0}
AreReserved ts k (child l n cs) =
    (get_elem? ts k ≡ some (record { label = l; node = 0 })) × AreReserved ts (suc k) cs

AreReserved-Keeps :
    (ts us : List FlatTransition) (k : ℕ) (cs : Children)
    → Keeps k ts us
    → AreReserved ts k cs
    → AreReserved us k cs
AreReserved-Keeps ts us k nil e h = tt
AreReserved-Keeps ts us k (child l n cs) e h = (
  e k (omega arith) (lt-length_of_get_elem? ts k _ h.0) ∙ h.0,
  AreReserved-Keeps ts us (suc k) cs (λ i p q. e i (omega arith) q) h.1,
)

reserved-AreReserved :
    (ts : List FlatTransition) (k : ℕ) (cs : Children)
    → length ts ≡ k
    → AreReserved (ts ++ reserved cs) k cs
unfolding reserved
reserved-AreReserved ts k nil e = tt
reserved-AreReserved ts k (child l n cs) e = (
  get_elem?-append_at ts (reserved cs) k (record { label = l; node = 0 }) e,
  subst (λ us. AreReserved us (suc k) cs)
      (append_assoc ts (record { label = l; node = 0 } ∷ []) (reserved cs))
      (reserved-AreReserved (ts ++ record { label = l; node = 0 } ∷ []) (suc k) cs
        (omega (arith, length-append ts (record { label = l; node = 0 } ∷ [])))),
)

-- The state after `build_flat n f`.
record Built (n : BuilderNode) (f : Arrays) : Type 0 where
  index : (build_flat n f).0 ≡ length f.nodes
  nodes : Keeps 0 f.nodes (build_flat n f).1.nodes
  transitions : Keeps 0 f.transitions (build_flat n f).1.transitions
  holds : Holds (length f.nodes) (length f.transitions) (build_flat n f).1 (length f.nodes) n

-- The state after `build_children cs k f`, where the reserved transitions end before `t`.
record Filled (t : ℕ) (cs : Children) (k : ℕ) (f : Arrays) : Type 0 where
  nodes : Keeps 0 f.nodes (build_children cs k f).nodes
  below :
      (i : ℕ)
      → i < k
      → i < length f.transitions
      → get_elem? (build_children cs k f).transitions i ≡ get_elem? f.transitions i
  above : Keeps t f.transitions (build_children cs k f).transitions
  holds : HoldsChildren (length f.nodes) t (build_children cs k f) k cs

size-pos : (n : BuilderNode) → 0 < size n
unfolding size
size-pos (node b cs) = omega arith

-- One child: its node is built, and its transition gets its target.
abbrev after_child : BuilderNode → ℕ → Arrays → Arrays
after_child n k f = record (build_flat n f).1 {
  transitions = set_target k (build_flat n f).0 (build_flat n f).1.transitions;
}

length-after_child :
    (n : BuilderNode) (k : ℕ) (f : Arrays)
    → length (after_child n k f).transitions + 1 ≡ length f.transitions + size n
length-after_child n k f = omega (
  arith,
  transitions_built n f,
  length-set_target k (build_flat n f).0 (build_flat n f).1.transitions,
)

module _ (t : ℕ) (l : Bytes) (n : BuilderNode) (cs : Children) (k : ℕ) (f : Arrays)
    (room : suc (k + child_count cs) ≤ t) (top : t ≤ length f.transitions)
    (reserved_here : get_elem? f.transitions k ≡ some (record { label = l; node = 0 }))
    (b : Built n f) where
  -- Another entry of the transitions.
  other_kept :
      (i : ℕ)
      → k ≢ i
      → i < length f.transitions
      → get_elem? (after_child n k f).transitions i ≡ get_elem? f.transitions i
  other_kept i h q =
      get_elem?-set_target_ne k (build_flat n f).0 i (build_flat n f).1.transitions h
      ∙ b.transitions i (omega arith) q

  inside : (i : ℕ) → i < length f.transitions → i < length (after_child n k f).transitions
  inside i q = omega (arith, length-after_child n k f, size-pos n)

  rest_reserved :
      AreReserved f.transitions (suc k) cs → AreReserved (after_child n k f).transitions (suc k) cs
  rest_reserved =
      AreReserved-Keeps f.transitions (after_child n k f).transitions (suc k) cs
        λ i p q. other_kept i (omega arith) q

  module _ (r : Filled t cs (suc k) (after_child n k f)) where
    target_set :
        get_elem? (build_children cs (suc k) (after_child n k f)).transitions k
        ≡ some (record { label = l; node = length f.nodes })
    target_set =
        r.below k (omega arith) (inside k (omega arith))
        ∙ get_elem?-set_target_self k (build_flat n f).0 (build_flat n f).1.transitions
            (record { label = l; node = 0 })
            (b.transitions k (omega arith) (omega arith) ∙ reserved_here)
        ∙ ap (λ j. some (record { label = l; node = j })) b.index

    child_held :
        Holds (length f.nodes) t (build_children cs (suc k) (after_child n k f)) (length f.nodes) n
    child_held =
        Holds-keeps (length f.nodes) t (build_flat n f).1
          (build_children cs (suc k) (after_child n k f)) (λ i p q. r.nodes i (omega arith) q)
          (λ i p q.
            r.above i p
              (omega (arith, length-set_target k (build_flat n f).0 (build_flat n f).1.transitions))
            ∙ get_elem?-set_target_ne k (build_flat n f).0 i (build_flat n f).1.transitions
                (omega arith))
          (length f.nodes) n
          (Holds-weaken (length f.nodes) (length f.transitions) (length f.nodes) t
            (build_flat n f).1 (length f.nodes) n (omega arith) top b.holds)

    Filled-child : Filled t (child l n cs) k f
    unfolding build_flat
    Filled-child = record {
      nodes = λ i p q. r.nodes i p (omega (arith, nodes_built n f)) ∙ b.nodes i p q;
      below = λ i p q. r.below i (omega arith) (inside i q) ∙ other_kept i (omega arith) q;
      above = λ i p q. r.above i p (inside i q) ∙ other_kept i (omega arith) q;
      holds = (
        length f.nodes,
        target_set,
        child_held,
        HoldsChildren-weaken (length (build_flat n f).1.nodes) t (length f.nodes) t
            (build_children cs (suc k) (after_child n k f)) (suc k) cs
            (omega (arith, nodes_built n f)) (omega arith) r.holds,
      );
    }

childless :
    (a t : ℕ) (f : Arrays) (k : ℕ) (cs : Children)
    → child_count cs ≡ 0
    → From t k cs × HoldsChildren a t f k cs
unfolding child_count
childless a t f k nil h = (tt, tt)
childless a t f k (child l n cs) h = absurd (omega arith)

abbrev bare : Bool → FlatNode
bare b = record { blocked = b; first_child = 0; child_count = 0 }

size-node : (b : Bool) (cs : Children) → size (node b cs) ≡ suc (size_children cs)
unfolding size
size-node b cs = refl

-- A node without children.
module _ (b : Bool) (cs : Children) (f : Arrays) (count : child_count cs ≡ 0)
    (room : length f.nodes + size (node b cs) ≤ 2 ^ 32) where
  leaf : build_flat (node b cs) f ≡ (length f.nodes, appended_node b f)
  unfolding build_flat
  leaf = ground (arith, u32_of_lt (length f.nodes), size-pos (node b cs))

  Built-leaf : Built (node b cs) f
  Built-leaf = record {
    index = ap (λ r. r.0) leaf;
    nodes = λ i p q. rw leaf (get_elem?-append_left f.nodes (bare b ∷ []) i q);
    transitions = λ i p q. rw leaf refl;
    holds = rw leaf (
      0,
      omega arith,
      (childless (length f.nodes) (length f.transitions) (appended_node b f) 0 cs count).0,
      get_elem?-append_at f.nodes [] (length f.nodes) (bare b) refl ∙ rw count refl,
      (childless (length f.nodes) (length f.transitions) (appended_node b f) 0 cs count).1,
    );
  }

-- A node with children, built after they were.
module _ (b : Bool) (cs : Children) (f : Arrays) (count : child_count cs ≢ 0)
    (room : length f.nodes + size (node b cs) ≤ 2 ^ 32)
    (fits : length f.transitions + size (node b cs) ≤ 2 ^ 32 + 1)
    (r : Filled
      (length (reserve b cs f).transitions)
      cs
      (length f.transitions)
      (reserve b cs f)) where
  abbrev filled : Arrays
  filled = build_children cs (length f.transitions) (reserve b cs f)

  abbrev ranged : List FlatNode
  ranged = set_range (length f.nodes) (length f.transitions) (child_count cs) filled.nodes

  inner : build_flat (node b cs) f ≡ (length f.nodes, record filled { nodes = ranged })
  unfolding build_flat
  inner = ground (
    arith,
    size-node b cs,
    child_count-le-size_children cs,
    u32_of_lt (length f.nodes),
    u32_of_lt (length f.transitions),
    u32_of_lt (child_count cs),
  )

  own_node : get_elem? filled.nodes (length f.nodes) ≡ some (bare b)
  own_node =
      r.nodes (length f.nodes) (omega arith) (omega (arith, length-append f.nodes (bare b ∷ [])))
      ∙ get_elem?-append_at f.nodes [] (length f.nodes) (bare b) refl

  children_held :
      HoldsChildren
        (length f.nodes)
        (length f.transitions)
        (record filled { nodes = ranged })
        (length f.transitions)
        cs
  children_held =
      HoldsChildren-weaken (suc (length f.nodes)) (length f.transitions) (length f.nodes)
        (length f.transitions) (record filled { nodes = ranged }) (length f.transitions) cs
        (omega arith) (omega arith)
        (HoldsChildren-keeps (suc (length f.nodes)) (length f.transitions) filled
          (record filled { nodes = ranged })
          (λ i p q.
            get_elem?-set_range_ne (length f.nodes) (length f.transitions) (child_count cs) i
              filled.nodes (omega arith))
          (λ i p q. refl) (length f.transitions) cs
          (From-any (length f.transitions) (length f.transitions) cs (omega arith))
          (HoldsChildren-weaken (length (reserve b cs f).nodes)
            (length (reserve b cs f).transitions) (suc (length f.nodes)) (length f.transitions)
            filled (length f.transitions) cs (omega (arith, length-append f.nodes (bare b ∷ [])))
            (omega (arith, length-append f.transitions (reserved cs))) r.holds))

  Built-inner : Built (node b cs) f
  Built-inner = record {
    index = ap (λ p. p.0) inner;
    nodes = λ i p q. rw inner (
        get_elem?-set_range_ne (length f.nodes) (length f.transitions) (child_count cs) i
          filled.nodes (omega arith)
        ∙ r.nodes i p (omega (arith, length-append f.nodes (bare b ∷ [])))
        ∙ get_elem?-append_left f.nodes (bare b ∷ []) i q);
    transitions = λ i p q. rw inner (
        r.below i q (omega (arith, length-append f.transitions (reserved cs)))
        ∙ get_elem?-append_left f.transitions (reserved cs) i q);
    holds = rw inner (
      length f.transitions,
      omega arith,
      From-any (length f.transitions) (length f.transitions) cs (omega arith),
      get_elem?-set_range_self (length f.nodes) (length f.transitions) (child_count cs) filled.nodes
          (bare b) own_node,
      children_held,
    );
  }

Filled-nil : (k : ℕ) (f : Arrays) (t : ℕ) → Filled t nil k f
unfolding build_flat
Filled-nil k f t = record {
  nodes = λ i p q. refl;
  below = λ i p q. refl;
  above = λ i p q. refl;
  holds = tt;
}

count-child :
    (l : Bytes) (n : BuilderNode) (cs : Children)
    → child_count (child l n cs) ≡ suc (child_count cs)
unfolding child_count
count-child l n cs = refl

size-child :
    (l : Bytes) (n : BuilderNode) (cs : Children)
    → size_children (child l n cs) ≡ size n + size_children cs
unfolding size
size-child l n cs = refl

mutual
  -- `buildFlat` appends the node at the next index and lays out all that is below it.
  build_flat-Built :
      (n : BuilderNode) (f : Arrays)
      → length f.nodes + size n ≤ 2 ^ 32
      → length f.transitions + size n ≤ 2 ^ 32 + 1
      → Built n f
  build_flat-Built (node b cs) f p q = elim (ℕ_discrete (child_count cs) 0) [
    | yes e ↦ Built-leaf b cs f e p
    | no h ↦ Built-inner b cs f h p q (
        build_children-Filled cs (length f.transitions) (reserve b cs f)
          (length (reserve b cs f).transitions)
          (omega (arith, length-append f.transitions (reserved cs), length-reserved cs))
          (omega arith) (reserved-AreReserved f.transitions (length f.transitions) cs refl)
          (omega (arith, size-node b cs, length-append f.nodes (bare b ∷ [])))
          (omega
            (arith, size-node b cs, length-append f.transitions (reserved cs), length-reserved cs)))
  ]

  build_children-Filled :
      (cs : Children) (k : ℕ) (f : Arrays) (t : ℕ)
      → k + child_count cs ≤ t
      → t ≤ length f.transitions
      → AreReserved f.transitions k cs
      → length f.nodes + size_children cs ≤ 2 ^ 32
      → length f.transitions + size_children cs ≤ 2 ^ 32 + child_count cs
      → Filled t cs k f
  build_children-Filled nil k f t room top r p q = Filled-nil k f t
  build_children-Filled (child l n cs) k f t room top r p q =
      let c = count-child l n cs in
      let z = size-child l n cs in
      let w = child_count-le-size_children cs in
      let v = size-pos n in
      let b = build_flat-Built n f (omega arith) (omega arith) in
      Filled-child t l n cs k f (omega arith) top r.0 b (
        build_children-Filled cs (suc k) (after_child n k f) t (omega arith)
          (omega (arith, length-after_child n k f))
          (rest_reserved t l n cs k f (omega arith) top r.0 b r.1) (omega (arith, nodes_built n f))
          (omega (arith, length-after_child n k f)))

-- For a builder tree of at most 2 ^ 32 nodes, the arrays that `Compile` makes hold the whole tree from the
-- index 0 on: each node has its flag, its number of children and the start of its transitions, which
-- stand in the order of its labels and lead to the arrays of its children.
pub build_flat-Holds :
    (n : BuilderNode)
    → size n ≤ 2 ^ 32
    → Holds 0 0 (build_flat n (record { nodes = []; transitions = [] })).1 0 n
build_flat-Holds n h =
    (build_flat-Built n (record { nodes = []; transitions = [] }) (omega arith) (omega arith)).holds
