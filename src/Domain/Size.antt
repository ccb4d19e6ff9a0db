-- ===== src/Domain/Size.antt =====
-- How much `buildFlat` appends: one entry for each node, one transition for each child.
use lucid_gate.Prelude.{
  ℕ, suc, ◌+◌, ◌≡◌, List, [], ◌∷◌, arith, refl, length, get_elem?, length-set, length-append,
  Option-cases, inl, inr,
}
use lucid_gate.Domain.Builder.{BuilderNode, Children, node, nil, child}
use lucid_gate.Domain.Flat.{
  FlatNode, FlatTransition, Arrays, child_count, reserved, reserve, u32, set_target, set_range,
  build_flat, build_children,
}

unfoldable mutual
  -- The nodes of a trie.
  pub size : BuilderNode → ℕ
  size (node b cs) = suc (size_children cs)

  pub size_children : Children → ℕ
  size_children nil = 0
  size_children (child l n cs) = size n + size_children cs

pub length-set_target :
    (k i : ℕ) (ts : List FlatTransition) → length (set_target k i ts) ≡ length ts
unfolding set_target
length-set_target k i ts = elim (Option-cases (get_elem? ts k)) [
  | inl e ↦ ground arith
  | inr (t, e) ↦ ground (arith, length-set ts k (record t { node = i }))
]

pub length-set_range :
    (i first count : ℕ) (ns : List FlatNode) → length (set_range i first count ns) ≡ length ns
unfolding set_range
length-set_range i first count ns = elim (Option-cases (get_elem? ns i)) [
  | inl e ↦ ground arith
  | inr (n, e) ↦
      ground (arith, length-set ns i (record n { first_child = first; child_count = count }))
]

pub length-reserved : (cs : Children) → length (reserved cs) ≡ child_count cs
unfolding reserved child_count
length-reserved nil = refl
length-reserved (child l n cs) = omega (arith, length-reserved cs)

-- A node without children appends itself alone.
pub size_children-zero : (cs : Children) → child_count cs ≡ 0 → size_children cs ≡ 0
unfolding child_count size
size_children-zero nil h = refl
size_children-zero (child l n cs) h = absurd (omega arith)

mutual
  unfolding build_flat size

  pub nodes_built :
      (n : BuilderNode) (f : Arrays) → length (build_flat n f).1.nodes ≡ length f.nodes + size n
  nodes_built (node b cs) f = ground (
    arith,
    nodes_filled cs (length f.transitions) (reserve b cs f),
    size_children-zero cs,
    length-append f.nodes (record { blocked = b; first_child = 0; child_count = 0 } ∷ []),
    length-set_range (u32 (length f.nodes)) (u32 (length f.transitions)) (u32 (child_count cs))
        (build_children cs (length f.transitions) (reserve b cs f)).nodes,
  )

  pub nodes_filled :
      (cs : Children) (k : ℕ) (f : Arrays)
      → length (build_children cs k f).nodes ≡ length f.nodes + size_children cs
  nodes_filled nil k f = omega arith
  nodes_filled (child l n cs) k f = omega (
    arith,
    nodes_built n f,
    nodes_filled cs (suc k) (record (build_flat n f).1 {
      transitions = set_target k (build_flat n f).0 (build_flat n f).1.transitions;
    }),
  )

mutual
  unfolding build_flat size

  pub transitions_built :
      (n : BuilderNode) (f : Arrays)
      → length (build_flat n f).1.transitions + 1 ≡ length f.transitions + size n
  transitions_built (node b cs) f = ground (
    arith,
    transitions_filled cs (length f.transitions) (reserve b cs f),
    size_children-zero cs,
    length-reserved cs,
    length-append f.transitions (reserved cs),
  )

  pub transitions_filled :
      (cs : Children) (k : ℕ) (f : Arrays)
      → length (build_children cs k f).transitions + child_count cs
        ≡ length f.transitions + size_children cs
  transitions_filled nil k f = omega arith
  transitions_filled (child l n cs) k f = omega (
    arith,
    transitions_built n f,
    length-set_target k (build_flat n f).0 (build_flat n f).1.transitions,
    transitions_filled cs (suc k) (record (build_flat n f).1 {
      transitions = set_target k (build_flat n f).0 (build_flat n f).1.transitions;
    }),
  )
