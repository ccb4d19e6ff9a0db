-- ===== src/Domain/Builder.antt =====
-- proxy/domain_rules.go: the trie that `Add` grows. A Go map has no order: the children are kept
-- in the order of their labels, the one in which `Compile` reads them.
use lucid_gate.Prelude.{
  Bool, true, false, ◌||◌, Option, none, some, List, [], ◌∷◌, Bytes, if◌then◌else◌,
}
use lucid_gate.Text.{◌=ᵇ◌, ◌≺◌}

mutual
  pub data BuilderNode : Type 0 where
    node : Bool → Children → BuilderNode

  pub data Children : Type 0 where
    nil : Children
    child : Bytes → BuilderNode → Children → Children

abbrev pub blocked : BuilderNode → Bool
blocked (node b cs) = b

abbrev pub children : BuilderNode → Children
children (node b cs) = cs

abbrev pub new_node : BuilderNode
new_node = node false nil

-- `node.children[label]`, made if it is missing, with `f` applied to it.
unfoldable pub update_child : Bytes → (BuilderNode → BuilderNode) → Children → Children
unfolding ◌=ᵇ◌ ◌≺◌
update_child l f nil = child l (f new_node) nil
update_child l f (child k n cs) =
    if l =ᵇ k
    then child k (f n) cs
    else if l ≺ k
    then child l (f new_node) (child k n cs)
    else child k n (update_child l f cs)

-- The loop of `Add`, over the labels from the last to the first.
unfoldable pub insert_path : List Bytes → BuilderNode → BuilderNode
unfolding update_child
insert_path [] (node b cs) = node true cs
insert_path (l ∷ ls) (node b cs) = node b (update_child l (insert_path ls) cs)

unfoldable pub find_child : Bytes → Children → Option BuilderNode
unfolding ◌=ᵇ◌
find_child l nil = none
find_child l (child k n cs) = if l =ᵇ k then some n else find_child l cs

-- The first blocked node on the way down.
unfoldable pub walk : List Bytes → BuilderNode → Bool
unfolding find_child
walk [] n = blocked n
walk (l ∷ ls) n = elim (find_child l (children n)) [
  | none ↦ false
  | some c ↦ blocked c || walk ls c
]
