-- ===== src/Domain/Paths.antt =====
-- What the builder's trie holds: the paths that were inserted.
use lucid_gate.Prelude.{
  ◌≡◌, Bool, true, false, ◌||◌, ◌&&◌, Option, none, some, List, [], ◌∷◌, Bytes, if◌then◌else◌,
  arith, refl, inl, inr, Bool-cases, Option-cases,
}
use lucid_gate.Text.{◌=ᵇ◌, ◌≺◌, =ᵇ_iff, ≺_irrefl, ≺_trans, ≺_connex}
use lucid_gate.Domain.Builder.{
  BuilderNode, Children, node, nil, child, blocked, children, new_node, update_child, insert_path,
  find_child, walk,
}

-- Every label of the children lies above `l`.
abbrev pub Above : Bytes → Children → Type 0
Above l nil = Unit {0}
Above l (child k n cs) = ((l ≺ k) ≡ true) × Above l cs

abbrev mutual
  pub IsOrdered : BuilderNode → Type 0
  IsOrdered (node b cs) = AreOrdered cs

  pub AreOrdered : Children → Type 0
  AreOrdered nil = Unit {0}
  AreOrdered (child k n cs) = Above k cs × IsOrdered n × AreOrdered cs

-- The first path is a prefix of the second.
unfoldable pub is_path_prefix : List Bytes → List Bytes → Bool
is_path_prefix [] ls = true
is_path_prefix (p ∷ ps) [] = false
is_path_prefix (p ∷ ps) (l ∷ ls) = (p =ᵇ l) && is_path_prefix ps ls

Above-trans : (j k : Bytes) (cs : Children) → (j ≺ k) ≡ true → Above k cs → Above j cs
Above-trans j k nil h a = tt
Above-trans j k (child i n cs) h a = (≺_trans j k i h a.0, Above-trans j k cs h a.1)

find_child-Above : (l : Bytes) (cs : Children) → Above l cs → find_child l cs ≡ none
unfolding find_child
find_child-Above l nil a = refl
find_child-Above l (child k n cs) a =
    ground (arith, find_child-Above l cs a.1, =ᵇ_iff l k, ≺_irrefl l)

abbrev found_or_new : Option BuilderNode → BuilderNode
found_or_new none = new_node
found_or_new (some n) = n

find_child-update_child :
    (l k : Bytes) (f : BuilderNode → BuilderNode) (cs : Children)
    → AreOrdered cs
    → find_child k (update_child l f cs)
      ≡ (if k =ᵇ l then some (f (found_or_new (find_child l cs))) else find_child k cs)
unfolding find_child update_child
find_child-update_child l k f nil o = ground arith
find_child-update_child l k f (child j n cs) o = ground (
  arith,
  find_child-update_child l k f cs o.2,
  find_child-Above l cs,
  Above-trans l j cs,
  =ᵇ_iff l j,
  =ᵇ_iff k j,
  =ᵇ_iff k l,
)

Above-update_child :
    (l j : Bytes) (f : BuilderNode → BuilderNode) (cs : Children)
    → (j ≺ l) ≡ true
    → Above j cs
    → Above j (update_child l f cs)
unfolding update_child
Above-update_child l j f nil h a = (h, tt)
Above-update_child l j f (child k n cs) h a = ground (arith, Above-update_child l j f cs h a.1)

≺_flip : (l k : Bytes) → (l =ᵇ k) ≡ false → (l ≺ k) ≡ false → (k ≺ l) ≡ true
≺_flip l k p q = elim (Bool-cases (k ≺ l)) [
  | inl h ↦ h
  | inr h ↦ ground (arith, =ᵇ_iff l k, ≺_connex l k q h)
]

module _ (l : Bytes) (f : BuilderNode → BuilderNode)
    (keeps : (n : BuilderNode) → IsOrdered n → IsOrdered (f n)) where
  AreOrdered-update_child : (cs : Children) → AreOrdered cs → AreOrdered (update_child l f cs)
  unfolding update_child
  AreOrdered-update_child nil o = (tt, keeps new_node tt, tt)
  AreOrdered-update_child (child k n cs) o = elim (Bool-cases (l =ᵇ k)) [
    | inl same ↦ rw same (o.0, keeps n o.1, o.2)
    | inr other ↦ rw other (elim (Bool-cases (l ≺ k)) [
      | inl below ↦ rw below ((below, Above-trans l k cs below o.0), keeps new_node tt, o)
      | inr above ↦ rw above (
        Above-update_child l k f cs (≺_flip l k other above) o.0,
        o.1,
        AreOrdered-update_child cs o.2,
      )
    ])
  ]

pub insert_path-IsOrdered :
    (ls : List Bytes) (n : BuilderNode) → IsOrdered n → IsOrdered (insert_path ls n)
unfolding insert_path
insert_path-IsOrdered [] (node b cs) o = o
insert_path-IsOrdered (l ∷ ls) (node b cs) o =
    AreOrdered-update_child l (insert_path ls) (insert_path-IsOrdered ls) cs o

pub find_child-IsOrdered :
    (l : Bytes) (cs : Children) (n : BuilderNode)
    → AreOrdered cs
    → find_child l cs ≡ some n
    → IsOrdered n
unfolding find_child
find_child-IsOrdered l nil n o h = cc
find_child-IsOrdered l (child k m cs) n o h = ground (arith, find_child-IsOrdered l cs n o.2)

-- `n`, or a node on the way down from it, is blocked.
abbrev pub hits : List Bytes → BuilderNode → Bool
hits ls n = blocked n || walk ls n

pub walk-new_node : (ls : List Bytes) → walk ls new_node ≡ false
unfolding walk
walk-new_node [] = refl
walk-new_node (l ∷ ls) = refl

abbrev reached : List Bytes → Option BuilderNode → Bool
reached ls none = false
reached ls (some c) = hits ls c

walk-reached :
    (l : Bytes) (ls : List Bytes) (n : BuilderNode)
    → walk (l ∷ ls) n ≡ reached ls (find_child l (children n))
unfolding walk
walk-reached l ls n = ground arith

hits-found_or_new :
    (ls : List Bytes) (o : Option BuilderNode) → hits ls (found_or_new o) ≡ reached ls o
hits-found_or_new ls none = walk-new_node ls
hits-found_or_new ls (some c) = refl

found_or_new-IsOrdered :
    (l : Bytes) (cs : Children) → AreOrdered cs → IsOrdered (found_or_new (find_child l cs))
found_or_new-IsOrdered l cs o = elim (Option-cases (find_child l cs)) [
  | inl e ↦ rw e tt
  | inr (n, e) ↦ rw e (find_child-IsOrdered l cs n o e)
]

-- One insertion adds one path.
pub hits-insert_path :
    (ps ls : List Bytes) (n : BuilderNode)
    → IsOrdered n
    → hits ls (insert_path ps n) ≡ (hits ls n || is_path_prefix ps ls)
unfolding insert_path is_path_prefix
hits-insert_path [] ls (node b cs) o = ground arith
hits-insert_path (p ∷ ps) [] (node b cs) o = unfold walk in ground arith
hits-insert_path (p ∷ ps) (l ∷ ls) (node b cs) o =
    rw (walk-reached l ls (node b (update_child p (insert_path ps) cs))) (
      rw (walk-reached l ls (node b cs), find_child-update_child p l (insert_path ps) cs o)
        (ground (
          arith,
          =ᵇ_iff l p,
          =ᵇ_iff p l,
          hits-insert_path ps ls (found_or_new (find_child p cs)) (found_or_new-IsOrdered p cs o),
          hits-found_or_new ls (find_child p cs),
        )))
