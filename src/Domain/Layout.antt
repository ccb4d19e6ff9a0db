-- ===== src/Domain/Layout.antt =====
-- What it means that the arrays hold a trie, and how much of the arrays may change meanwhile.
use lucid_gate.Prelude.{
  ℕ, suc, ◌≤◌, ◌<◌, ◌≡◌, some, List, arith, ◌∙◌, length, get_elem?, lt-length_of_get_elem?,
}
use lucid_gate.Domain.Builder.{BuilderNode, Children, node, nil, child}
use lucid_gate.Domain.Flat.{Arrays, child_count}

-- The entries of `xs` from `lo` on stand in `ys` too.
abbrev pub Keeps {ℓ} : {A : Type ℓ} → ℕ → List A → List A → Type ℓ
Keeps lo xs ys = (i : ℕ) → lo ≤ i → i < length xs → get_elem? ys i ≡ get_elem? xs i

-- Where the transitions of a node with children begin.
abbrev pub From : ℕ → ℕ → Children → Type 0
From t first nil = Unit {0}
From t first (child l n cs) = t ≤ first

-- `f` holds a node at the index `i`, with nothing of it below `a` and `t`.
abbrev mutual
  pub Holds : ℕ → ℕ → Arrays → ℕ → BuilderNode → Type 0
  Holds a t f i (node b cs) =
      (first : ℕ) × (a ≤ i)
      × From t first cs
      × (get_elem? f.nodes i
          ≡ some (record { blocked = b; first_child = first; child_count = child_count cs }))
      × HoldsChildren a t f first cs

  -- `f` holds the transitions to the children from the index `k` on.
  pub HoldsChildren : ℕ → ℕ → Arrays → ℕ → Children → Type 0
  HoldsChildren a t f k nil = Unit {0}
  HoldsChildren a t f k (child l n cs) =
      (i : ℕ) × (get_elem? f.transitions k ≡ some (record { label = l; node = i }))
      × Holds a t f i n
      × HoldsChildren a t f (suc k) cs

pub From-any : (t k : ℕ) (cs : Children) → t ≤ k → From t k cs
From-any t k nil h = tt
From-any t k (child l n cs) h = h

From-weaken : (t s first : ℕ) (cs : Children) → s ≤ t → From t first cs → From s first cs
From-weaken t s first nil h p = tt
From-weaken t s first (child l n cs) h p = omega arith

mutual
  pub Holds-weaken :
      (a t b s : ℕ) (f : Arrays) (i : ℕ) (n : BuilderNode)
      → b ≤ a
      → s ≤ t
      → Holds a t f i n
      → Holds b s f i n
  Holds-weaken a t b s f i (node c cs) p q h = (
    h.0,
    omega arith,
    From-weaken t s h.0 cs q h.2,
    h.3,
    HoldsChildren-weaken a t b s f h.0 cs p q h.4,
  )

  pub HoldsChildren-weaken :
      (a t b s : ℕ) (f : Arrays) (k : ℕ) (cs : Children)
      → b ≤ a
      → s ≤ t
      → HoldsChildren a t f k cs
      → HoldsChildren b s f k cs
  HoldsChildren-weaken a t b s f k nil p q h = tt
  HoldsChildren-weaken a t b s f k (child l n cs) p q h = (
    h.0,
    h.1,
    Holds-weaken a t b s f h.0 n p q h.2,
    HoldsChildren-weaken a t b s f (suc k) cs p q h.3,
  )

module _ (a t : ℕ) (f g : Arrays) (ns : Keeps a f.nodes g.nodes)
    (ts : Keeps t f.transitions g.transitions) where
  mutual
    -- What the arrays hold depends on the entries from the bounds on alone.
    pub Holds-keeps : (i : ℕ) (n : BuilderNode) → Holds a t f i n → Holds a t g i n
    Holds-keeps i (node c cs) h = (
      h.0,
      h.1,
      h.2,
      ns i h.1 (lt-length_of_get_elem? f.nodes i _ h.3) ∙ h.3,
      HoldsChildren-keeps h.0 cs h.2 h.4,
    )

    pub HoldsChildren-keeps :
        (k : ℕ) (cs : Children) → From t k cs → HoldsChildren a t f k cs → HoldsChildren a t g k cs
    HoldsChildren-keeps k nil p h = tt
    HoldsChildren-keeps k (child l n cs) p h = (
      h.0,
      ts k p (lt-length_of_get_elem? f.transitions k _ h.1) ∙ h.1,
      Holds-keeps h.0 n h.2,
      HoldsChildren-keeps (suc k) cs (From-any t (suc k) cs (omega arith)) h.3,
    )
