-- ===== src/Semantic/Rounds.antt =====
-- What one round of the inner loop of `buildFailures` changes, and how far the links are at it.
use lucid_gate.Prelude.{
  ℕ, ◌≡◌, ◌≢◌, ◌<◌, Bool, true, false, ◌&&◌, ◌||◌, some, [], ◌∷◌, ◌++◌, Bytes, ◌==◌, if◌then◌else◌,
  length, drop, arith, refl,
}
use lucid_gate.Semantic.Automaton.{Automaton, put_node, put_next, link}
use lucid_gate.Semantic.Trie.{next_of, walk}
use lucid_gate.Semantic.Mark.{no_mark, join, mark_of}
use lucid_gate.Semantic.Suffixes.{target, finds}

abbrev pub fail_of : Automaton → ℕ → ℕ
fail_of a n = (a.nodes n).fail

abbrev pub fallback_of : Automaton → ℕ → ℕ → ℕ
fallback_of c n b = next_of c (fail_of c n) b

pub next_of-link_missing :
    (c : Automaton) (n b i d : ℕ)
    → (next_of c n b == 0) ≡ true
    → next_of (link c n b) i d ≡ (if (i == n) && (d == b) then fallback_of c n b else next_of c i d)
unfolding link put_node put_next
next_of-link_missing c n b i d h = ground (arith, h)

pub mark_of-link_missing :
    (c : Automaton) (n b i : ℕ)
    → (next_of c n b == 0) ≡ true
    → (mark_of (link c n b) i ≡ mark_of c i) × (fail_of (link c n b) i ≡ fail_of c i)
unfolding link put_node put_next mark_of
mark_of-link_missing c n b i h = (ground (arith, h), ground (arith, h))

pub next_of-link_child :
    (c : Automaton) (n b i d : ℕ)
    → (next_of c n b == 0) ≡ false
    → next_of (link c n b) i d ≡ next_of c i d
unfolding link put_node
next_of-link_child c n b i d h = ground (arith, h)

pub mark_of-link_child :
    (c : Automaton) (n b i : ℕ)
    → (next_of c n b == 0) ≡ false
    → (mark_of (link c n b) i ≡ (
        if i == next_of c n b
        then join (mark_of c i) (mark_of c (fallback_of c n b))
        else mark_of c i))
      × (fail_of (link c n b) i ≡ (if i == next_of c n b then fallback_of c n b else fail_of c i))
unfolding link put_node mark_of join
mark_of-link_child c n b i h = (ground (arith, h), ground (arith, h))

-- How far the links of the tree `a` are: `done n b` says that the transition of `n` on `b` is final.
pub record Linked (a : Automaton) (done : ℕ → ℕ → Bool) (c : Automaton) : Type 0 where
  pub nexts :
      (x : Bytes) (n b : ℕ)
      → walk a 0 x ≡ some n
      → b < 256
      → next_of c n b ≡ (if done n b then target a (x ++ b ∷ []) else next_of a n b)
  pub marks :
      (x : Bytes) (n b : ℕ)
      → walk a 0 x ≡ some n
      → next_of a n b ≢ 0
      → mark_of c (next_of a n b)
        ≡ (if done n b then finds a (x ++ b ∷ []) else mark_of a (next_of a n b))
  pub fails :
      (x : Bytes) (n b : ℕ)
      → walk a 0 x ≡ some n
      → next_of a n b ≢ 0
      → done n b ≡ true
      → fail_of c (next_of a n b) ≡ target a (drop 1 (x ++ b ∷ []))
  pub root : mark_of c 0 ≡ no_mark

-- The transitions of all words that are shorter are final.
abbrev pub Ready : Automaton → (ℕ → ℕ → Bool) → ℕ → Type 0
Ready a done size =
    (y : Bytes) (k e : ℕ) → walk a 0 y ≡ some k → length y < size → e < 256 → done k e ≡ true

abbrev pub and_done : (ℕ → ℕ → Bool) → ℕ → ℕ → ℕ → ℕ → Bool
and_done done n b i d = done i d || ((i == n) && (d == b))

pub finds-nil : (a : Automaton) → finds a [] ≡ no_mark
unfolding finds
finds-nil a = refl
