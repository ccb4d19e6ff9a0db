-- ===== src/Semantic/Breadth.antt =====
-- The loop of `buildFailures` over the queue reaches every node within its fuel.
use lucid_gate.Prelude.{
  ℕ, zero, suc, ◌+◌, ◌≡◌, ◌<◌, ◌≤◌, inl, inr, Bool, true, false, ◌||◌, some, List, [], ◌∷◌, ◌++◌,
  Bytes, ◌==◌, if◌then◌else◌, length, map, arith, refl, sym, subst, ap, ◌∙◌, Bool-cases, ==_iff,
  append-nil, append_assoc,
}
use mathlib.Core.List.Memᴰ
use mathlib.Core.List.{map-append}
use lucid_gate.Semantic.Automaton.{Automaton, bytes_from, link_all, link_queue}
use lucid_gate.Semantic.Trie.{IsTrie, walk, walk_bounded}
use lucid_gate.Semantic.Suffixes.{target, target_word}
use lucid_gate.Semantic.Rounds.{Linked}
use lucid_gate.Semantic.Children.{edge_words, Linked-same, link_all-Linked}
use lucid_gate.Semantic.Frontier.{Frontier, with_node, pop-Frontier, next_level, all_done}

-- How many nodes below a bound are done.
abbrev pub done_below : (ℕ → Bool) → ℕ → ℕ
done_below nodes zero = 0
done_below nodes (suc i) = let rest = done_below nodes i in if nodes i then suc rest else rest

done_below_le : (nodes : ℕ → Bool) (n : ℕ) → done_below nodes n ≤ n
done_below_le nodes zero = omega arith
done_below_le nodes (suc n) = ground (arith, done_below_le nodes n)

done_below_lt : (nodes : ℕ → Bool) (n i : ℕ) → i < n → nodes i ≡ false → done_below nodes n < n
done_below_lt nodes zero i lt h = absurd (omega arith)
done_below_lt nodes (suc n) i lt h = elim (Bool-cases (i == n)) [
  | inl e ↦
      let here : nodes n ≡ false = ap nodes (sym ((==_iff i n).0 e)) ∙ h in
      ground (arith, here, done_below_le nodes n)
  | inr e ↦ ground (arith, done_below_lt nodes n i (ground (arith, lt, e)) h)
]

-- One node more.
done_below_same :
    (nodes : ℕ → Bool) (i n : ℕ)
    → n ≤ i
    → done_below (λ k. nodes k || (k == i)) n ≡ done_below nodes n
done_below_same nodes i zero le = refl
done_below_same nodes i (suc n) le =
    let other : (n == i) ≡ false = ground (arith, le) in
    ground (arith, other, done_below_same nodes i n (omega arith))

done_below_more :
    (nodes : ℕ → Bool) (i n : ℕ)
    → i < n
    → nodes i ≡ false
    → done_below (λ k. nodes k || (k == i)) n ≡ suc (done_below nodes n)
done_below_more nodes i zero lt h = absurd (omega arith)
done_below_more nodes i (suc n) lt h = elim (Bool-cases (n == i)) [
  | inl e ↦
      let here : nodes n ≡ false = ap nodes ((==_iff n i).0 e) ∙ h in
      ground (arith, e, here, done_below_same nodes i n (omega (arith, (==_iff n i).0 e)))
  | inr e ↦ ground (arith, e, done_below_more nodes i n (ground (arith, lt, e)) h)
]

link_queue-nil : (fuel : ℕ) (c : Automaton) → link_queue fuel c [] ≡ c
unfolding link_queue
link_queue-nil zero c = refl
link_queue-nil (suc fuel) c = refl

abbrev pub all_bytes : Bytes
all_bytes = bytes_from 0 256

link_queue-cons :
    (fuel : ℕ) (c : Automaton) (n : ℕ) (q : List ℕ)
    → link_queue (suc fuel) c (n ∷ q)
      ≡ link_queue fuel (link_all c n all_bytes).0 (q ++ (link_all c n all_bytes).1)
unfolding link_queue
link_queue-cons fuel c n q = refl

module _ (a : Automaton) (t : IsTrie a) (root : 0 < a.count) where
  -- All nodes are linked.
  abbrev pub AllLinked : Automaton → Type 0
  AllLinked c =
      (nodes : ℕ → Bool) × Linked a (λ i d. nodes i) c
      × ((y : Bytes) (k : ℕ) → walk a 0 y ≡ some k → nodes k ≡ true)

  abbrev queue_of : List Bytes → List ℕ
  queue_of ws = map (target a) ws

  link_one :
      (nodes : ℕ → Bool) (size d : ℕ) (y : Bytes) (n : ℕ) (level below : List Bytes) (c : Automaton)
      → walk a 0 (d ∷ y) ≡ some n
      → suc (length y) ≡ size
      → nodes n ≡ false
      → Frontier a nodes size ((d ∷ y) ∷ level) below
      → Linked a (λ i e. nodes i) c
      → Linked a (λ i e. with_node nodes n i) (link_all c n all_bytes).0
        × ((link_all c n all_bytes).1 ≡ queue_of (edge_words a (d ∷ y) n all_bytes))
  link_one nodes size d y n level below c w len waiting f l =
      let (linked, queue) =
        link_all-Linked a t nodes d y n w waiting
          (λ z k u lt. f.shorter z k u (omega (arith, lt, len))) 256 0 c (omega arith)
          (Linked-same a c _ _ (λ i e lt. ground arith) t l) in
      (Linked-same a _ _ _ (λ i e lt. ground (arith, lt)) t linked, queue)

  -- The queue after a node: the words that wait, and those that were found.
  queue_after :
      (d : ℕ) (y : Bytes) (n : ℕ) (level below : List Bytes) (q : List ℕ)
      → q ≡ queue_of (edge_words a (d ∷ y) n all_bytes)
      → queue_of (level ++ below) ++ q
        ≡ queue_of (level ++ (below ++ edge_words a (d ∷ y) n all_bytes))
  queue_after d y n level below q e =
      ap (λ q. queue_of (level ++ below) ++ q) e
      ∙ sym (map-append (target a) (level ++ below) (edge_words a (d ∷ y) n all_bytes))
      ∙ ap queue_of (append_assoc level below (edge_words a (d ∷ y) n all_bytes))

  -- What the loop does from a place in the queue, on its fuel.
  abbrev pub Finishes : ℕ → Type 0
  Finishes fuel =
      (nodes : ℕ → Bool) (size : ℕ) (level below : List Bytes) (c : Automaton)
      → Frontier a nodes (suc size) level below
      → Linked a (λ i d. nodes i) c
      → a.count ≤ fuel + done_below nodes a.count
      → AllLinked (link_queue fuel c (queue_of (level ++ below)))

  pop_one :
      (fuel : ℕ)
      → Finishes fuel
      → (nodes : ℕ → Bool) (size : ℕ) (x : Bytes) (level below : List Bytes) (c : Automaton)
      → Frontier a nodes (suc size) (x ∷ level) below
      → Linked a (λ i d. nodes i) c
      → a.count ≤ suc fuel + done_below nodes a.count
      → AllLinked (link_queue (suc fuel) c (queue_of (x ∷ (level ++ below))))
  pop_one fuel later nodes size [] level below c f l enough =
      let (n, w, len, waiting) = f.is_open [] (Memᴰ.head refl) in absurd (omega (arith, len))
  pop_one fuel later nodes size (d ∷ y) level below c f l enough =
      let (n, w, len, waiting) = f.is_open (d ∷ y) (Memᴰ.head refl) in
      let (linked, queue) = link_one nodes (suc size) d y n level below c w len waiting f l in
      let more : done_below (with_node nodes n) a.count ≡ suc (done_below nodes a.count) =
        done_below_more nodes n a.count (walk_bounded a t (d ∷ y) n root w) waiting in
      let next =
        later (with_node nodes n) size level (below ++ edge_words a (d ∷ y) n all_bytes)
          (link_all c n all_bytes).0 (pop-Frontier a t nodes (suc size) (d ∷ y) n level below w f)
          linked (omega (arith, enough, more)) in
      subst AllLinked
        (ap (λ q. link_queue fuel (link_all c n all_bytes).0 q)
            (sym (queue_after d y n level below (link_all c n all_bytes).1 queue))
          ∙ sym (link_queue-cons fuel c n (queue_of (level ++ below)))
          ∙ ap (λ n. link_queue (suc fuel) c (n ∷ queue_of (level ++ below)))
              (sym (target_word a (d ∷ y) n w)))
        next

  -- While a node waits there is fuel.
  no_fuel :
      (nodes : ℕ → Bool) (size : ℕ) (x : Bytes) (level below : List Bytes)
      → Frontier a nodes size (x ∷ level) below
      → a.count ≤ done_below nodes a.count
      → ⊥
  no_fuel nodes size x level below f enough =
      let (n, w, len, waiting) = f.is_open x (Memᴰ.head refl) in
      omega (arith, enough, done_below_lt nodes a.count n (walk_bounded a t x n root w) waiting)

  pub finishes : (fuel : ℕ) → Finishes fuel
  finishes fuel nodes size [] [] c f l enough =
      subst AllLinked (sym (link_queue-nil fuel c)) (nodes, l, all_done a t nodes (suc size) f)
  finishes zero nodes size [] (x ∷ ws) c f l enough = absurd (
      no_fuel nodes (suc (suc size)) x ws [] (next_level a t nodes (suc size) (x ∷ ws) f)
        (omega (arith, enough)))
  finishes zero nodes size (x ∷ level) below c f l enough =
      absurd (no_fuel nodes (suc size) x level below f (omega (arith, enough)))
  finishes (suc fuel) nodes size [] (x ∷ ws) c f l enough =
      subst AllLinked (ap (λ ws. link_queue (suc fuel) c (queue_of (x ∷ ws))) (append-nil ws)) (
        pop_one fuel (finishes fuel) nodes (suc size) x ws [] c
          (next_level a t nodes (suc size) (x ∷ ws) f) l enough)
  finishes (suc fuel) nodes size (x ∷ level) below c f l enough =
      pop_one fuel (finishes fuel) nodes size x level below c f l enough
