-- ===== src/Semantic/Failures.antt =====
-- What `buildFailures` makes of the tree of the phrases.
use lucid_gate.Prelude.{
  ℕ, ◌≡◌, ◌≢◌, ◌<◌, inl, inr, some, [], ◌∷◌, ◌++◌, Bytes, ◌==◌, length, map, append-nil, arith,
  refl, sym, subst, ap, ◌∙◌, Bool-cases, ==_iff,
}
use mathlib.Core.List.{Memᴰ}
use mathlib.Core.List.Memᴰ
use lucid_gate.Semantic.Automaton.{Automaton, queue_root, link_queue, build_failures}
use lucid_gate.Semantic.Trie.{
  length-snoc, some_injective, next_of, IsTrie, walk, walk-nil, walk-cases, walk_next,
}
use lucid_gate.Semantic.Mark.{no_mark, mark_of}
use lucid_gate.Semantic.Suffixes.{longest, target, walk-target, target-snoc, finds}
use lucid_gate.Semantic.Links.{mark_of-target}
use lucid_gate.Semantic.Children.{AllFit, edge_words, queue_root-Rooted, Rooted-Linked}
use lucid_gate.Semantic.Frontier.{Frontier}
use lucid_gate.Semantic.Edges.{edge_words-Mem, Mem-edge_words, edge_words-AreDistinct}
use lucid_gate.Semantic.Breadth.{AllLinked, finishes, all_bytes}

module _ (a : Automaton) (t : IsTrie a) where
  empty_word : (z : Bytes) → length z ≡ 0 → z ≡ []
  empty_word [] h = refl
  empty_word (c ∷ z) h = absurd (omega (arith, h))

  root_of : (z : Bytes) (k : ℕ) → walk a 0 z ≡ some k → length z ≡ 0 → k ≡ 0
  root_of z k w e =
      some_injective k 0 (sym w ∙ ap (λ z. walk a 0 z) (empty_word z e) ∙ walk-nil a 0)

  root_only_empty : (z : Bytes) (k : ℕ) → walk a 0 z ≡ some k → k ≡ 0 → length z ≡ 0
  root_only_empty z k w e = elim (walk-cases a z k w) [
    | inl (h, n) ↦ ap (λ l. length l) h
    | inr (s, b, i, h, v, next, pos) ↦ absurd (pos e)
  ]

  -- The loop starts with the root done and its children in the queue.
  start : Frontier a (λ i. i == 0) 1 (edge_words a [] 0 all_bytes) []
  start = record {
    shorter = λ y k v lt. ground (arith, root_of y k v (omega (arith, lt)));
    waits = λ y k v e h. elim (walk-cases a y k v) [
      | inl (n, z) ↦ absurd (omega (arith, e, ap (λ l. length l) n))
      | inr (z, b, i, eq, w, next, pos) ↦
          let len : length z ≡ 0 = omega (arith, e, ap (λ l. length l) eq, length-snoc z b) in
          let i_root = root_of z i w len in
          let edge : next_of a 0 b ≢ 0 = λ n. pos (sym next ∙ ap (λ i. next_of a i b) i_root ∙ n) in
          subst (λ y. Memᴰ y (edge_words a [] 0 all_bytes))
            (ap (λ z. z ++ b ∷ []) (sym (empty_word z len)) ∙ sym eq)
            (Mem-edge_words a [] 0 256 0 b edge (omega arith) (t.bytes 0 b edge))
    ];
    deeper = λ y k v lt. elim (Bool-cases (k == 0)) [
      | inl e ↦ absurd (omega (arith, lt, root_only_empty y k v ((==_iff k 0).0 e)))
      | inr e ↦ e
    ];
    is_open = λ y h.
        let (b, eq, edge, le) = edge_words-Mem a [] 0 256 0 y h in
        (
          next_of a 0 b,
          ap (λ y. walk a 0 y) eq ∙ walk_next a [] b 0 (walk-nil a 0) edge,
          ap (λ y. length y) eq,
          ground (arith, edge),
        );
    found = λ z k b v e h g. absurd (omega (arith, e, root_only_empty z k v ((==_iff k 0).0 g)));
    comes_from = λ y h. absurd (Memᴰ.not-nil h);
    level_distinct = edge_words-AreDistinct a [] 0 256 0;
    below_distinct = tt;
  }

  build_failures-AllLinked :
      (root : 0 < a.count)
      → AllFit a
      → mark_of a 0 ≡ no_mark
      → AllLinked a t root (build_failures a)
  unfolding build_failures
  build_failures-AllLinked root fits unmarked =
      let (rooted, queue) = queue_root-Rooted a t 256 0 a (omega arith) (record {
        nexts = λ i b. refl;
        marks = λ i. refl;
        fails = λ b lt h. absurd (omega (arith, lt));
      }) in
      subst (AllLinked a t root)
        (ap (λ q. link_queue a.count (queue_root a all_bytes).0 q)
          (ap (λ ws. map (target a) ws) (append-nil (edge_words a [] 0 all_bytes)) ∙ sym queue))
        (finishes a t root a.count (λ i. i == 0) 0 (edge_words a [] 0 all_bytes) []
          (queue_root a all_bytes).0 start
          (Rooted-Linked a t (queue_root a all_bytes).0 fits unmarked rooted) (omega arith))

  module _ (root : 0 < a.count) (fits : AllFit a) (unmarked : mark_of a 0 ≡ no_mark) where
    -- After a text the automaton stands at the longest suffix that is a word of the tree.
    pub next_of-build_failures :
        (s : Bytes) (b : ℕ)
        → b < 256
        → next_of (build_failures a) (target a s) b ≡ target a (s ++ b ∷ [])
    next_of-build_failures s b byte =
        let (nodes, l, all) = build_failures-AllLinked root fits unmarked in
        l.nexts (longest a s) (target a s) b (walk-target a s) byte
        ∙ ground (arith, all (longest a s) (target a s) (walk-target a s))
        ∙ sym (target-snoc a s b)

    -- The mark there is that of all suffixes.
    pub mark_of-build_failures : (s : Bytes) → mark_of (build_failures a) (target a s) ≡ finds a s
    mark_of-build_failures s =
        let (nodes, l, all) = build_failures-AllLinked root fits unmarked in
        mark_of-target a t (λ i d. nodes i) (build_failures a) l s (length s)
          (λ y k e w lt byte. all y k w) (omega arith)
