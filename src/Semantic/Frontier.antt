-- ===== src/Semantic/Frontier.antt =====
-- The queue of `buildFailures` goes through the tree level by level.
use lucid_gate.Prelude.{
  ℕ, zero, suc, ◌≡◌, ◌≢◌, ◌<◌, ◌≤◌, inl, inr, Bool, true, false, ◌||◌, some, List, [], ◌∷◌, ◌++◌,
  Bytes, ◌==◌, length, arith, refl, sym, subst, ap, ◌∙◌, Bool-cases, ==_iff, ltb, ltb→lt,
}
use mathlib.Core.List.{Memᴰ}
use mathlib.Core.List.Memᴰ
use lucid_gate.Semantic.Automaton.{Automaton, bytes_from}
use lucid_gate.Semantic.Trie.{
  length-snoc, some_injective, next_of, IsTrie, walk, walk-cases, walk_injective, walk_next,
}
use lucid_gate.Semantic.Children.{edge_words}
use lucid_gate.Semantic.Edges.{
  AreDistinct, AreDistinct-append, snoc_injective, edge_words-Mem, Mem-edge_words,
  edge_words-AreDistinct,
}

-- Where the queue stands in the tree: nodes of shorter words are done, `level` are the words of a length
-- that wait, and `below` the words one longer that were found.
pub record Frontier (a : Automaton) (nodes : ℕ → Bool) (size : ℕ) (level below : List Bytes)
    : Type 0 where
  pub shorter : (y : Bytes) (k : ℕ) → walk a 0 y ≡ some k → length y < size → nodes k ≡ true
  pub waits :
      (y : Bytes) (k : ℕ) → walk a 0 y ≡ some k → length y ≡ size → nodes k ≡ false → Memᴰ y level
  pub deeper : (y : Bytes) (k : ℕ) → walk a 0 y ≡ some k → size < length y → nodes k ≡ false
  pub is_open :
      (y : Bytes)
      → Memᴰ y level
      → (k : ℕ) × (walk a 0 y ≡ some k) × (length y ≡ size) × (nodes k ≡ false)
  pub found :
      (z : Bytes) (k b : ℕ)
      → walk a 0 z ≡ some k
      → length z ≡ size
      → next_of a k b ≢ 0
      → nodes k ≡ true
      → Memᴰ (z ++ b ∷ []) below
  pub comes_from :
      (y : Bytes)
      → Memᴰ y below
      → (z : Bytes) × (b k : ℕ) × (y ≡ z ++ b ∷ [])
        × (walk a 0 z ≡ some k)
        × (length z ≡ size)
        × (nodes k ≡ true)
        × (next_of a k b ≢ 0)
  pub level_distinct : AreDistinct level
  pub below_distinct : AreDistinct below

-- One node more is done.
abbrev pub with_node : (ℕ → Bool) → ℕ → ℕ → Bool
with_node nodes n i = nodes i || (i == n)

module _ (a : Automaton) (t : IsTrie a) where
  pub pop-Frontier :
      (nodes : ℕ → Bool) (size : ℕ) (x : Bytes) (n : ℕ) (level below : List Bytes)
      → walk a 0 x ≡ some n
      → Frontier a nodes size (x ∷ level) below
      → Frontier a (with_node nodes n) size level (below ++ edge_words a x n (bytes_from 0 256))
  pop-Frontier nodes size x n level below w f =
      let (n2, w2, len, waiting) = f.is_open x (Memᴰ.head refl) in
      let same : n2 ≡ n = some_injective n2 n (sym w2 ∙ w) in
      let closed : nodes n ≡ false = ap nodes (sym same) ∙ waiting in
      let is_x : (y : Bytes) (k : ℕ) → walk a 0 y ≡ some k → k ≡ n → y ≡ x =
        λ y k v e. walk_injective a t y x n (v ∙ ap (λ k. some k) e) w in
      record {
        shorter = λ y k v lt. ground (arith, f.shorter y k v lt);
        waits = λ y k v e h. elim (Memᴰ.cases_cons (f.waits y k v e (ground (arith, h)))) [
          | inl here ↦
              let it : k ≡ n = some_injective k n (sym v ∙ ap (λ y. walk a 0 y) here ∙ w) in
              absurd (ground (arith, h, it))
          | inr there ↦ there
        ];
        deeper = λ y k v lt. elim (Bool-cases (k == n)) [
          | inl e ↦
              absurd (omega (arith, ap (λ l. length l) (is_x y k v ((==_iff k n).0 e)), len, lt))
          | inr e ↦ ground (arith, e, f.deeper y k v lt)
        ];
        is_open = λ y h.
            let (k, v, e, o) = f.is_open y (Memᴰ.tail h) in
            (
              k,
              v,
              e,
              elim (Bool-cases (k == n)) [
                | inl z ↦ absurd (
                    f.level_distinct.0
                      (subst (λ y. Memᴰ y level) (is_x y k v ((==_iff k n).0 z)) h))
                | inr z ↦ ground (arith, z, o)
              ],
            );
        found = λ z k b v e h g. elim (Bool-cases (k == n)) [
          | inl it ↦
              let now = (==_iff k n).0 it in
              subst (λ z. Memᴰ (z ++ b ∷ []) (below ++ edge_words a x n (bytes_from 0 256)))
                (sym (is_x z k v now))
                (Memᴰ.append_right below (
                  Mem-edge_words a x n 256 0 b (λ e. h (ap (λ k. next_of a k b) now ∙ e))
                    (omega arith) (t.bytes k b h)))
          | inr other ↦
              Memᴰ.append_left (edge_words a x n (bytes_from 0 256))
                (f.found z k b v e h (ground (arith, g, other)))
        ];
        comes_from = λ y h. elim (Memᴰ.append_cases below h) [
          | inl old ↦
              let (z, b, k, eq, v, e, done, edge) = f.comes_from y old in
              (z, b, k, eq, v, e, ground (arith, done), edge)
          | inr new ↦
              let (b, eq, edge, le) = edge_words-Mem a x n 256 0 y new in
              (x, b, n, eq, w, len, ground arith, edge)
        ];
        level_distinct = f.level_distinct.1;
        below_distinct =
            AreDistinct-append below (edge_words a x n (bytes_from 0 256)) f.below_distinct
              (edge_words-AreDistinct a x n 256 0)
              λ y old new.
                let (z, b, k, eq, v, e, done, edge) = f.comes_from y old in
                let (b2, eq2, edge2, le) = edge_words-Mem a x n 256 0 y new in
                let word = (snoc_injective z x b b2 (sym eq ∙ eq2)).0 in
                let it = some_injective k n (sym v ∙ ap (λ z. walk a 0 z) word ∙ w) in
                absurd (ground (arith, done, closed, ap nodes it));
      }

  -- A level is through: the words that were found are the next one.
  pub next_level :
      (nodes : ℕ → Bool) (size : ℕ) (below : List Bytes)
      → Frontier a nodes size [] below
      → Frontier a nodes (suc size) below []
  next_level nodes size below f =
      let through : (y : Bytes) (k : ℕ) → walk a 0 y ≡ some k → length y ≡ size → nodes k ≡ true =
        λ y k v e. elim (Bool-cases (nodes k)) [
          | inl h ↦ h
          | inr h ↦ absurd (Memᴰ.not-nil (f.waits y k v e h))
        ] in
      record {
        shorter = λ y k v lt. elim (Bool-cases (length y == size)) [
          | inl e ↦ through y k v ((==_iff (length y) size).0 e)
          | inr e ↦ f.shorter y k v (ground (arith, e, lt))
        ];
        waits = λ y k v e h. elim (walk-cases a y k v) [
          | inl (none_left, z) ↦ absurd (omega (arith, e, ap (λ l. length l) none_left))
          | inr (z, b, i, eq, w, next, pos) ↦
              let len : length z ≡ size =
                omega (arith, e, ap (λ l. length l) eq, length-snoc z b) in
              subst (λ y. Memᴰ y below) (sym eq)
                (f.found z i b w len (λ e. pos (sym next ∙ e)) (through z i w len))
        ];
        deeper = λ y k v lt. f.deeper y k v (omega (arith, lt));
        is_open = λ y h.
            let (z, b, k, eq, v, e, done, edge) = f.comes_from y h in
            let there : walk a 0 y ≡ some (next_of a k b) =
              ap (λ y. walk a 0 y) eq ∙ walk_next a z b k v edge in
            let len : length y ≡ suc size =
              omega (arith, e, ap (λ l. length l) eq, length-snoc z b) in
            (next_of a k b, there, len, f.deeper y (next_of a k b) there (omega (arith, len)));
        found = λ z k b v e h g. absurd (ground (arith, g, f.deeper z k v (omega (arith, e))));
        comes_from = λ y h. absurd (Memᴰ.not-nil h);
        level_distinct = f.below_distinct;
        below_distinct = tt;
      }

  -- Nothing waits: every node is done.
  pub all_done :
      (nodes : ℕ → Bool) (size : ℕ)
      → Frontier a nodes size [] []
      → (y : Bytes) (k : ℕ) → walk a 0 y ≡ some k
      → nodes k ≡ true
  all_done nodes size f y k v = elim (Bool-cases (nodes k)) [
    | inl e ↦ e
    | inr e ↦ elim (Bool-cases (ltb (length y) size)) [
      | inl small ↦ f.shorter y k v (ltb→lt (length y) size small)
      | inr large ↦
          let le : length y ≤ size = no_deeper (suc (length y)) y k (omega arith) v in
          absurd (Memᴰ.not-nil (f.waits y k v (ground (arith, le, large)) e))
    ]
  ]
    where
      no_deeper :
          (fuel : ℕ) (y : Bytes) (k : ℕ) → length y < fuel → walk a 0 y ≡ some k → length y ≤ size
      no_deeper zero y k lt v = absurd (omega arith)
      no_deeper (suc fuel) y k lt v = elim (walk-cases a y k v) [
        | inl (e, z) ↦ omega (arith, ap (λ l. length l) e)
        | inr (z, b, i, e, w, next, pos) ↦
            let len : length y ≡ suc (length z) =
              omega (arith, ap (λ l. length l) e, length-snoc z b) in
            let le : length z ≤ size = no_deeper fuel z i (omega (arith, len)) w in
            elim (Bool-cases (length z == size)) [
              | inr other ↦ ground (arith, len, le, other)
              | inl same ↦
                  let here = (==_iff (length z) size).0 same in
                  elim (Bool-cases (nodes i)) [
                    | inl done ↦
                        absurd (Memᴰ.not-nil (f.found z i b w here (λ n. pos (sym next ∙ n)) done))
                    | inr waiting ↦ absurd (Memᴰ.not-nil (f.waits z i w here waiting))
                  ]
            ]
      ]
