-- ===== src/Semantic/Links.antt =====
-- One round of the inner loop of `buildFailures`: a transition or a failure link is put in.
use lucid_gate.Prelude.{
  ℕ, suc, ◌≡◌, ◌≢◌, ◌<◌, ◌≤◌, inl, inr, Bool, true, false, ◌&&◌, some, [], ◌∷◌, ◌++◌, Bytes, ◌==◌,
  length, drop, arith, sym, ap, ◌∙◌, Bool-cases, ==_iff,
}
use lucid_gate.Semantic.Automaton.{Automaton, link}
use lucid_gate.Semantic.Trie.{
  length-snoc, next_of, IsTrie, walk, walk-cases, walk_injective, walk_next, walk_missing,
}
use lucid_gate.Semantic.Mark.{no_mark, join, mark_of}
use lucid_gate.Semantic.Suffixes.{
  longest, target, finds, walk-target, target_word, target-snoc, target_missing, finds_word,
  finds-longest, length-longest,
}
use lucid_gate.Semantic.Rounds.{
  fail_of, fallback_of, next_of-link_missing, mark_of-link_missing, next_of-link_child,
  mark_of-link_child, Linked, Ready, and_done, finds-nil,
}

module _ (a : Automaton) (t : IsTrie a) (done : ℕ → ℕ → Bool) (c : Automaton)
    (l : Linked a done c) where
  -- The mark on the longest suffix of a text tells whether some suffix is marked.
  pub mark_of-target :
      (s : Bytes) (size : ℕ)
      → Ready a done size
      → length s ≤ size
      → mark_of c (target a s) ≡ finds a s
  mark_of-target s size ready le =
      elim (walk-cases a (longest a s) (target a s) (walk-target a s)) [
        | inl (e, z) ↦
            let empty : finds a (longest a s) ≡ no_mark = ap (finds a) e ∙ finds-nil a in
            ap (mark_of c) z ∙ l.root ∙ sym empty ∙ finds-longest a s
        | inr (x, d, k, e, w, next, pos) ↦
            let some_edge : next_of a k d ≢ 0 = λ z. pos (sym next ∙ z) in
            let shorter : length x < size =
              omega (arith, le, length-longest a s, length-snoc x d, ap (λ l. length l) e) in
            let final = ready x k d w shorter (t.bytes k d some_edge) in
            ap (mark_of c) (sym next)
            ∙ l.marks x k d w some_edge
            ∙ ground (arith, final)
            ∙ ap (finds a) (sym e)
            ∙ finds-longest a s
      ]

  module _ (d : ℕ) (x : Bytes) (n b : ℕ) (w : walk a 0 (d ∷ x) ≡ some n) (byte : b < 256)
      (open_edge : done n b ≡ false) (ready : Ready a done (suc (length x))) where
    fail_of_word : fail_of c n ≡ target a x
    fail_of_word = elim (walk-cases a (d ∷ x) n w) [
      | inl (e, z) ↦ absurd (cc)
      | inr (s, e, k, eq, v, next, pos) ↦
          let some_edge : next_of a k e ≢ 0 = λ z. pos (sym next ∙ z) in
          let shorter : length s < suc (length x) =
            omega (arith, length-snoc s e, ap (λ l. length l) eq) in
          ap (fail_of c) (sym next)
          ∙ l.fails s k e v some_edge (ready s k e v shorter (t.bytes k e some_edge))
          ∙ ap (λ l. target a (drop 1 l)) (sym eq)
    ]

    fallback_word : fallback_of c n b ≡ target a (x ++ b ∷ [])
    fallback_word =
        let final =
          ready (longest a x) (target a x) b (walk-target a x) (omega (arith, length-longest a x))
            byte in
        ap (λ k. next_of c k b) fail_of_word
        ∙ l.nexts (longest a x) (target a x) b (walk-target a x) byte
        ∙ ground (arith, final)
        ∙ sym (target-snoc a x b)

    mark_of_fallback : mark_of c (fallback_of c n b) ≡ finds a (x ++ b ∷ [])
    mark_of_fallback =
        ap (mark_of c) fallback_word
        ∙ mark_of-target (x ++ b ∷ []) (suc (length x)) ready (omega (arith, length-snoc x b))

    next_unchanged : next_of c n b ≡ next_of a n b
    next_unchanged = l.nexts (d ∷ x) n b w byte ∙ ground (arith, open_edge)

    -- The byte that is looked at, from no other word.
    this_edge :
        (y : Bytes) (i f : ℕ)
        → walk a 0 y ≡ some i
        → ((i == n) && (f == b)) ≡ true
        → (i ≡ n) × (f ≡ b) × (y ≡ d ∷ x)
    this_edge y i f v h =
        let same : i ≡ n = ground (arith, h) in
        (same, ground (arith, h), walk_injective a t y (d ∷ x) n (v ∙ ap (λ i. some i) same) w)

    link_missing : (next_of c n b == 0) ≡ true → Linked a (and_done done n b) (link c n b)
    link_missing h =
        let gone : next_of a n b ≡ 0 = sym next_unchanged ∙ (==_iff _ _).0 h in
        record {
          nexts = λ y i f v g.
              next_of-link_missing c n b i f h ∙ (elim (Bool-cases ((i == n) && (f == b))) [
                | inl this ↦
                    let (same, byte_same, word) = this_edge y i f v this in
                    let value : target a (y ++ f ∷ []) ≡ target a (x ++ b ∷ []) =
                      ap (λ y. target a (y ++ f ∷ [])) word
                      ∙ ap (λ f. target a (d ∷ (x ++ f ∷ []))) byte_same
                      ∙ target_missing a d (x ++ b ∷ []) (walk_missing a (d ∷ x) b n w gone) in
                    ground (arith, this, value, fallback_word)
                | inr other ↦ ground (arith, other, l.nexts y i f v g)
              ]);
          marks = λ y i f v g.
              let same = mark_of-link_missing c n b (next_of a i f) h in
              ground (arith, same.0, l.marks y i f v g, g, gone);
          fails = λ y i f v g e.
              let same = mark_of-link_missing c n b (next_of a i f) h in
              ground (arith, same.1, l.fails y i f v g, g, gone, e);
          root = (mark_of-link_missing c n b 0 h).0 ∙ l.root;
        }

    -- An edge leads to the child only if it is the one that is looked at.
    child_edge :
        (y : Bytes) (i f : ℕ)
        → walk a 0 y ≡ some i
        → next_of a i f ≢ 0
        → (next_of a i f == next_of c n b) ≡ true
        → (i ≡ n) × (f ≡ b) × (y ≡ d ∷ x)
    child_edge y i f v g h =
        let (same, byte_same) = t.unique i f n b g ((==_iff _ _).0 h ∙ next_unchanged) in
        this_edge y i f v (ground (arith, same, byte_same))

    other_edge :
        (i f : ℕ) → (next_of a i f == next_of c n b) ≡ false → ((i == n) && (f == b)) ≡ false
    other_edge i f h = elim (Bool-cases ((i == n) && (f == b))) [
      | inr other ↦ other
      | inl this ↦
          let same : i ≡ n = ground (arith, this) in
          let byte_same : f ≡ b = ground (arith, this) in
          let it : next_of a i f ≡ next_of c n b =
            ap (λ i. next_of a i f) same ∙ ap (λ f. next_of a n f) byte_same ∙ sym next_unchanged in
          absurd (ground (arith, it, h))
    ]

    link_child_there : (next_of c n b == 0) ≡ false → Linked a (and_done done n b) (link c n b)
    link_child_there h =
        let some_edge : next_of a n b ≢ 0 = λ z. ground (arith, h, next_unchanged, z) in
        let there = walk_next a (d ∷ x) b n w some_edge in
        let own : mark_of c (next_of a n b) ≡ mark_of a (next_of a n b) =
          l.marks (d ∷ x) n b w some_edge ∙ ground (arith, open_edge) in
        record {
          nexts = λ y i f v g.
              next_of-link_child c n b i f h ∙ (elim (Bool-cases ((i == n) && (f == b))) [
                | inl this ↦
                    let (same, byte_same, word) = this_edge y i f v this in
                    let value : target a (y ++ f ∷ []) ≡ next_of a n b =
                      ap (λ y. target a (y ++ f ∷ [])) word
                      ∙ ap (λ f. target a (d ∷ (x ++ f ∷ []))) byte_same
                      ∙ target_word a (d ∷ (x ++ b ∷ [])) (next_of a n b) there in
                    let now : next_of c i f ≡ next_of c n b =
                      ap (λ i. next_of c i f) same ∙ ap (λ f. next_of c n f) byte_same in
                    ground (arith, this, value, now, next_unchanged)
                | inr other ↦ ground (arith, other, l.nexts y i f v g)
              ]);
          marks = λ y i f v g.
              (mark_of-link_child c n b (next_of a i f) h).0
              ∙ (elim (Bool-cases (next_of a i f == next_of c n b)) [
                | inl this ↦
                    let (same, byte_same, word) = child_edge y i f v g this in
                    let child : next_of a i f ≡ next_of a n b =
                      ap (λ i. next_of a i f) same ∙ ap (λ f. next_of a n f) byte_same in
                    let hard : mark_of c (next_of a i f) ≡ mark_of a (next_of a n b) =
                      ap (mark_of c) child ∙ own in
                    let value : finds a (y ++ f ∷ [])
                        ≡ join (mark_of a (next_of a n b)) (finds a (x ++ b ∷ [])) =
                      ap (λ y. finds a (y ++ f ∷ [])) word
                      ∙ ap (λ f. finds a (d ∷ (x ++ f ∷ []))) byte_same
                      ∙ finds_word a d (x ++ b ∷ []) (next_of a n b) there in
                    ground (arith, this, same, byte_same, value, hard, mark_of_fallback)
                | inr other ↦ ground (arith, other, other_edge i f other, l.marks y i f v g)
              ]);
          fails = λ y i f v g e.
              (mark_of-link_child c n b (next_of a i f) h).1
              ∙ (elim (Bool-cases (next_of a i f == next_of c n b)) [
                | inl this ↦
                    let (same, byte_same, word) = child_edge y i f v g this in
                    let value : target a (drop 1 (y ++ f ∷ [])) ≡ target a (x ++ b ∷ []) =
                      ap (λ y. target a (drop 1 (y ++ f ∷ []))) word
                      ∙ ap (λ f. target a (x ++ f ∷ [])) byte_same in
                    ground (arith, this, value, fallback_word)
                | inr other ↦
                    ground
                      (arith, other, l.fails y i f v g (ground (arith, e, other_edge i f other)))
              ]);
          root = (mark_of-link_child c n b 0 h).0 ∙ ground (arith, h, l.root);
        }

    pub link-Linked : Linked a (and_done done n b) (link c n b)
    link-Linked = elim (Bool-cases (next_of c n b == 0)) [
      | inl h ↦ link_missing h
      | inr h ↦ link_child_there h
    ]
