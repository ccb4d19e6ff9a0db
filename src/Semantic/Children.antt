-- ===== src/Semantic/Children.antt =====
-- The loops of `buildFailures` over the bytes, for one node and for the root.
use lucid_gate.Prelude.{
  ℕ, zero, suc, ◌+◌, ◌≡◌, ◌≢◌, ◌<◌, inl, inr, Bool, true, false, ◌&&◌, ◌||◌, some, List, [], ◌∷◌,
  ◌++◌, Bytes, ◌==◌, ltb, if◌then◌else◌, length, drop, map, arith, refl, sym, subst, ap, ◌∙◌,
  Bool-cases, ==_iff,
}
use lucid_gate.Semantic.Automaton.{Automaton, put_node, link, link_all, bytes_from, queue_root}
use lucid_gate.Semantic.Trie.{
  next_of, IsTrie, walk, walk-nil, walk_injective, walk_next, walk_missing,
}
use lucid_gate.Semantic.Mark.{no_mark, join, mark_of, Fits, join_right}
use lucid_gate.Semantic.Suffixes.{target, finds, target_word, target_missing, finds_word}
use lucid_gate.Semantic.Rounds.{Linked, and_done, fail_of, finds-nil}
use lucid_gate.Semantic.Links.{link-Linked}

-- The words one byte longer, for the bytes of a list.
abbrev pub edge_words : Automaton → Bytes → ℕ → Bytes → List Bytes
edge_words a x n [] = []
edge_words a x n (b ∷ bs) =
    let rest = edge_words a x n bs in if next_of a n b == 0 then rest else (x ++ b ∷ []) ∷ rest

-- The nodes that are done, and the one whose bytes are done up to some byte.
abbrev pub up_to : (ℕ → Bool) → ℕ → ℕ → ℕ → ℕ → Bool
up_to nodes n s i d = nodes i || ((i == n) && ltb d s)

pub Linked-same :
    (a c : Automaton) (f g : ℕ → ℕ → Bool)
    → ((i d : ℕ) → d < 256 → f i d ≡ g i d)
    → IsTrie a
    → Linked a f c
    → Linked a g c
Linked-same a c f g same t l = record {
  nexts = λ x n b w h. ground (arith, l.nexts x n b w h, same n b h);
  marks = λ x n b w h. ground (arith, l.marks x n b w h, same n b (t.bytes n b h));
  fails = λ x n b w h e. l.fails x n b w h (same n b (t.bytes n b h) ∙ e);
  root = l.root;
}

-- A child in front of the queue, if there is one.
joined_queue :
    (a : Automaton) (n m : ℕ) (q : List ℕ) (y : Bytes) (ws : List Bytes)
    → n ≡ m
    → ((m == 0) ≡ false → target a y ≡ m)
    → q ≡ map (target a) ws
    → (if n == 0 then q else n ∷ q) ≡ map (target a) (if m == 0 then ws else y ∷ ws)
joined_queue a n m q y ws h there k = elim (Bool-cases (m == 0)) [
  | inl e ↦ rw (h, e) k
  | inr e ↦ rw (h, e) (ap (λ q. m ∷ q) k ∙ ap (λ n. n ∷ map (target a) ws) (sym (there e)))
]

module _ (a : Automaton) (t : IsTrie a) (nodes : ℕ → Bool) (d : ℕ) (x : Bytes) (n : ℕ)
    (w : walk a 0 (d ∷ x) ≡ some n) (waiting : nodes n ≡ false)
    (ready : (y : Bytes) (k : ℕ)
      → walk a 0 y ≡ some k
      → length y < suc (length x)
      → nodes k ≡ true) where
  abbrev pub queued : List Bytes → List ℕ
  queued ws = map (target a) ws

  pub link_all-Linked :
      (m s : ℕ) (c : Automaton)
      → s + m ≡ 256
      → Linked a (up_to nodes n s) c
      → Linked a (up_to nodes n 256) (link_all c n (bytes_from s m)).0
        × ((link_all c n (bytes_from s m)).1 ≡ queued (edge_words a (d ∷ x) n (bytes_from s m)))
  unfolding link_all bytes_from
  link_all-Linked zero s c e l = (subst (λ s. Linked a (up_to nodes n s) c) (omega arith) l, refl)
  link_all-Linked (suc m) s c e l =
      let byte : s < 256 = omega arith in
      let open_edge : up_to nodes n s n s ≡ false = ground (arith, waiting) in
      let next : Linked a (and_done (up_to nodes n s) n s) (link c n s) =
        link-Linked a t (up_to nodes n s) c l d x n s w byte open_edge
          (λ y k f v lt h. ground (arith, ready y k v lt)) in
      let then_next : Linked a (up_to nodes n (suc s)) (link c n s) =
        Linked-same a (link c n s) _ (up_to nodes n (suc s)) (λ i f h. ground arith) t next in
      let rest = link_all-Linked m (suc s) (link c n s) (omega arith) then_next in
      let child : next_of c n s ≡ next_of a n s =
        l.nexts (d ∷ x) n s w byte ∙ ground (arith, open_edge) in
      (
        rest.0,
        joined_queue a (next_of c n s) (next_of a n s) _ (d ∷ (x ++ s ∷ [])) _ child
            (λ e.
              target_word a (d ∷ (x ++ s ∷ [])) (next_of a n s)
                (walk_next a (d ∷ x) s n w (λ z. ground (arith, e, z))))
            rest.1,
      )

-- The scores of the tree are int32.
abbrev pub AllFit : Automaton → Type 0
AllFit a = (x : Bytes) (n : ℕ) → walk a 0 x ≡ some n → Fits (mark_of a n)

-- The tree with the failure links of the children of the root, up to a byte.
pub record Rooted (a : Automaton) (s : ℕ) (c : Automaton) : Type 0 where
  pub nexts : (i b : ℕ) → next_of c i b ≡ next_of a i b
  pub marks : (i : ℕ) → mark_of c i ≡ mark_of a i
  pub fails : (b : ℕ) → b < s → next_of a 0 b ≢ 0 → fail_of c (next_of a 0 b) ≡ 0

abbrev pub rooted_step : Automaton → ℕ → Automaton
rooted_step c b =
    let child = next_of c 0 b in
    if child == 0 then c else put_node child (record (c.nodes child) { fail = 0 }) c

rooted_step-Rooted :
    (a : Automaton) (s : ℕ) (c : Automaton) → Rooted a s c → Rooted a (suc s) (rooted_step c s)
unfolding put_node mark_of
rooted_step-Rooted a s c r = record {
  nexts = λ i b. ground (arith, r.nexts i b);
  marks = λ i. ground (arith, r.marks i);
  fails = λ b lt h. ground (arith, r.nexts 0 b, r.nexts 0 s, r.fails b, lt, h);
}

module _ (a : Automaton) (t : IsTrie a) where
  pub queue_root-Rooted :
      (m s : ℕ) (c : Automaton)
      → s + m ≡ 256
      → Rooted a s c
      → Rooted a 256 (queue_root c (bytes_from s m)).0
        × ((queue_root c (bytes_from s m)).1 ≡ map (target a) (edge_words a [] 0 (bytes_from s m)))
  unfolding queue_root bytes_from
  queue_root-Rooted zero s c e r = (subst (λ s. Rooted a s c) (omega arith) r, refl)
  queue_root-Rooted (suc m) s c e r =
      let rest =
        queue_root-Rooted m (suc s) (rooted_step c s) (omega arith) (rooted_step-Rooted a s c r) in
      let child : next_of c 0 s ≡ next_of a 0 s = r.nexts 0 s in
      (
        rest.0,
        joined_queue a (next_of c 0 s) (next_of a 0 s) _ (s ∷ []) _ child
            (λ e.
              target_word a (s ∷ []) (next_of a 0 s)
                (walk_next a [] s 0 (walk-nil a 0) (λ z. ground (arith, e, z))))
            rest.1,
      )

  root_target : (b : ℕ) → target a (b ∷ []) ≡ next_of a 0 b
  root_target b = elim (Bool-cases (next_of a 0 b == 0)) [
    | inl e ↦
        let gone = (==_iff (next_of a 0 b) 0).0 e in
        target_missing a b [] (walk_missing a [] b 0 (walk-nil a 0) gone)
        ∙ target_word a [] 0 (walk-nil a 0)
        ∙ sym gone
    | inr e ↦
        target_word a (b ∷ []) (next_of a 0 b)
          (walk_next a [] b 0 (walk-nil a 0) (λ z. ground (arith, e, z)))
  ]

  root_finds : (b : ℕ) → AllFit a → next_of a 0 b ≢ 0 → finds a (b ∷ []) ≡ mark_of a (next_of a 0 b)
  root_finds b fits h =
      finds_word a b [] (next_of a 0 b) (walk_next a [] b 0 (walk-nil a 0) h)
      ∙ ap (join (mark_of a (next_of a 0 b))) (finds-nil a)
      ∙ join_right (mark_of a (next_of a 0 b))
          (fits (b ∷ []) (next_of a 0 b) (walk_next a [] b 0 (walk-nil a 0) h))

  root_only_word : (x : Bytes) (n : ℕ) → walk a 0 x ≡ some n → n ≡ 0 → x ≡ []
  root_only_word x n w z = walk_injective a t x [] 0 (w ∙ ap (λ n. some n) z) (walk-nil a 0)

  pub Rooted-Linked :
      (c : Automaton)
      → AllFit a
      → mark_of a 0 ≡ no_mark
      → Rooted a 256 c
      → Linked a (λ i b. i == 0) c
  Rooted-Linked c fits unmarked r = record {
    nexts = λ x n b w h. r.nexts n b ∙ (elim (Bool-cases (n == 0)) [
      | inl e ↦
          let z = (==_iff n 0).0 e in
          let value : target a (x ++ b ∷ []) ≡ next_of a n b =
            ap (λ x. target a (x ++ b ∷ [])) (root_only_word x n w z)
            ∙ root_target b
            ∙ ap (λ n. next_of a n b) (sym z) in
          ground (arith, e, value)
      | inr e ↦ ground (arith, e)
    ]);
    marks = λ x n b w h. r.marks (next_of a n b) ∙ (elim (Bool-cases (n == 0)) [
      | inl e ↦
          let z = (==_iff n 0).0 e in
          let value : finds a (x ++ b ∷ []) ≡ mark_of a (next_of a 0 b) =
            ap (λ x. finds a (x ++ b ∷ [])) (root_only_word x n w z)
            ∙ root_finds b fits (λ k. h (ap (λ n. next_of a n b) z ∙ k)) in
          let here = ap (λ n. mark_of a (next_of a n b)) z in ground (arith, e, value, here)
      | inr e ↦ ground (arith, e)
    ]);
    fails = λ x n b w h e.
        let z = (==_iff n 0).0 e in
        ap (λ n. fail_of c (next_of a n b)) z
        ∙ r.fails b (t.bytes n b h) (λ k. h (ap (λ n. next_of a n b) z ∙ k))
        ∙ sym (target_word a [] 0 (walk-nil a 0))
        ∙ ap (λ x. target a (drop 1 (x ++ b ∷ []))) (sym (root_only_word x n w z));
    root = r.marks 0 ∙ unmarked;
  }
