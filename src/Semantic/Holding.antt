-- ===== src/Semantic/Holding.antt =====
-- The tree that `addPhrase` grows: its marks are where its phrases end.
use lucid_gate.Prelude.{
  ℕ, suc, ◌≡◌, ◌<◌, ◌≤◌, inl, inr, true, false, some, List, [], ◌∷◌, Bytes, ◌==◌, if◌then◌else◌,
  All, arith, refl, sym, ap, ◌∙◌, Bool, ℤ, pos, negsuc, map, subst, Bool-cases, ==_iff, ltb, ltb→lt,
}
use lucid_gate.Text.{Unicode, is_empty, ◌=ᵇ◌, =ᵇ_iff}
use lucid_gate.Filter.Masking.{normalize_phrase}
use lucid_gate.Semantic.Automaton.{
  Automaton, put_node, marked, add_phrase, add_hard, add_exceptions, add_weighted, WeightedPhrase,
  compiled, root_only,
}
use lucid_gate.Semantic.Trie.{some_injective, next_of, IsTrie, walk, walk_injective, walk_bounded}
use lucid_gate.Semantic.Mark.{join, mark_of}
use lucid_gate.Semantic.Entries.{
  Entry, given, blocked_entry, excepted_entry, weighted_entry, natural, with_key, entries_of,
  has_entry, says, says_missing,
}
use lucid_gate.Semantic.Growth.{walk-Extends, walk_old, Added, add_bytes-Added, walk_same}

-- The tree of some phrases: its marks are on the nodes that they lead to.
pub record Holds (a : Automaton) (entries : List Entry) : Type 0 where
  pub trie : IsTrie a
  pub root : 0 < a.count
  pub marks : (x : Bytes) (n : ℕ) → walk a 0 x ≡ some n → mark_of a n ≡ says entries x
  pub all : (x : Bytes) → has_entry entries x ≡ true → (n : ℕ) × (walk a 0 x ≡ some n)

-- Marks of the tree, at a word that is not the new one.
mark_of-Added :
    (a c : Automaton) (entries : List Entry) (p x : Bytes) (m n : ℕ)
    → Holds a entries
    → Added a c 0 m p
    → walk c 0 x ≡ some n
    → mark_of c n ≡ says entries x
mark_of-Added a c entries p x m n h added w = elim (Bool-cases (ltb n a.count)) [
  | inl e ↦
      let lt = ltb→lt n a.count e in
      added.extends.old n lt
      ∙ h.marks x n (walk_old (suc n) a c x n added.trie added.extends (omega arith) lt w)
  | inr e ↦
      let le : a.count ≤ n = ground (arith, e) in
      let inside = walk_bounded c added.trie x n (omega (arith, h.root, added.extends.count)) w in
      elim (Bool-cases (has_entry entries x)) [
        | inl known ↦
            let (k, v) = h.all x known in
            let same = some_injective k n (sym (walk-Extends a c x 0 k added.extends v) ∙ w) in
            absurd (omega (arith, same, le, walk_bounded a h.trie x k h.root v))
        | inr other ↦ added.extends.new n le inside ∙ sym (says_missing entries x other)
      ]
]

module _ (phrase : Bytes) (score : ℕ) (hard exception : Bool) where
  -- A word that is marked at the node where it ends.
  abbrev with_mark : Automaton → ℕ → Automaton
  with_mark c m = put_node m (marked (c.nodes m) phrase score hard exception) c

  next_of-with_mark : (c : Automaton) (m i d : ℕ) → next_of (with_mark c m) i d ≡ next_of c i d
  unfolding put_node
  next_of-with_mark c m i d = ground arith

  mark_of-with_mark :
      (c : Automaton) (m i : ℕ)
      → mark_of (with_mark c m) i
        ≡ (if i == m then join (mark_of c i) (given score hard exception) else mark_of c i)
  unfolding put_node mark_of join
  mark_of-with_mark c m i = ground arith

  IsTrie-with_mark : (c : Automaton) (m : ℕ) → IsTrie c → IsTrie (with_mark c m)
  unfolding put_node
  IsTrie-with_mark c m t = record {
    grows = λ i d h. ground (arith, t.grows i d, next_of-with_mark c m i d, h);
    bounded = λ i d h. ground (arith, t.bounded i d, next_of-with_mark c m i d, h);
    unique = λ i d j e h k.
        ground
          (arith, t.unique i d j e, next_of-with_mark c m i d, next_of-with_mark c m j e, h, k);
    bytes = λ i d h. ground (arith, t.bytes i d, next_of-with_mark c m i d, h);
  }

  with_mark-Holds :
      (a c : Automaton) (entries : List Entry) (p : Bytes) (m : ℕ)
      → Holds a entries
      → Added a c 0 m p
      → Holds (with_mark c m) (record { key = p; gives = given score hard exception } ∷ entries)
  unfolding put_node says has_entry
  with_mark-Holds a c entries p m h added = record {
    trie = IsTrie-with_mark c m added.trie;
    root = omega (arith, h.root, added.extends.count);
    marks = λ x n w.
        let v : walk c 0 x ≡ some n =
          sym (walk_same c (with_mark c m) x 0 (next_of-with_mark c m)) ∙ w in
        let old = mark_of-Added a c entries p x m n h added v in
        mark_of-with_mark c m n ∙ (elim (Bool-cases (n == m)) [
          | inl e ↦
              let here : p ≡ x =
                walk_injective c added.trie p x m added.reached
                  (v ∙ ap (λ n. some n) ((==_iff n m).0 e)) in
              rw (e, (=ᵇ_iff p x).1 here) (ap (λ o. join o (given score hard exception)) old)
          | inr e ↦ elim (Bool-cases (p =ᵇ x)) [
            | inl same ↦
                let it =
                  some_injective m n
                    (sym added.reached ∙ ap (λ x. walk c 0 x) ((=ᵇ_iff p x).0 same) ∙ v) in
                absurd (ground (arith, e, it))
            | inr other ↦ rw (e, other) old
          ]
        ]);
    all = λ x k.
        let there = walk_same c (with_mark c m) x 0 (next_of-with_mark c m) in
        elim (Bool-cases (p =ᵇ x)) [
          | inl same ↦ (m, there ∙ ap (λ x. walk c 0 x) (sym ((=ᵇ_iff p x).0 same)) ∙ added.reached)
          | inr other ↦
              let (n, v) = h.all x (ground (arith, k, other)) in
              (n, there ∙ walk-Extends a c x 0 n added.extends v)
        ];
  }

-- A phrase of bytes; in Go a string has no other.
abbrev pub AreBytes : Bytes → Type 0
AreBytes s = All (λ b. b < 256) s

add_phrase-Holds :
    (u : Unicode) (a : Automaton) (entries : List Entry) (phrase : Bytes) (score : ℕ)
    (hard exception : Bool)
    → Holds a entries
    → AreBytes (normalize_phrase u phrase)
    → Holds
        (add_phrase u a phrase score hard exception)
        (with_key (normalize_phrase u phrase) (given score hard exception) entries)
unfolding add_phrase
add_phrase-Holds u a entries phrase score hard exception h bytes =
    elim (Bool-cases (is_empty (normalize_phrase u phrase))) [
      | inl e ↦ rw e h
      | inr e ↦ rw e (
          with_mark-Holds phrase score hard exception a _ entries (normalize_phrase u phrase) _ h
            (add_bytes-Added a 0 (normalize_phrase u phrase) h.trie h.root bytes))
    ]

-- Entries whose normal forms are of bytes.
abbrev pub OfBytes : Unicode → List Entry → Type 0
OfBytes u ps = All (λ p. AreBytes (normalize_phrase u p.key)) ps

pub add_hard-Holds :
    (u : Unicode) (a : Automaton) (entries : List Entry) (ps : List Bytes)
    → Holds a entries
    → OfBytes u (map blocked_entry ps)
    → Holds (add_hard u a ps) (entries_of u entries (map blocked_entry ps))
unfolding add_hard entries_of
add_hard-Holds u a entries [] h bytes = h
add_hard-Holds u a entries (p ∷ ps) h bytes =
    add_hard-Holds u (add_phrase u a p 0 true false) _ ps
      (add_phrase-Holds u a entries p 0 true false h bytes.0) bytes.1

pub add_exceptions-Holds :
    (u : Unicode) (a : Automaton) (entries : List Entry) (ps : List Bytes)
    → Holds a entries
    → OfBytes u (map excepted_entry ps)
    → Holds (add_exceptions u a ps) (entries_of u entries (map excepted_entry ps))
unfolding add_exceptions entries_of
add_exceptions-Holds u a entries [] h bytes = h
add_exceptions-Holds u a entries (p ∷ ps) h bytes =
    add_exceptions-Holds u (add_phrase u a p 0 false true) _ ps
      (add_phrase-Holds u a entries p 0 false true h bytes.0) bytes.1

compiled_injective : (a c : Automaton) → compiled a ≡ compiled c → a ≡ c
compiled_injective a c h = cc

-- A list that compiles has positive weights.
add_weighted-cons :
    (u : Unicode) (threshold : ℕ) (a c : Automaton) (phrase : Bytes) (weight : ℤ)
    (ps : List WeightedPhrase)
    → add_weighted u threshold a (record { phrase = phrase; weight = weight } ∷ ps) ≡ compiled c
    → add_weighted u threshold (add_phrase u a phrase (natural weight) false false) ps ≡ compiled c
unfolding add_weighted
add_weighted-cons u threshold a c phrase (negsuc n) ps made = absurd (cc)
add_weighted-cons u threshold a c phrase (pos n) ps made = ground (arith, made)

pub add_weighted-Holds :
    (u : Unicode) (threshold : ℕ) (a c : Automaton) (entries : List Entry)
    (ps : List WeightedPhrase)
    → Holds a entries
    → OfBytes u (map weighted_entry ps)
    → add_weighted u threshold a ps ≡ compiled c
    → Holds c (entries_of u entries (map weighted_entry ps))
unfolding entries_of
add_weighted-Holds u threshold a c entries [] h bytes made =
    let same : compiled a ≡ compiled c = unfold add_weighted in made in
    subst (λ a. Holds a entries) (compiled_injective a c same) h
add_weighted-Holds u threshold a c entries (p ∷ ps) h bytes made =
    add_weighted-Holds u threshold (add_phrase u a p.phrase (natural p.weight) false false) c _ ps
      (add_phrase-Holds u a entries p.phrase (natural p.weight) false false h bytes.0) bytes.1
      (add_weighted-cons u threshold a c p.phrase p.weight ps made)

pub root_only-Holds : Holds root_only []
unfolding has_entry says mark_of
root_only-Holds = record {
  trie = record {
    grows = λ n b h. absurd (h refl);
    bounded = λ n b h. absurd (h refl);
    unique = λ n b k d h e. absurd (h refl);
    bytes = λ n b h. absurd (h refl);
  };
  root = omega arith;
  marks = λ x n w. refl;
  all = λ x k. absurd (cc);
}
