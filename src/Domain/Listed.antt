-- ===== src/Domain/Listed.antt =====
-- The domain lists from outside: a compiled list matches the hosts at or below one of its entries.
use lucid_gate.Prelude.{
  ℕ, suc, ◌+◌, ◌^◌, ◌≤◌, ◌<◌, ◌≡◌, ◌≢◌, ◌⊎◌, ◌↔◌, inl, inr, Bool, true, false, ◌||◌, Option, none,
  some, List, [], ◌∷◌, ◌++◌, Bytes, arith, refl, sym, ap, ◌∙◌, length, get_elem?, reverse,
  reverse-append, reverse-reverse, length-append, Bool-cases, Option-cases, ||-eq-true,
}
use mathlib.Core.Bool.{or-true}
use lucid_gate.Text.{Unicode, is_empty, =ᵇ_iff, contains_byte}
use lucid_gate.Domain.Name.{normalized_domain, normalized_domain_labels, fields, slash}
use lucid_gate.Domain.Builder.{
  BuilderNode, Children, node, nil, child, blocked, new_node, update_child, insert_path, walk,
}
use lucid_gate.Domain.Layout.{Holds}
use lucid_gate.Domain.Flat.{FlatNode, Arrays, build_flat, match_loop}
use lucid_gate.Domain.Paths.{
  IsOrdered, is_path_prefix, hits-insert_path, insert_path-IsOrdered, walk-new_node,
}
use lucid_gate.Domain.Size.{size, size_children, transitions_built}
use lucid_gate.Domain.Build.{build_flat-Holds}
use lucid_gate.Domain.Matching.{match_loop-walk, walk-end}
use lucid_gate.Domain.Trie.{
  DomainTrie, no_arrays, empty_trie, root_or_new, add, add_labels, add_all, build, compile, match,
  match_compiled, trie_of, search_nodes,
}

-- The host with the labels `ls` is the domain with the labels `ds`, or below it.
abbrev pub IsBelow : List Bytes → List Bytes → Type 0
IsBelow ls ds = (ds ≢ []) × ((front : List Bytes) × (ls ≡ front ++ ds))

-- The host is listed: it is one of the domains, or below one.
abbrev pub Listed : Unicode → List Bytes → Bytes → Type 0
Listed u [] host = ⊥
Listed u (d ∷ ds) host =
    IsBelow (normalized_domain_labels u host) (normalized_domain_labels u d) ⊎ Listed u ds host

-- The labels of all entries.
abbrev pub label_count : Unicode → List Bytes → ℕ
label_count u [] = 0
label_count u (d ∷ ds) = length (normalized_domain_labels u d) + label_count u ds

is_path_prefix-front :
    (ps ls : List Bytes) → is_path_prefix ps ls ≡ true → (back : List Bytes) × (ls ≡ ps ++ back)
unfolding is_path_prefix
is_path_prefix-front [] ls h = (ls, refl)
is_path_prefix-front (p ∷ ps) [] h = absurd (cc)
is_path_prefix-front (p ∷ ps) (l ∷ ls) h =
    let (back, e) = is_path_prefix-front ps ls (ground arith) in (back, ground (arith, =ᵇ_iff p l))

is_path_prefix-append : (ps back : List Bytes) → is_path_prefix ps (ps ++ back) ≡ true
unfolding is_path_prefix
is_path_prefix-append [] back = refl
is_path_prefix-append (p ∷ ps) back = ground (arith, =ᵇ_iff p p, is_path_prefix-append ps back)

-- Below, read from the last label: the domain's labels come first.
is_path_prefix-IsBelow :
    (ls ds : List Bytes)
    → (is_path_prefix (reverse ds) (reverse ls) ≡ true)
      ↔ ((front : List Bytes) × (ls ≡ front ++ ds))
is_path_prefix-IsBelow ls ds = (forth, back)
  where
    forth :
        is_path_prefix (reverse ds) (reverse ls) ≡ true → (front : List Bytes) × (ls ≡ front ++ ds)
    forth h =
        let (rest, e) = is_path_prefix-front (reverse ds) (reverse ls) h in
        (
          reverse rest,
          sym (reverse-reverse ls)
              ∙ ap reverse e
              ∙ reverse-append (reverse ds) rest
              ∙ ap (◌++◌ (reverse rest)) (reverse-reverse ds),
        )

    back :
        (front : List Bytes) × (ls ≡ front ++ ds) → is_path_prefix (reverse ds) (reverse ls) ≡ true
    back (front, e) =
        rw (e, reverse-append front ds) (is_path_prefix-append (reverse ds) (reverse front))

size-new_node : size new_node ≡ 1
unfolding size
size-new_node = omega arith

size-insert_path :
    (ps : List Bytes) (n : BuilderNode) → size (insert_path ps n) ≤ size n + length ps
unfolding insert_path size
size-insert_path [] (node b cs) = omega arith
size-insert_path (p ∷ ps) (node b cs) =
    omega (arith, grown p (insert_path ps) (length ps) (size-insert_path ps) cs)
  where
    grown :
        (l : Bytes) (f : BuilderNode → BuilderNode) (k : ℕ)
        → ((m : BuilderNode) → size (f m) ≤ size m + k)
        → (ds : Children) → size_children (update_child l f ds) ≤ size_children ds + suc k
    grown l f k h nil = omega (arith, h new_node)
    grown l f k h (child j m ds) = ground (arith, h m, h new_node, grown l f k h ds)

length-reverse {ℓ} : {A : Type ℓ} (xs : List A) → length (reverse xs) ≡ length xs
length-reverse [] = refl
length-reverse (x ∷ xs) = omega (
  arith,
  ap length (reverse-append (x ∷ []) xs),
  length-append (reverse xs) (x ∷ []),
  length-reverse xs,
)

-- A trie to which entries are added, and which is not compiled yet.
record IsOpen (t : DomainTrie) : Type 0 where
  not_compiled : t.compiled ≡ false
  no_flat : t.flat ≡ no_arrays
  no_flat_root : t.flat_root_blocked ≡ false
  ordered : IsOrdered (root_or_new t.builder_root)
  root_free : blocked (root_or_new t.builder_root) ≡ false

reverse-ne-nil : (l : Bytes) (ls : List Bytes) → reverse (l ∷ ls) ≢ []
reverse-ne-nil l ls e = cc (sym (reverse-reverse (l ∷ ls)) ∙ ap reverse e)

blocked-insert_path :
    (ps : List Bytes) (n : BuilderNode) → ps ≢ [] → blocked (insert_path ps n) ≡ blocked n
unfolding insert_path
blocked-insert_path [] n h = absurd (h refl)
blocked-insert_path (p ∷ ps) (node b cs) h = refl

add_labels-IsOpen : (t : DomainTrie) (ds : List Bytes) → IsOpen t → IsOpen (add_labels t ds)
unfolding add_labels
add_labels-IsOpen t [] o = o
add_labels-IsOpen t (d ∷ ds) o = record {
  not_compiled = refl;
  no_flat = o.no_flat;
  no_flat_root = o.no_flat_root;
  ordered = insert_path-IsOrdered (reverse (d ∷ ds)) (root_or_new t.builder_root) o.ordered;
  root_free =
      blocked-insert_path (reverse (d ∷ ds)) (root_or_new t.builder_root) (reverse-ne-nil d ds)
      ∙ o.root_free;
}

-- What the trie that is being built holds.
abbrev root : DomainTrie → BuilderNode
root t = root_or_new t.builder_root

walk-insert_path :
    (t : DomainTrie) (d : Bytes) (ds ls : List Bytes)
    → IsOpen t
    → walk (reverse ls) (insert_path (reverse (d ∷ ds)) (root t))
      ≡ (walk (reverse ls) (root t) || is_path_prefix (reverse (d ∷ ds)) (reverse ls))
walk-insert_path t d ds ls o = ground (
  arith,
  hits-insert_path (reverse (d ∷ ds)) (reverse ls) (root t) o.ordered,
  blocked-insert_path (reverse (d ∷ ds)) (root t) (reverse-ne-nil d ds),
  o.root_free,
)

walk-add_labels :
    (t : DomainTrie) (ds ls : List Bytes)
    → IsOpen t
    → (walk (reverse ls) (root (add_labels t ds)) ≡ true)
      ↔ ((walk (reverse ls) (root t) ≡ true) ⊎ IsBelow ls ds)
unfolding add_labels
walk-add_labels t [] ls o = (inl, λ r. elim r [ inl h ↦ h | inr b ↦ absurd (b.0 refl) ])
walk-add_labels t (d ∷ ds) ls o =
    let (sound, complete) = is_path_prefix-IsBelow ls (d ∷ ds) in
    (
      λ h. elim (||-eq-true _ _ (sym (walk-insert_path t d ds ls o) ∙ h)) [
        | inl old ↦ inl old
        | inr new ↦ inr (λ e. cc, sound new)
      ],
      λ r.
          walk-insert_path t d ds ls o
          ∙ elim r [ inl old ↦ rw old refl | inr (_, below) ↦ rw (complete below) (or-true _) ],
    )

size-add_labels :
    (t : DomainTrie) (ds : List Bytes) → size (root (add_labels t ds)) ≤ size (root t) + length ds
unfolding add_labels
size-add_labels t [] = omega arith
size-add_labels t (d ∷ ds) =
    omega (arith, size-insert_path (reverse (d ∷ ds)) (root t), length-reverse (d ∷ ds))

-- The same for all entries.
add_all-IsOpen :
    (u : Unicode) (t : DomainTrie) (ds : List Bytes) → IsOpen t → IsOpen (add_all u t ds)
unfolding add_all add
add_all-IsOpen u t [] o = o
add_all-IsOpen u t (d ∷ ds) o =
    add_all-IsOpen u (add u t d) ds (add_labels-IsOpen t (normalized_domain_labels u d) o)

walk-add_all :
    (u : Unicode) (t : DomainTrie) (ds : List Bytes) (host : Bytes)
    → IsOpen t
    → (walk (reverse (normalized_domain_labels u host)) (root (add_all u t ds)) ≡ true)
      ↔ ((walk (reverse (normalized_domain_labels u host)) (root t) ≡ true) ⊎ Listed u ds host)
unfolding add_all add
walk-add_all u t [] host o = (inl, λ r. elim r [ inl h ↦ h | inr b ↦ absurd b ])
walk-add_all u t (d ∷ ds) host o =
    let labels = normalized_domain_labels u d in
    let (split, join) = walk-add_labels t labels (normalized_domain_labels u host) o in
    let (rest_split, rest_join) =
      walk-add_all u (add u t d) ds host (add_labels-IsOpen t labels o) in
    (
      λ h. elim (rest_split h) [
        | inl w ↦ elim (split w) [ inl old ↦ inl old | inr below ↦ inr (inl below) ]
        | inr later ↦ inr (inr later)
      ],
      λ r. rest_join (elim r [
        | inl old ↦ inl (join (inl old))
        | inr (inl below) ↦ inl (join (inr below))
        | inr (inr later) ↦ inr later
      ]),
    )

size-add_all :
    (u : Unicode) (t : DomainTrie) (ds : List Bytes)
    → size (root (add_all u t ds)) ≤ size (root t) + label_count u ds
unfolding add_all add
size-add_all u t [] = omega arith
size-add_all u t (d ∷ ds) =
    omega (arith, size-add_labels t (normalized_domain_labels u d), size-add_all u (add u t d) ds)

empty_trie-IsOpen : IsOpen empty_trie
empty_trie-IsOpen = record {
  not_compiled = refl;
  no_flat = refl;
  no_flat_root = refl;
  ordered = tt;
  root_free = refl;
}

fields-nil : fields [] ≡ []
unfolding fields
fields-nil = refl

no_slash : (u : Unicode) (host : Bytes) → contains_byte (normalized_domain u host) slash ≡ false
unfolding normalized_domain contains_byte
no_slash u host = ground arith

is_empty-eq : (h : Bytes) → is_empty h ≡ true → h ≡ []
unfolding is_empty
is_empty-eq [] e = refl
is_empty-eq (c ∷ h) e = cc

-- The labels of a host are the fields of its normal form.
labels_of_host :
    (u : Unicode) (host : Bytes)
    → normalized_domain_labels u host ≡ fields (normalized_domain u host)
unfolding normalized_domain_labels
labels_of_host u host = elim (Bool-cases (is_empty (normalized_domain u host))) [
  | inl e ↦ ground (arith, is_empty-eq (normalized_domain u host) e, fields-nil)
  | inr e ↦ rw (e, no_slash u host) refl
]

-- The answer of a list without entries.
match-empty_list :
    (u : Unicode) (t : DomainTrie) (host : Bytes)
    → t.flat ≡ no_arrays
    → t.flat_root_blocked ≡ false
    → match_compiled u t host ≡ some false
unfolding match_compiled
match-empty_list u t host e r = elim (Bool-cases (is_empty (normalized_domain u host))) [
  | inl blank ↦ rw blank refl
  | inr name ↦ rw (name, r) (ap (λ f. search_nodes t (normalized_domain u host) f.nodes) e)
]

search_nodes-held :
    (t : DomainTrie) (h : Bytes) (n : FlatNode)
    → get_elem? t.flat.nodes 0 ≡ some n
    → search_nodes t h t.flat.nodes ≡ match_loop (length h) t.flat h 0
search_nodes-held t h n e = split t.flat.nodes e
  where
    split :
        (ns : List FlatNode)
        → get_elem? ns 0 ≡ some n
        → search_nodes t h ns ≡ match_loop (length h) t.flat h 0
    split [] q = cc
    split (m ∷ ns) q = refl

Holds-get :
    (f : Arrays) (n : BuilderNode)
    → Holds 0 0 f 0 n
    → (m : FlatNode) × (get_elem? f.nodes 0 ≡ some m)
Holds-get f (node b cs) h = (_, h.3)

-- The answer of a list that holds a trie.
match-built_list :
    (u : Unicode) (t : DomainTrie) (n : BuilderNode) (host : Bytes)
    → IsOrdered n
    → blocked n ≡ false
    → size n ≤ 2 ^ 32
    → match_compiled u (build t (some n)) host
      ≡ some (walk (reverse (normalized_domain_labels u host)) n)
unfolding match_compiled build
match-built_list u t n host o free fits =
    let flat = (build_flat n no_arrays).1 in
    let held = build_flat-Holds n fits in
    let (m, get) = Holds-get flat n held in
    elim (Bool-cases (is_empty (normalized_domain u host))) [
      | inl blank ↦
          rw
            (blank, labels_of_host u host, is_empty-eq (normalized_domain u host) blank, fields-nil)
            (ap some (sym (walk-end n ∙ free)))
      | inr name ↦
          rw (name, free, labels_of_host u host)
            (search_nodes-held (build t (some n)) (normalized_domain u host) m get
              ∙ match_loop-walk 0 0 flat (omega (arith, transitions_built n no_arrays))
                  (length (normalized_domain u host)) (normalized_domain u host) 0 n (omega arith)
                  held o)
    ]

compile-IsOpen : (t : DomainTrie) → IsOpen t → compile (compile t) ≡ build t t.builder_root
unfolding compile build
compile-IsOpen t o = elim (Option-cases t.builder_root) [
  | inl e ↦ ground (arith, o.not_compiled)
  | inr (n, e) ↦ ground (arith, o.not_compiled)
]

match-open :
    (u : Unicode) (t : DomainTrie) (host : Bytes)
    → IsOpen t
    → size (root t) ≤ 2 ^ 32
    → match_compiled u (build t t.builder_root) host
      ≡ some (walk (reverse (normalized_domain_labels u host)) (root t))
match-open u t host o fits = split t.builder_root o.ordered o.root_free fits
  where
    split :
        (r : Option BuilderNode)
        → IsOrdered (root_or_new r)
        → blocked (root_or_new r) ≡ false
        → size (root_or_new r) ≤ 2 ^ 32
        → match_compiled u (build t r) host
          ≡ some (walk (reverse (normalized_domain_labels u host)) (root_or_new r))
    split none p q h =
        unfold build in
        match-empty_list u (record t { compiled = true }) host o.no_flat o.no_flat_root
        ∙ ap some (sym (walk-new_node (reverse (normalized_domain_labels u host))))
    split (some n) p q h = match-built_list u t n host p q h

-- `Match` of a compiled list gives the answer of the trie that was built.
match-walk :
    (u : Unicode) (ds : List Bytes) (host : Bytes)
    → label_count u ds < 2 ^ 32
    → (match u (trie_of u ds) host).1
      ≡ some (walk (reverse (normalized_domain_labels u host)) (root (add_all u empty_trie ds)))
unfolding match trie_of
match-walk u ds host small =
    let o = add_all-IsOpen u empty_trie ds empty_trie-IsOpen in
    ap (λ t. match_compiled u t host) (compile-IsOpen (add_all u empty_trie ds) o)
    ∙ match-open u (add_all u empty_trie ds) host o
        (omega (arith, size-add_all u empty_trie ds, size-new_node))

decides :
    {P : Type 0} (b : Bool) (r : Option Bool)
    → r ≡ some b
    → (b ≡ true) ↔ P
    → ((r ≡ some true) ↔ P) × ((r ≡ some false) ↔ (¬ P))
decides true r e h = ((λ _. h.0 refl, λ _. e), (λ f. absurd (cc), λ n. absurd (n (h.0 refl))))
decides false r e h = ((λ t. absurd (cc), λ p. absurd (cc (h.1 p))), (λ _ p. cc (h.1 p), λ _. e))

-- With fewer than 2 ^ 32 labels in the list, `Match` answers true exactly on the hosts that the list
-- names or that lie below a domain which it names, and answers false on all others, without a panic.
pub match_iff :
    (u : Unicode) (ds : List Bytes) (host : Bytes)
    → label_count u ds < 2 ^ 32
    → (((match u (trie_of u ds) host).1 ≡ some true) ↔ Listed u ds host)
      × (((match u (trie_of u ds) host).1 ≡ some false) ↔ (¬ Listed u ds host))
match_iff u ds host small =
    let held = walk-add_all u empty_trie ds host empty_trie-IsOpen in
    let bare = walk-new_node (reverse (normalized_domain_labels u host)) in
    decides _ _ (match-walk u ds host small) (
      λ e. elim (held.0 e) [ inl w ↦ absurd (cc) | inr listed ↦ listed ],
      λ listed. held.1 (inr listed),
    )

-- With fewer than 2 ^ 32 labels in the list, `Match` always answers, without a panic and without running
-- out of fuel.
pub match_total :
    (u : Unicode) (ds : List Bytes) (host : Bytes)
    → label_count u ds < 2 ^ 32
    → ((match u (trie_of u ds) host).1 ≡ some true) ⊎ ((match u (trie_of u ds) host).1 ≡ some false)
match_total u ds host small = either _ _ (match-walk u ds host small)
  where
    either : (b : Bool) (r : Option Bool) → r ≡ some b → (r ≡ some true) ⊎ (r ≡ some false)
    either true r e = inl e
    either false r e = inr e
