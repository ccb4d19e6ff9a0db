-- ===== src/Semantic/Automaton.antt =====
-- proxy/semantic_filter.go: the automaton of Aho and Corasick over the phrases.
use lucid_gate.Prelude.{
  ℕ, zero, suc, ◌+◌, ◌%◌, ◌^◌, ℤ, pos, negsuc, Bool, true, false, ◌&&◌, ◌||◌, List, [], ◌∷◌, ◌++◌,
  Bytes, ◌==◌, ltb, leb, if◌then◌else◌,
}
use lucid_gate.Text.{Unicode, is_empty}
use lucid_gate.Filter.Masking.{normalize_phrase}

-- An int32 is its 32 bits: it wraps around, and from 2 ^ 31 on it is negative.
abbrev pub i32 : ℕ → ℕ
i32 x = x % 2 ^ 32

abbrev pub is_positive : ℕ → Bool
is_positive x = ltb 0 x && ltb x (2 ^ 31)

-- `x >= y` of two int32.
abbrev pub reaches : ℕ → ℕ → Bool
reaches x y = leb (i32 (y + 2 ^ 31)) (i32 (x + 2 ^ 31))

-- `ahoNode`: `next` is the array of 256 states, where 0 means that there is no transition.
pub record AhoNode : Type 0 where
  pub next : ℕ → ℕ
  pub fail : ℕ
  pub hard : Bool
  pub excpt : Bool
  pub score : ℕ
  pub phrase : Bytes

abbrev pub new_node : AhoNode
new_node = record { next = λ b. 0; fail = 0; hard = false; excpt = false; score = 0; phrase = [] }

-- The slice of the nodes. Each takes a kibibyte, so an int32 counts all that fit into memory.
pub record Automaton : Type 0 where
  pub count : ℕ
  pub nodes : ℕ → AhoNode

pub record PhraseFilter : Type 0 where
  pub automaton : Automaton
  pub threshold : ℕ

pub record WeightedPhrase : Type 0 where
  pub phrase : Bytes
  pub weight : ℤ

pub data PhraseError : Type 0 where
  negative_threshold : PhraseError
  bad_weight : Bytes → PhraseError
  missing_threshold : PhraseError

pub data Compiled {ℓ} (A : Type ℓ) : Type ℓ where
  compiled : A → Compiled A
  refused : PhraseError → Compiled A

unfoldable pub put_node : ℕ → AhoNode → Automaton → Automaton
put_node n x a = record a { nodes = λ i. if i == n then x else a.nodes i }

unfoldable pub put_next : ℕ → ℕ → AhoNode → AhoNode
put_next b child x = record x { next = λ c. if c == b then child else x.next c }

-- `append(f.nodes, ahoNode{})`.
unfoldable pub append_node : Automaton → Automaton
append_node a = put_node a.count new_node (record a { count = suc a.count })

-- The transition of a node on a byte, which is added where it is missing.
unfoldable pub child_of : Automaton → ℕ → ℕ → Automaton × ℕ
child_of a node b =
    let next = (a.nodes node).next b in
    let grown = append_node a in
    if next == 0
    then (put_node node (put_next b a.count (grown.nodes node)) grown, a.count)
    else (a, next)

-- The loop over the bytes of a phrase.
unfoldable pub add_bytes : Automaton → ℕ → Bytes → Automaton × ℕ
add_bytes a node [] = (a, node)
add_bytes a node (b ∷ s) = let (grown, next) = child_of a node b in add_bytes grown next s

abbrev pub marked : AhoNode → Bytes → ℕ → Bool → Bool → AhoNode
marked x phrase score hard exception = record x {
  hard = x.hard || hard;
  excpt = x.excpt || exception;
  score = i32 (x.score + i32 score);
  phrase = if hard || ltb 0 score || exception then phrase else x.phrase;
}

unfoldable pub add_phrase : Unicode → Automaton → Bytes → ℕ → Bool → Bool → Automaton
add_phrase u a phrase score hard exception =
    let (grown, node) = add_bytes a 0 (normalize_phrase u phrase) in
    if is_empty (normalize_phrase u phrase)
    then a
    else put_node node (marked (grown.nodes node) phrase score hard exception) grown

unfoldable pub add_hard : Unicode → Automaton → List Bytes → Automaton
add_hard u a [] = a
add_hard u a (p ∷ ps) = add_hard u (add_phrase u a p 0 true false) ps

unfoldable pub add_exceptions : Unicode → Automaton → List Bytes → Automaton
add_exceptions u a [] = a
add_exceptions u a (p ∷ ps) = add_exceptions u (add_phrase u a p 0 false true) ps

unfoldable pub add_weighted : Unicode → ℕ → Automaton → List WeightedPhrase → Compiled Automaton
add_weighted u threshold a [] = compiled a
add_weighted u threshold a (p ∷ ps) = elim p.weight [
  | negsuc n ↦ refused (bad_weight p.phrase)
  | pos n ↦
      if n == 0
      then refused (bad_weight p.phrase)
      else if threshold == 0
      then refused missing_threshold
      else add_weighted u threshold (add_phrase u a p.phrase n false false) ps
]

-- The bytes from one on, `n` of them.
unfoldable pub bytes_from : ℕ → ℕ → Bytes
bytes_from b zero = []
bytes_from b (suc n) = b ∷ bytes_from (suc b) n

-- The first loop of `buildFailures`: the children of the root.
unfoldable pub queue_root : Automaton → Bytes → Automaton × List ℕ
queue_root a [] = (a, [])
queue_root a (b ∷ bs) =
    let child = (a.nodes 0).next b in
    let (linked, queue) =
      queue_root (if child == 0 then a else put_node child (record (a.nodes child) { fail = 0 }) a)
        bs in
    (linked, if child == 0 then queue else child ∷ queue)

-- A child takes over what its failure target found.
abbrev pub linked_child : AhoNode → ℕ → AhoNode → AhoNode
linked_child x fail target = record x {
  fail = fail;
  hard = x.hard || target.hard;
  excpt = x.excpt || target.excpt;
  score = i32 (x.score + target.score);
  phrase = if is_empty x.phrase then target.phrase else x.phrase;
}

-- The body of the inner loop, for a node and a byte.
unfoldable pub link : Automaton → ℕ → ℕ → Automaton
link a node b =
    let x = a.nodes node in
    let child = x.next b in
    let fallback = (a.nodes x.fail).next b in
    if child == 0
    then put_node node (put_next b fallback x) a
    else put_node child (linked_child (a.nodes child) fallback (a.nodes fallback)) a

-- The inner loop, with the children that join the queue.
unfoldable pub link_all : Automaton → ℕ → Bytes → Automaton × List ℕ
link_all a node [] = (a, [])
link_all a node (b ∷ bs) =
    let child = (a.nodes node).next b in
    let (done, queue) = link_all (link a node b) node bs in
    (done, if child == 0 then queue else child ∷ queue)

-- The loop over the queue, on fuel.
unfoldable pub link_queue : ℕ → Automaton → List ℕ → Automaton
link_queue fuel a [] = a
link_queue zero a (node ∷ queue) = a
link_queue (suc fuel) a (node ∷ queue) =
    let (done, children) = link_all a node (bytes_from 0 256) in
    link_queue fuel done (queue ++ children)

-- `buildFailures`: a node other than the root joins the queue once, by its parent.
unfoldable pub build_failures : Automaton → Automaton
build_failures a =
    let (rooted, queue) = queue_root a (bytes_from 0 256) in link_queue a.count rooted queue

-- The automaton of the root alone.
abbrev pub root_only : Automaton
root_only = record { count = 1; nodes = λ i. new_node }

abbrev pub finished : Unicode → ℕ → List Bytes → Compiled Automaton → Compiled PhraseFilter
finished u threshold exceptions (refused e) = refused e
finished u threshold exceptions (compiled a) =
    compiled
      (record { automaton = build_failures (add_exceptions u a exceptions); threshold = threshold })

unfoldable pub new_phrase_filter_with_exceptions :
    Unicode → List Bytes → List WeightedPhrase → List Bytes → ℤ → Compiled PhraseFilter
new_phrase_filter_with_exceptions u blocked weighted exceptions (negsuc n) =
    refused negative_threshold
new_phrase_filter_with_exceptions u blocked weighted exceptions (pos threshold) =
    finished u threshold exceptions
      (add_weighted u threshold (add_hard u root_only blocked) weighted)

abbrev pub new_scored_phrase_filter :
    Unicode → List Bytes → List WeightedPhrase → ℤ → Compiled PhraseFilter
new_scored_phrase_filter u blocked weighted threshold =
    new_phrase_filter_with_exceptions u blocked weighted [] threshold

abbrev pub new_phrase_filter : Unicode → List Bytes → Compiled PhraseFilter
new_phrase_filter u phrases = new_scored_phrase_filter u phrases [] (pos 0)
