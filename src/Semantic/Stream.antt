-- ===== src/Semantic/Stream.antt =====
-- proxy/semantic_filter.go: `phraseStreamFilter`.
use lucid_gate.Prelude.{
  ℕ, suc, ◌+◌, Bool, true, false, ◌&&◌, ◌||◌, not, Option, none, some, List, [], ◌∷◌, ◌++◌, Bytes,
  String, ◌==◌, leb, take, if◌then◌else◌,
}
use lucid_gate.Text.{is_empty}
use lucid_gate.Filter.Fold.{lower_ascii}
use lucid_gate.Semantic.Automaton.{i32, is_positive, reaches, AhoNode, PhraseFilter}

pub record PhraseStream : Type 0 where
  pub compiled : Option PhraseFilter
  pub node : ℕ
  pub score : ℕ
  pub excepted : Bool
  pub blocked_phrase : Bytes
  pub blocked_type : String
  pub observe_only : Bool

-- `NewFilter`.
unfoldable pub new_filter : PhraseFilter → PhraseStream
new_filter g = record {
  compiled = some g;
  node = 0;
  score = 0;
  excepted = false;
  blocked_phrase = [];
  blocked_type = "";
  observe_only = false;
}

-- The two tests that block: after each the stream, and whether the loop returns.
abbrev block_as : PhraseStream → String → AhoNode → Bool → PhraseStream × Bool
block_as f kind current false = (f, false)
block_as f kind current true =
    (record f { blocked_phrase = current.phrase; blocked_type = kind }, not f.observe_only)

abbrev add_score : PhraseStream → AhoNode → PhraseStream
add_score f current =
    if is_positive current.score then record f { score = i32 (f.score + current.score) } else f

-- `score >= threshold` after a score was added.
abbrev is_over : PhraseFilter → PhraseStream → AhoNode → Bool
is_over g f current =
    is_positive current.score && is_positive (i32 g.threshold) && reaches f.score (i32 g.threshold)

abbrev weigh : PhraseFilter → AhoNode → PhraseStream × Bool → PhraseStream × Bool
weigh g current (f, true) = (f, true)
weigh g current (f, false) =
    let scored = add_score f current in
    block_as scored "phrase_score" current (is_over g scored current)

-- The body of the loop of `matchChunk`, for a byte. What the loop keeps in local variables it writes
-- back wherever it ends.
unfoldable pub match_byte : PhraseFilter → PhraseStream → ℕ → PhraseStream × Bool
match_byte g f b =
    let node = (g.automaton.nodes f.node).next (lower_ascii b) in
    let current = g.automaton.nodes node in
    let moved = record f { node = node; excepted = f.excepted || current.excpt } in
    if moved.excepted
    then (moved, false)
    else weigh g current (block_as moved "phrase" current current.hard)

-- The loop of `matchChunk`: whether it blocks, and how many bytes it has read.
unfoldable pub match_bytes : PhraseFilter → PhraseStream → Bytes → ℕ → PhraseStream × (Bool × ℕ)
match_bytes g f [] i = (f, (false, i))
match_bytes g f (b ∷ s) i =
    let (next, stop) = match_byte g f b in
    let rest = match_bytes g next s (suc i) in if stop then (next, (true, suc i)) else rest

-- `matchChunk`; `none` is its error.
unfoldable pub match_chunk :
    PhraseFilter → PhraseStream → Bytes → Option (PhraseStream × (Bool × ℕ))
match_chunk g f input = if g.automaton.count == 0 then none else some (match_bytes g f input 0)

abbrev cut_output : Bytes → PhraseStream × (Bool × ℕ) → PhraseStream × (Bytes × Bool)
cut_output input (f, (blocked, n)) = (f, (if blocked then take n input else input, blocked))

abbrev cut_result :
    Bytes → Option (PhraseStream × (Bool × ℕ)) → Option (PhraseStream × (Bytes × Bool))
cut_result input none = none
cut_result input (some r) = some (cut_output input r)

-- `ProcessChunk`: the output, and whether the response is blocked; `none` is an error.
unfoldable pub process_chunk : PhraseStream → Bytes → Option (PhraseStream × (Bytes × Bool))
process_chunk f input = elim f.compiled [
  | none ↦ some (f, (input, false))
  | some g ↦
      if leb g.automaton.count 1 || is_empty input
      then some (f, (input, false))
      else cut_result input (match_chunk g f input)
]

-- `Decision`: the kind and the phrase of a block.
unfoldable pub decision : PhraseStream → Option (String × Bytes)
decision f =
    if not (is_empty f.blocked_phrase) && not f.observe_only
    then some (f.blocked_type, f.blocked_phrase)
    else none

pub data LogMatch : Type 0 where
  unmatched suppressed : LogMatch
  matched : String → Bytes → LogMatch

-- `LogDecision`.
unfoldable pub log_decision : PhraseStream → LogMatch
log_decision f =
    if not f.observe_only
    then unmatched
    else if f.excepted
    then suppressed
    else if is_empty f.blocked_phrase
    then unmatched
    else matched f.blocked_type f.blocked_phrase

abbrev pub put_front :
    Bytes → Option (PhraseStream × (Bytes × Bool)) → Option (PhraseStream × (Bytes × Bool))
put_front out none = none
put_front out (some (f, (rest, blocked))) = some (f, (out ++ rest, blocked))

-- A block ends the response.
abbrev pub then_run :
    Option (PhraseStream × (Bytes × Bool))
    → (PhraseStream → Option (PhraseStream × (Bytes × Bool)))
    → Option (PhraseStream × (Bytes × Bool))
then_run none rest = none
then_run (some (f, (out, true))) rest = some (f, (out, true))
then_run (some (f, (out, false))) rest = put_front out (rest f)

-- The chunks in turn, up to one that is blocked.
unfoldable pub run : PhraseStream → List Bytes → Option (PhraseStream × (Bytes × Bool))
run f [] = some (f, ([], false))
run f (c ∷ cs) = then_run (process_chunk f c) λ next. run next cs
