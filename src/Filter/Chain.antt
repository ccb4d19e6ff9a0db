-- ===== src/Filter/Chain.antt =====
-- proxy/masking_filter.go: `chainFilter`, over the interfaces of the filters that it is made of.
use lucid_gate.Prelude.{
  ℕ, zero, suc, length, Option, none, some, List, [], ◌∷◌, ◌++◌, Bytes, String, if◌then◌else◌,
}
use lucid_gate.Text.{is_empty}
use lucid_gate.Semantic.Stream.{LogMatch, unmatched, suppressed, matched}

-- What `ProcessChunk` returns: an error, or the output, and whether the response is blocked.
pub data Answer : Type 0 where
  refused : Answer
  passed stopped : Bytes → Answer

-- `FilterEngine` with the interfaces `flushingFilter`, `Decisioner` and `LogDecisioner`, over the
-- states `F` of a filter. `flush` is `none` for a filter without `Flush`, and the output is `none` for
-- an error.
pub record FilterEngine (F : Type 0) : Type 0 where
  pub process_chunk : F → Bytes → F × Answer
  pub flush : F → Option (F × Option Bytes)
  pub decision : F → Option (String × Bytes)
  pub log_decision : F → LogMatch

-- A filter in front of filters that ran.
abbrev pub with_first {ℓ} : {F : Type 0} {A : Type ℓ} → F → List F × A → List F × A
with_first f (fs, a) = (f ∷ fs, a)

module _ {F : Type 0} (e : FilterEngine F) where
  -- The first loop of `runDownstream`, with `none` for an error.
  unfoldable pub process_downstream : List F → Bytes → List F × Option Bytes
  process_downstream [] out = ([], some out)
  process_downstream (f ∷ fs) out =
      let (g, r) = e.process_chunk f out in
      elim r [
        | refused ↦ (g ∷ fs, none)
        | stopped next ↦ (g ∷ fs, some next)
        | passed next ↦ with_first g (process_downstream fs next)
      ]

  -- The second loop of `runDownstream`.
  unfoldable pub append_tails : List F → Bytes → List F × Option Bytes
  append_tails [] out = ([], some out)
  append_tails (f ∷ fs) out = elim (e.flush f) [
    | none ↦ with_first f (append_tails fs out)
    | some (g, none) ↦ (g ∷ fs, none)
    | some (g, some tail) ↦ with_first g (append_tails fs (out ++ tail))
  ]

  unfoldable pub run_downstream : List F → Bytes → List F × Option Bytes
  run_downstream fs out =
      let (gs, r) = process_downstream fs out in
      elim r [ none ↦ (gs, none) | some next ↦ append_tails gs next ]

  -- What `ProcessChunk` returns after a block.
  abbrev after_block : List F × Option Bytes → List F × Answer
  after_block (fs, none) = (fs, refused)
  after_block (fs, some out) = (fs, stopped out)

  -- The loop of `ProcessChunk`.
  unfoldable pub process_all : List F → Bytes → List F × Answer
  process_all [] out = ([], passed out)
  process_all (f ∷ fs) out =
      let (g, r) = e.process_chunk f out in
      elim r [
        | refused ↦ (g ∷ fs, refused)
        | stopped next ↦ with_first g (after_block (run_downstream fs next))
        | passed next ↦
            let rest = process_all fs next in
            if is_empty next then (g ∷ fs, passed []) else with_first g rest
      ]

  -- The inner loop of `Flush`: a chunk through the filters downstream.
  unfoldable pub pass_on : List F → Bytes → List F × Answer
  pass_on [] chunk = ([], passed chunk)
  pass_on (f ∷ fs) chunk =
      let (g, r) = e.process_chunk f chunk in
      elim r [
        | refused ↦ (g ∷ fs, refused)
        | stopped next ↦ (g ∷ fs, stopped next)
        | passed next ↦ with_first g (pass_on fs next)
      ]

  -- `Decision`: the first block.
  unfoldable pub decision_of : List F → Option (String × Bytes)
  decision_of [] = none
  decision_of (f ∷ fs) = elim (e.decision f) [ none ↦ decision_of fs | some d ↦ some d ]

  -- `LogDecision`.
  unfoldable pub log_decision_of : List F → LogMatch
  log_decision_of [] = unmatched
  log_decision_of (f ∷ fs) = elim (e.log_decision f) [
    | unmatched ↦ log_decision_of fs
    | suppressed ↦ suppressed
    | matched kind value ↦ matched kind value
  ]

  -- The outer loop of `Flush`, from a filter on: the fuel is the number of the filters from there on.
  unfoldable pub flush_from : ℕ → List F → Bytes → List F × Option Bytes
  flush_from zero fs out = (fs, some out)
  flush_from (suc n) [] out = ([], some out)
  flush_from (suc n) (f ∷ fs) out = elim (e.flush f) [
    | none ↦ with_first f (flush_from n fs out)
    | some (g, none) ↦ (g ∷ fs, none)
    | some (g, some []) ↦ with_first g (flush_from n fs out)
    | some (g, some (c ∷ s)) ↦
        let (gs, r) = pass_on fs (c ∷ s) in
        elim r [
          | refused ↦ (g ∷ gs, none)
          | stopped chunk ↦ (g ∷ gs, some (out ++ chunk))
          | passed chunk ↦ with_first g (flush_from n gs (out ++ chunk))
        ]
  ]

  unfoldable pub flush_all : List F → List F × Option Bytes
  flush_all fs = flush_from (length fs) fs []

-- The engine of chains. A chain has `Flush` and both decisions.
abbrev pub chain_engine : {F : Type 0} → FilterEngine F → FilterEngine (List F)
chain_engine e = record {
  process_chunk = process_all e;
  flush = λ fs. some (flush_all e fs);
  decision = decision_of e;
  log_decision = log_decision_of e;
}

-- A filter's output in front of what comes after it.
abbrev pub after_output : Bytes → Answer → Answer
after_output out refused = refused
after_output out (passed rest) = passed (out ++ rest)
after_output out (stopped rest) = stopped (out ++ rest)

abbrev pub last_output : {F : Type 0} → Option (F × Option Bytes) → Answer
last_output none = passed []
last_output (some (f, none)) = refused
last_output (some (f, some tail)) = passed tail

-- A block or an error ends the response.
abbrev pub answered : Answer → (Bytes → Answer) → Answer
answered refused next = refused
answered (stopped out) next = stopped out
answered (passed out) next = next out

-- The chunks of a response in turn, up to one that is blocked or fails, and then `Flush`.
unfoldable pub deliver : {F : Type 0} → FilterEngine F → F → List Bytes → Answer
deliver e f [] = last_output (e.flush f)
deliver e f (c ∷ cs) =
    let (g, a) = e.process_chunk f c in answered a λ out. after_output out (deliver e g cs)
