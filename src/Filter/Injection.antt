-- ===== src/Filter/Injection.antt =====
-- proxy/html_injection_filter.go: the banner goes in front of the first closing body tag.
use lucid_gate.Prelude.{
  ℕ, suc, ◌-◌, Bool, true, false, ◌||◌, Option, none, some, List, [], ◌∷◌, ◌++◌, Bytes, codes, ◌==◌,
  if◌then◌else◌, length, take, drop,
}
use lucid_gate.Text.{is_empty}
use lucid_gate.Filter.Fold.{matches_at}

pub record InjectionStream : Type 0 where
  pub banner : Bytes
  pub pending : Bytes
  pub injected : Bool

abbrev pub needle : Bytes
needle = codes "</body>"

abbrev pub shift : Option ℕ → Option ℕ
shift none = none
shift (some i) = some (suc i)

-- The loop of `injectPending`: the first index at which the needle matches.
unfoldable pub find_needle : Bytes → Option ℕ
find_needle [] = none
find_needle (c ∷ s) =
    let later = shift (find_needle s) in if matches_at needle (c ∷ s) then some 0 else later

abbrev pub banner_at : Bytes → ℕ → Bytes → Bytes
banner_at banner i s = take i s ++ banner ++ drop i s

-- `injectPending`: the output if the needle is found, and the stream after it.
unfoldable pub inject_pending : InjectionStream → InjectionStream × Option Bytes
inject_pending f = elim (find_needle f.pending) [
  | none ↦ (f, none)
  | some i ↦ (record f { pending = []; injected = true }, some (banner_at f.banner i f.pending))
]

-- All but the last `len("</body>") - 1` pending bytes go out.
unfoldable pub emit_pending : InjectionStream → InjectionStream × Bytes
emit_pending f =
    let emit = length f.pending - (length needle - 1) in
    if emit == 0 then (f, []) else (record f { pending = drop emit f.pending }, take emit f.pending)

abbrev pub after_search : InjectionStream × Option Bytes → InjectionStream × Bytes
after_search (f, some out) = (f, out)
after_search (f, none) = emit_pending f

-- `ProcessChunk`; it never blocks and has no error.
unfoldable pub process_chunk : InjectionStream → Bytes → InjectionStream × Bytes
process_chunk f input =
    if is_empty f.banner || is_empty input
    then (f, input)
    else if f.injected
    then (f, input)
    else after_search (inject_pending (record f { pending = f.pending ++ input }))

unfoldable pub flush : InjectionStream → InjectionStream × Bytes
flush f = (record f { pending = [] }, f.pending)

-- `NewFilter`; without a banner it is the filter that passes everything through.
unfoldable pub new_filter : Bytes → InjectionStream
new_filter banner = record { banner = banner; pending = []; injected = false }

-- The relay's use of the filter: the chunks in turn, then `Flush`.
unfoldable pub run : InjectionStream → List Bytes → Bytes
run f [] = (flush f).1
run f (c ∷ cs) = (process_chunk f c).1 ++ run (process_chunk f c).0 cs
