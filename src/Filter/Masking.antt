-- ===== src/Filter/Masking.antt =====
-- proxy/masking_filter.go: listed phrases are overwritten with asterisks.
use lucid_gate.Prelude.{
  ℕ, zero, suc, ◌-◌, List, [], ◌∷◌, ◌++◌, Bytes, ◌==◌, ltb, if◌then◌else◌, length, take, drop,
  replicate,
}
use lucid_gate.Text.{Unicode, is_empty}
use lucid_gate.Filter.Fold.{matches_at}

-- `normalizePhrase`.
unfoldable pub normalize_phrase : Unicode → Bytes → Bytes
normalize_phrase u phrase = u.to_lower (u.trim_space phrase)

pub record MaskingFilter : Type 0 where
  pub phrases : List Bytes
  pub max_len : ℕ

abbrev pub no_phrases : MaskingFilter
no_phrases = record { phrases = []; max_len = 0 }

abbrev pub add_normalized : MaskingFilter → Bytes → MaskingFilter
add_normalized f p = record {
  phrases = f.phrases ++ p ∷ [];
  max_len = if ltb f.max_len (length p) then length p else f.max_len;
}

-- The loop of `NewMaskingFilter`.
unfoldable pub add_phrases : Unicode → MaskingFilter → List Bytes → MaskingFilter
add_phrases u f [] = f
add_phrases u f (p ∷ ps) =
    let normalized = normalize_phrase u p in
    add_phrases u (if is_empty normalized then f else add_normalized f normalized) ps

unfoldable pub new_masking_filter : Unicode → List Bytes → MaskingFilter
new_masking_filter u phrases = add_phrases u no_phrases phrases

pub record MaskingStream : Type 0 where
  pub compiled : MaskingFilter
  pub pending : Bytes

abbrev pub asterisk : ℕ
asterisk = b'*'

-- The inner loop of `maskPending` at an index `i`, on `pending[i:]`.
unfoldable pub mask_phrases : List Bytes → Bytes → Bytes
mask_phrases [] s = s
mask_phrases (p ∷ ps) s =
    mask_phrases ps
      (if matches_at p s then replicate (length p) asterisk ++ drop (length p) s else s)

-- `maskPending` from an index on; the fuel is the number of bytes from there on.
unfoldable pub mask_from : ℕ → List Bytes → Bytes → Bytes
mask_from zero ps s = s
mask_from (suc fuel) ps s = elim (mask_phrases ps s) [ [] ↦ [] | c ∷ t ↦ c ∷ mask_from fuel ps t ]

unfoldable pub mask_pending : List Bytes → Bytes → Bytes
mask_pending ps s = mask_from (length s) ps s

abbrev emit_masked : MaskingStream → Bytes → MaskingStream × Bytes
emit_masked f masked =
    let emit = length masked - (f.compiled.max_len - 1) in
    if emit == 0
    then (record f { pending = masked }, [])
    else (record f { pending = drop emit masked }, take emit masked)

-- `ProcessChunk`; it never blocks and has no error.
unfoldable pub process_chunk : MaskingStream → Bytes → MaskingStream × Bytes
process_chunk f input =
    if f.compiled.max_len == 0
    then (f, input)
    else if is_empty input
    then (f, input)
    else emit_masked f (mask_pending f.compiled.phrases (f.pending ++ input))

unfoldable pub flush : MaskingStream → MaskingStream × Bytes
flush f = (record f { pending = [] }, mask_pending f.compiled.phrases f.pending)

-- `NewFilter`; without phrases it is the filter that passes everything through.
unfoldable pub new_filter : MaskingFilter → MaskingStream
new_filter f = record { compiled = f; pending = [] }

-- The chunks in turn, then `Flush`.
unfoldable pub run : MaskingStream → List Bytes → Bytes
run f [] = (flush f).1
run f (c ∷ cs) = (process_chunk f c).1 ++ run (process_chunk f c).0 cs
