-- ===== src/Filter/Fold.antt =====
-- proxy/masking_filter.go, proxy/semantic_filter.go: comparing bytes without regard to ASCII case.
use lucid_gate.Prelude.{
  ℕ, ◌+◌, ◌≤◌, ◌<◌, ◌≡◌, Bool, true, false, ◌&&◌, [], ◌∷◌, ◌++◌, Bytes, ◌==◌, leb, if◌then◌else◌,
  length, take, arith, length-append, take-append_left, le→leb, lt→leb,
}

-- `lowerASCII`, on a byte.
unfoldable pub lower_ascii : ℕ → ℕ
lower_ascii b = if leb b'A' b && leb b b'Z' then b + 32 else b

-- The loop of `asciiEqualFoldBytes`, after its test of the lengths.
unfoldable pub fold_loop : Bytes → Bytes → Bool
fold_loop [] normalized = true
fold_loop (c ∷ src) [] = true
fold_loop (c ∷ src) (n ∷ normalized) = lower_ascii c == n && fold_loop src normalized

unfoldable pub ascii_equal_fold_bytes : Bytes → Bytes → Bool
ascii_equal_fold_bytes src normalized =
    if length src == length normalized then fold_loop src normalized else false

-- The test at an index `i` that the filters make: the phrase fits into `s = pending[i:]`, and
-- `pending[i:i+len(phrase)]` equals it.
unfoldable pub matches_at : Bytes → Bytes → Bool
matches_at phrase s =
    leb (length phrase) (length s) && ascii_equal_fold_bytes (take (length phrase) s) phrase

-- What follows the window does not matter.
pub matches_at-append :
    (phrase s t : Bytes)
    → length phrase ≤ length s
    → matches_at phrase (s ++ t) ≡ matches_at phrase s
unfolding matches_at
matches_at-append phrase s t h = rw (
  le→leb (length phrase) (length (s ++ t)) (omega (arith, length-append s t)),
  le→leb (length phrase) (length s) h,
  take-append_left (length phrase) s t h,
)

pub matches_at_short : (phrase s : Bytes) → length s < length phrase → matches_at phrase s ≡ false
unfolding matches_at
matches_at_short phrase s h = rw (lt→leb (length phrase) (length s) h)

pub matches_at-le : (phrase s : Bytes) → matches_at phrase s ≡ true → length phrase ≤ length s
unfolding matches_at
matches_at-le phrase s h = ground arith
