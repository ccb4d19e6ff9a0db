-- ===== src/Lists/RoundTrip.antt =====
-- Lines that are written as rules are read back as them.
use lucid_gate.Prelude.{
  ℕ, suc, ◌-◌, ◌≡◌, pos, true, false, some, [], ◌∷◌, ◌++◌, Bytes, codes, ltb, leb, arith, refl, ap,
  ◌∙◌, length, take, drop, reverse-append, length-append,
}
use lucid_gate.Text.{is_empty, has_prefix, has_suffix, index, contains_byte}
use lucid_gate.Lists.Outcome.{Texts, loaded}
use lucid_gate.Lists.Lines.{slice, parse_weight, parse_phrase, parse_weighted_line}

-- The first byte that closes the phrase.
index_close :
    (s t : Bytes)
    → contains_byte s b'>' ≡ false
    → index (s ++ b'>' ∷ t) (codes ">") ≡ some (length s)
unfolding index contains_byte has_prefix
index_close [] t h = refl
index_close (c ∷ s) t h = ground (arith, index_close s t (ground (arith, h)))

take-length : (s t : Bytes) → take (length s) (s ++ t) ≡ s
take-length [] t = refl
take-length (c ∷ s) t = ap (λ r. c ∷ r) (take-length s t)

drop-length : (s t : Bytes) → drop (length s) (s ++ t) ≡ t
drop-length [] t = refl
drop-length (c ∷ s) t = drop-length s t

slice_front : (s t : Bytes) (c : ℕ) → slice (c ∷ (s ++ t)) 1 (suc (length s)) ≡ s
slice_front s t c = take-length s t

has_suffix_last : (s : Bytes) (c : ℕ) → has_suffix (s ++ c ∷ []) (c ∷ []) ≡ true
unfolding has_suffix has_prefix
has_suffix_last s c = rw (reverse-append s (c ∷ [])) (ground arith)

-- `<weight>`.
abbrev pub bracketed : Bytes → Bytes
bracketed weight = b'<' ∷ (weight ++ b'>' ∷ [])

slice-bracketed :
    (weight : Bytes) → slice (bracketed weight) 1 (length (bracketed weight) - 1) ≡ weight
slice-bracketed weight =
    let n : suc (length (weight ++ b'>' ∷ [])) - 1 ≡ suc (length weight) =
      omega (arith, length-append weight (b'>' ∷ [])) in
    rw n (take-length weight (b'>' ∷ []))

drop_past : (s t : Bytes) (c : ℕ) → drop (suc (length s)) (s ++ c ∷ t) ≡ t
drop_past [] t c = refl
drop_past (x ∷ s) t c = drop_past s t c

has_suffix-bracketed : (weight : Bytes) → has_suffix (bracketed weight) (codes ">") ≡ true
has_suffix-bracketed weight = has_suffix_last (b'<' ∷ weight) b'>'

-- The three parts of the parser, each on what it is given here.
parse_weight-bracketed :
    (lib : Texts) (phrase weight : Bytes) (n : ℕ)
    → is_empty phrase ≡ false
    → is_empty weight ≡ false
    → lib.trim_space weight ≡ weight
    → lib.atoi weight ≡ some (pos (suc n))
    → parse_weight lib phrase (bracketed weight) ≡ loaded (phrase, suc n)
unfolding is_empty has_prefix
parse_weight-bracketed lib phrase [] n filled some_weight trim reads = absurd (cc)
parse_weight-bracketed lib phrase (d ∷ weight) n filled some_weight trim reads =
    let long : ltb (length (bracketed (d ∷ weight))) 3 ≡ false =
      ground (arith, length-append weight (b'>' ∷ [])) in
    rw (has_suffix-bracketed (d ∷ weight), long)
      (rw (slice-bracketed (d ∷ weight), trim, reads) (ground (arith, filled)))

parse_phrase_line :
    (lib : Texts) (phrase weight : Bytes) (n : ℕ)
    → is_empty phrase ≡ false
    → lib.trim_space (bracketed weight) ≡ bracketed weight
    → parse_weight lib phrase (bracketed weight) ≡ loaded (phrase, suc n)
    → parse_phrase lib (b'<' ∷ (phrase ++ b'>' ∷ bracketed weight)) (some (suc (length phrase)))
      ≡ loaded (phrase, suc n)
unfolding is_empty
parse_phrase_line lib [] weight n filled trim w = absurd (cc)
parse_phrase_line lib (c ∷ phrase) weight n filled trim w =
    let line = b'<' ∷ ((c ∷ phrase) ++ b'>' ∷ bracketed weight) in
    let far : leb (suc (length (c ∷ phrase))) 1 ≡ false = ground arith in
    let front = slice_front (c ∷ phrase) (b'>' ∷ bracketed weight) b'<' in
    let back : lib.trim_space (drop (suc (suc (length (c ∷ phrase)))) line) ≡ bracketed weight =
      ap lib.trim_space (drop_past (c ∷ phrase) (bracketed weight) b'>') ∙ trim in
    rw far (
      ap (λ r. parse_weight lib r (lib.trim_space (drop (suc (suc (length (c ∷ phrase)))) line)))
        front
      ∙ ap (λ r. parse_weight lib (c ∷ phrase) r) back
      ∙ w)

-- A weighted phrase that is written as a line is read back as the phrase and its weight, where the phrase
-- is not empty and does not hold the closing bracket, `Atoi` reads the weight as a positive number, and
-- the white space that is trimmed is neither around the weight nor around it in its brackets.
pub parse_weighted_line-weighted_line :
    (lib : Texts) (phrase weight : Bytes) (n : ℕ)
    → is_empty phrase ≡ false
    → contains_byte phrase b'>' ≡ false
    → is_empty weight ≡ false
    → lib.trim_space weight ≡ weight
    → lib.trim_space (bracketed weight) ≡ bracketed weight
    → lib.atoi weight ≡ some (pos (suc n))
    → parse_weighted_line lib (b'<' ∷ (phrase ++ b'>' ∷ bracketed weight)) ≡ loaded (phrase, suc n)
unfolding parse_weighted_line has_prefix
parse_weighted_line-weighted_line lib phrase weight n filled inner some_weight trim_w trim_b reads =
    rw
      (index_close (b'<' ∷ phrase) (bracketed weight)
        (unfold contains_byte in ground (arith, inner)))
      (parse_phrase_line lib phrase weight n filled trim_b
        (parse_weight-bracketed lib phrase weight n filled some_weight trim_w reads))
