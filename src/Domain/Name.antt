-- ===== src/Domain/Name.antt =====
-- proxy/domain_rules.go: normalised host names and their labels.
use lucid_gate.Prelude.{
  ℕ, zero, suc, ◌≡◌, ◌||◌, none, some, List, [], ◌∷◌, ◌++◌, Bytes, codes, ◌==◌, if◌then◌else◌, take,
  drop, arith, refl, ◌≢◌, ◌<◌, length, Option-cases, inl, inr,
}
use lucid_gate.Text.{Unicode, is_empty, trim_prefix, trim_suffix, contains_byte, last_index_byte}

abbrev pub dot : ℕ
dot = b'.'

abbrev pub slash : ℕ
slash = b'/'

unfoldable pub normalized_domain : Unicode → Bytes → Bytes
normalized_domain u host =
    let lowered = u.trim_space (u.to_lower host) in
    let trimmed = trim_suffix (trim_prefix lowered (codes ".")) (codes ".") in
    if is_empty trimmed || contains_byte trimmed slash then [] else trimmed

-- A byte in front of the first piece.
abbrev extend_first : ℕ → List Bytes → List Bytes
extend_first c [] = (c ∷ []) ∷ []
extend_first c (p ∷ ps) = (c ∷ p) ∷ ps

-- The text between the dots, empty pieces included.
unfoldable pub pieces : Bytes → List Bytes
pieces [] = [] ∷ []
pieces (c ∷ s) = let rest = pieces s in if c == dot then [] ∷ rest else extend_first c rest

unfoldable pub non_empty : List Bytes → List Bytes
unfolding is_empty
non_empty [] = []
non_empty (p ∷ ps) = if is_empty p then non_empty ps else p ∷ non_empty ps

-- `strings.FieldsFunc` at the dot.
unfoldable pub fields : Bytes → List Bytes
unfolding pieces non_empty
fields s = non_empty (pieces s)

unfoldable pub normalized_domain_labels : Unicode → Bytes → List Bytes
normalized_domain_labels u host =
    let h = normalized_domain u host in if is_empty h || contains_byte h slash then [] else fields h

pub pieces-no_dot : (h : Bytes) → last_index_byte h dot ≡ none → pieces h ≡ h ∷ []
unfolding pieces last_index_byte
pieces-no_dot [] e = refl
pieces-no_dot (c ∷ s) e = ground (arith, pieces-no_dot s)

pieces-ne-nil : (s : Bytes) → pieces s ≢ []
unfolding pieces
pieces-ne-nil [] h = cc
pieces-ne-nil (c ∷ s) h = ground (arith, pieces-ne-nil s)

extend_first-append :
    (c : ℕ) (ps qs : List Bytes) → ps ≢ [] → extend_first c (ps ++ qs) ≡ extend_first c ps ++ qs
extend_first-append c [] qs h = absurd (h refl)
extend_first-append c (p ∷ ps) qs h = refl

-- The last dot cuts off the last piece.
pub pieces-last_index_byte :
    (h : Bytes) (i : ℕ)
    → last_index_byte h dot ≡ some i
    → pieces h ≡ pieces (take i h) ++ drop (suc i) h ∷ []
unfolding pieces last_index_byte
pieces-last_index_byte [] i e = cc
pieces-last_index_byte (c ∷ s) zero e = ground (arith, pieces-no_dot s)
pieces-last_index_byte (c ∷ s) (suc i) e = ground (
  arith,
  pieces-last_index_byte s i,
  extend_first-append c (pieces (take i s)) (drop (suc i) s ∷ []) (pieces-ne-nil (take i s)),
)

pub non_empty-append : (ps qs : List Bytes) → non_empty (ps ++ qs) ≡ non_empty ps ++ non_empty qs
unfolding non_empty
non_empty-append [] qs = refl
non_empty-append (p ∷ ps) qs = ground (arith, non_empty-append ps qs)

pub last_index_byte-lt : (h : Bytes) (b i : ℕ) → last_index_byte h b ≡ some i → i < length h
unfolding last_index_byte
last_index_byte-lt [] b i e = cc
last_index_byte-lt (c ∷ s) b i e = elim (Option-cases (last_index_byte s b)) [
  | inl m ↦ ground arith
  | inr (j, m) ↦ ground (arith, last_index_byte-lt s b j m)
]
