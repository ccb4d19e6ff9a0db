-- ===== src/Text.antt =====
-- Go's strings as bytes: what the proxy uses of the package `strings`.
use lucid_gate.Prelude.{
  ℕ, suc, ◌≡◌, Bool, true, false, ◌&&◌, ◌||◌, Option, none, some, List, [], ◌∷◌, Bytes, ltb, ◌==◌,
  if◌then◌else◌, length, reverse, drop, arith, ◌↔◌, refl,
}

-- `strings.ToLower` and `strings.TrimSpace` go by Unicode's tables: they are parameters.
pub record Unicode : Type 0 where
  pub to_lower : Bytes → Bytes
  pub trim_space : Bytes → Bytes

infix 50 ◌=ᵇ◌
-- `==` on strings.
unfoldable pub ◌=ᵇ◌ : Bytes → Bytes → Bool
[] =ᵇ [] = true
[] =ᵇ (y ∷ ys) = false
(x ∷ xs) =ᵇ [] = false
(x ∷ xs) =ᵇ (y ∷ ys) = x == y && (xs =ᵇ ys)

infix 50 ◌≺◌
-- `<` on strings.
unfoldable pub ◌≺◌ : Bytes → Bytes → Bool
xs ≺ [] = false
[] ≺ (y ∷ ys) = true
(x ∷ xs) ≺ (y ∷ ys) = let rest = xs ≺ ys in if x == y then rest else ltb x y

unfoldable pub is_empty : Bytes → Bool
is_empty [] = true
is_empty (x ∷ xs) = false

unfoldable pub has_prefix : Bytes → Bytes → Bool
has_prefix s [] = true
has_prefix [] (p ∷ ps) = false
has_prefix (c ∷ s) (p ∷ ps) = c == p && has_prefix s ps

unfoldable pub trim_prefix : Bytes → Bytes → Bytes
unfolding has_prefix
trim_prefix s p = if has_prefix s p then drop (length p) s else s

unfoldable pub has_suffix : Bytes → Bytes → Bool
unfolding has_prefix
has_suffix s p = has_prefix (reverse s) (reverse p)

unfoldable pub trim_suffix : Bytes → Bytes → Bytes
unfolding trim_prefix
trim_suffix s p = reverse (trim_prefix (reverse s) (reverse p))

unfoldable pub contains_byte : Bytes → ℕ → Bool
contains_byte [] b = false
contains_byte (c ∷ s) b = c == b || contains_byte s b

-- The test of a map with the keys `xs`.
unfoldable pub has_key : List Bytes → Bytes → Bool
has_key [] k = false
has_key (x ∷ xs) k = x =ᵇ k || has_key xs k

-- `s[:i]` for the index `i` of the first `b`, or `s`.
unfoldable pub before_byte : Bytes → ℕ → Bytes
before_byte [] b = []
before_byte (c ∷ s) b = if c == b then [] else c ∷ before_byte s b

abbrev shift : Option ℕ → Option ℕ
shift none = none
shift (some i) = some (suc i)

-- `strings.Index` and `bytes.Index`.
unfoldable pub index : Bytes → Bytes → Option ℕ
index [] p = if is_empty p then some 0 else none
index (c ∷ s) p = let later = shift (index s p) in if has_prefix (c ∷ s) p then some 0 else later

unfoldable pub contains : Bytes → Bytes → Bool
unfolding index
contains s p = elim (index s p) [ none ↦ false | some i ↦ true ]

-- `strings.LastIndexByte`, with `none` for -1.
unfoldable pub last_index_byte : Bytes → ℕ → Option ℕ
last_index_byte [] b = none
last_index_byte (c ∷ s) b = elim (last_index_byte s b) [
  | some i ↦ some (suc i)
  | none ↦ if c == b then some 0 else none
]

=ᵇ→eq : (xs ys : Bytes) → (xs =ᵇ ys) ≡ true → xs ≡ ys
unfolding ◌=ᵇ◌
=ᵇ→eq [] [] h = refl
=ᵇ→eq [] (y ∷ ys) h = cc
=ᵇ→eq (x ∷ xs) [] h = cc
=ᵇ→eq (x ∷ xs) (y ∷ ys) h = ground (arith, =ᵇ→eq xs ys)

=ᵇ_refl : (xs : Bytes) → (xs =ᵇ xs) ≡ true
unfolding ◌=ᵇ◌
=ᵇ_refl [] = refl
=ᵇ_refl (x ∷ xs) = ground (arith, =ᵇ_refl xs)

pub =ᵇ_iff : (xs ys : Bytes) → ((xs =ᵇ ys) ≡ true) ↔ (xs ≡ ys)
=ᵇ_iff xs ys = (=ᵇ→eq xs ys, λ e. ground (arith, =ᵇ_refl xs))

pub ≺_irrefl : (xs : Bytes) → (xs ≺ xs) ≡ false
unfolding ◌≺◌
≺_irrefl [] = refl
≺_irrefl (x ∷ xs) = ground (arith, ≺_irrefl xs)

pub ≺_trans : (xs ys zs : Bytes) → (xs ≺ ys) ≡ true → (ys ≺ zs) ≡ true → (xs ≺ zs) ≡ true
unfolding ◌≺◌
≺_trans xs ys [] p q = cc
≺_trans xs [] (z ∷ zs) p q = cc
≺_trans [] (y ∷ ys) (z ∷ zs) p q = refl
≺_trans (x ∷ xs) (y ∷ ys) (z ∷ zs) p q = ground (arith, ≺_trans xs ys zs)

-- Two strings neither of which is below the other are equal.
pub ≺_connex : (xs ys : Bytes) → (xs ≺ ys) ≡ false → (ys ≺ xs) ≡ false → xs ≡ ys
unfolding ◌≺◌
≺_connex [] [] p q = refl
≺_connex [] (y ∷ ys) p q = cc
≺_connex (x ∷ xs) [] p q = cc
≺_connex (x ∷ xs) (y ∷ ys) p q = ground (arith, ≺_connex xs ys)
