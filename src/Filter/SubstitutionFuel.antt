-- ===== src/Filter/SubstitutionFuel.antt =====
-- The replacement of a literal has fuel enough.
use lucid_gate.Prelude.{
  ℕ, zero, suc, ◌+◌, ◌<◌, ◌≡◌, inl, inr, ◌++◌, Bytes, length, take, drop, arith, sym, ap, ◌∙◌,
  length-drop, Option-cases,
}
use lucid_gate.Text.{index}
use lucid_gate.Filter.Substitution.{replace_literal}
use lucid_gate.Filter.SubstitutionLength.{replace_literal-none, replace_literal-some, index-le}

-- The replacement of a literal that is not empty is the same for every fuel above the length of the text, so
-- the fuel that it is given never ends it.
pub replace_literal_enough :
    (n m : ℕ) (sought target s : Bytes)
    → 0 < length sought
    → length s < n
    → length s < m
    → replace_literal n sought target s ≡ replace_literal m sought target s
replace_literal_enough zero m sought target s l h k = absurd (omega arith)
replace_literal_enough (suc n) zero sought target s l h k = absurd (omega arith)
replace_literal_enough (suc n) (suc m) sought target s l h k =
    elim (Option-cases (index s sought)) [
      | inl e ↦
          replace_literal-none n sought target s e ∙ sym (replace_literal-none m sought target s e)
      | inr (i, e) ↦
          let rest = drop (i + length sought) s in
          let cut_off = length-drop (i + length sought) s in
          let inside = index-le s sought i e in
          replace_literal-some n sought target s i e
          ∙ ap (λ r. take i s ++ target ++ r)
              (replace_literal_enough n m sought target rest l (omega (arith, cut_off, inside))
                (omega (arith, cut_off, inside)))
          ∙ sym (replace_literal-some m sought target s i e)
    ]
