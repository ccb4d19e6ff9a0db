-- ===== src/Semantic/Phrases.antt =====
-- What the entries of a filter of phrases alone say.
use lucid_gate.Prelude.{
  ℕ, ◌≡◌, ◌⊎◌, inl, inr, Bool, true, false, ◌||◌, List, [], ◌∷◌, ◌++◌, Bytes, All, map, arith, refl,
  sym, ap, ◌∙◌, Bool-cases,
}
use mathlib.Core.List.{Memᴰ}
use mathlib.Core.List.Memᴰ
use lucid_gate.Text.{Unicode, is_empty, ◌=ᵇ◌, =ᵇ_iff}
use lucid_gate.Filter.Masking.{normalize_phrase}
use lucid_gate.Semantic.Mark.{Mark, join}
use lucid_gate.Semantic.Entries.{
  Entry, given, blocked_entry, with_key, entries_of, has_entry, says, told,
}

-- A phrase of the list whose normal form is the key, which is not empty.
abbrev pub Normalizes : Unicode → List Bytes → Bytes → Type 0
Normalizes u ps key =
    (p : Bytes) × Memᴰ p ps × (normalize_phrase u p ≡ key) × (is_empty key ≡ false)

-- A text that ends with a phrase of the list.
abbrev pub EndsWith : Unicode → List Bytes → Bytes → Type 0
EndsWith u ps s = (before key : Bytes) × (s ≡ before ++ key) × Normalizes u ps key

has_entry-with_key :
    (key x : Bytes) (m : Mark) (entries : List Entry)
    → has_entry (with_key key m entries) x ≡ true
    → (has_entry entries x ≡ true) ⊎ ((key ≡ x) × (is_empty x ≡ false))
unfolding is_empty has_entry
has_entry-with_key [] x m entries h = inl h
has_entry-with_key (c ∷ key) x m entries h = elim (Bool-cases ((c ∷ key) =ᵇ x)) [
  | inl same ↦ let it = (=ᵇ_iff (c ∷ key) x).0 same in inr (it, ap is_empty (sym it))
  | inr other ↦ inl (ground (arith, h, other))
]

with_key-has_entry :
    (key x : Bytes) (m : Mark) (entries : List Entry)
    → (has_entry entries x ≡ true) ⊎ ((key ≡ x) × (is_empty x ≡ false))
    → has_entry (with_key key m entries) x ≡ true
unfolding is_empty has_entry
with_key-has_entry [] x m entries (inl h) = h
with_key-has_entry [] x m entries (inr (e, filled)) =
    absurd (ground (arith, sym filled ∙ ap is_empty (sym e)))
with_key-has_entry (c ∷ key) x m entries (inl h) = ground (arith, h)
with_key-has_entry (c ∷ key) x m entries (inr (e, filled)) =
    ground (arith, (=ᵇ_iff (c ∷ key) x).1 e)

abbrev phrase_entries : Unicode → List Entry → List Bytes → List Entry
phrase_entries u entries ps = entries_of u entries (map blocked_entry ps)

entries_of-Normalizes :
    (u : Unicode) (entries : List Entry) (ps : List Bytes) (x : Bytes)
    → has_entry (phrase_entries u entries ps) x ≡ true
    → (has_entry entries x ≡ true) ⊎ Normalizes u ps x
unfolding entries_of
entries_of-Normalizes u entries [] x h = inl h
entries_of-Normalizes u entries (p ∷ ps) x h =
    let next = with_key (normalize_phrase u p) (given 0 true false) entries in
    elim (entries_of-Normalizes u next ps x h) [
      | inr (q, mem, same, filled) ↦ inr (q, Memᴰ.tail mem, same, filled)
      | inl k ↦ elim (has_entry-with_key (normalize_phrase u p) x (given 0 true false) entries k) [
        | inl old ↦ inl old
        | inr (same, filled) ↦ inr (p, Memᴰ.head refl, same, filled)
      ]
    ]

Normalizes-entries_of :
    (u : Unicode) (entries : List Entry) (ps : List Bytes) (x : Bytes)
    → (has_entry entries x ≡ true) ⊎ Normalizes u ps x
    → has_entry (phrase_entries u entries ps) x ≡ true
unfolding entries_of
Normalizes-entries_of u entries [] x (inl h) = h
Normalizes-entries_of u entries [] x (inr (p, mem, same, filled)) = absurd (Memᴰ.not-nil mem)
Normalizes-entries_of u entries (p ∷ ps) x h =
    let add = with_key-has_entry (normalize_phrase u p) x (given 0 true false) entries in
    Normalizes-entries_of u (with_key (normalize_phrase u p) (given 0 true false) entries) ps x
      (elim h [
        | inl old ↦ inl (add (inl old))
        | inr (q, mem, same, filled) ↦ elim (Memᴰ.cases_cons mem) [
          | inr there ↦ inr (q, there, same, filled)
          | inl here ↦ inl (add (inr (ap (normalize_phrase u) (sym here) ∙ same, filled)))
        ]
      ])

-- Entries that block, without weight or exception.
abbrev Block : List Entry → Type 0
Block entries = All (λ e. e.gives ≡ given 0 true false) entries

with_key-Block :
    (key : Bytes) (entries : List Entry)
    → Block entries
    → Block (with_key key (given 0 true false) entries)
unfolding is_empty
with_key-Block [] entries h = h
with_key-Block (c ∷ key) entries h = (refl, h)

entries_of-Block :
    (u : Unicode) (entries : List Entry) (ps : List Bytes)
    → Block entries
    → Block (phrase_entries u entries ps)
unfolding entries_of
entries_of-Block u entries [] h = h
entries_of-Block u entries (p ∷ ps) h =
    entries_of-Block u (with_key (normalize_phrase u p) (given 0 true false) entries) ps
      (with_key-Block (normalize_phrase u p) entries h)

abbrev Blocks : Bool → Mark → Type 0
Blocks hard m = (m.hard ≡ hard) × (m.excpt ≡ false) × (m.score ≡ 0)

join-Blocks : (m k : Mark) (a b : Bool) → Blocks a m → Blocks b k → Blocks (a || b) (join m k)
unfolding join
join-Blocks m k a b h g = (ground (arith, h, g), ground (arith, h, g), ground (arith, h, g))

says-Blocks :
    (entries : List Entry) (x : Bytes)
    → Block entries
    → Blocks (has_entry entries x) (says entries x)
unfolding says has_entry
says-Blocks [] x h = (refl, refl, refl)
says-Blocks (e ∷ entries) x h =
    let older = says-Blocks entries x h.1 in
    elim (Bool-cases (e.key =ᵇ x)) [
      | inr other ↦ rw other older
      | inl same ↦
          let both =
            join-Blocks (says entries x) (given 0 true false) (has_entry entries x) true older
              (refl, refl, refl) in
          rw (same, h.0) (both.0 ∙ ground arith, both.1, both.2)
    ]

module _ (u : Unicode) (ps : List Bytes) where
  abbrev pub entries : List Entry
  entries = phrase_entries u [] ps

  entries-Block : Block entries
  entries-Block = entries_of-Block u [] ps tt

  entry_iff :
      (x : Bytes)
      → (has_entry entries x ≡ true → Normalizes u ps x)
        × (Normalizes u ps x → has_entry entries x ≡ true)
  entry_iff x = (
    λ h. elim (entries_of-Normalizes u [] ps x h) [
      | inl none_there ↦ absurd (unfold has_entry in ground (arith, none_there))
      | inr n ↦ n
    ],
    λ n. Normalizes-entries_of u [] ps x (inr n),
  )

  -- What is said at the end of a text: whether it ends with a phrase.
  pub told-Blocks : (s : Bytes) → Blocks (told entries s).hard (told entries s)
  unfolding told
  told-Blocks [] = (refl, refl, refl)
  told-Blocks (c ∷ s) =
      let (hard, plain, light) =
        join-Blocks (says entries (c ∷ s)) (told entries s) _ _
          (says-Blocks entries (c ∷ s) entries-Block) (told-Blocks s) in
      (refl, plain, light)

  hard-told :
      (c : ℕ) (s : Bytes)
      → (told entries (c ∷ s)).hard ≡ (has_entry entries (c ∷ s) || (told entries s).hard)
  unfolding told join
  hard-told c s = ap (λ h. h || (told entries s).hard) (says-Blocks entries (c ∷ s) entries-Block).0

  ends_later : (c : ℕ) (s : Bytes) → EndsWith u ps s → EndsWith u ps (c ∷ s)
  ends_later c s (before, key, e, n) = (c ∷ before, key, ap (λ s. c ∷ s) e, n)

  pub told-EndsWith : (s : Bytes) → (told entries s).hard ≡ true → EndsWith u ps s
  told-EndsWith [] h = absurd (unfold told in ground (arith, h))
  told-EndsWith (c ∷ s) h = elim (Bool-cases (has_entry entries (c ∷ s))) [
    | inl here ↦ ([], c ∷ s, refl, (entry_iff (c ∷ s)).0 here)
    | inr other ↦ ends_later c s (told-EndsWith s (ground (arith, hard-told c s, h, other)))
  ]

  told_later :
      (before key : Bytes) → Normalizes u ps key → (told entries (before ++ key)).hard ≡ true
  told_later [] [] (p, mem, same, filled) = absurd (unfold is_empty in ground (arith, filled))
  told_later [] (c ∷ s) known = hard-told c s ∙ ground (arith, (entry_iff (c ∷ s)).1 known)
  told_later (c ∷ before) key known =
      hard-told c (before ++ key) ∙ ground (arith, told_later before key known)

  pub EndsWith-told : (s : Bytes) → EndsWith u ps s → (told entries s).hard ≡ true
  EndsWith-told s (before, key, e, known) =
      ap (λ s. (told entries s).hard) e ∙ told_later before key known
