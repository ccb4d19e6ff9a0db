-- ===== src/Semantic/Entries.antt =====
-- The phrases of a filter with what each of them does, and what they say about the end of a text.
use lucid_gate.Prelude.{
  ℕ, ◌≡◌, ◌||◌, Bool, true, false, List, [], ◌∷◌, ◌++◌, Bytes, ℤ, pos, negsuc, map, inl, inr,
  if◌then◌else◌, arith, refl, Bool-cases,
}
use lucid_gate.Text.{Unicode, is_empty, ◌=ᵇ◌}
use lucid_gate.Filter.Masking.{normalize_phrase}
use lucid_gate.Semantic.Automaton.{i32, WeightedPhrase}
use lucid_gate.Semantic.Mark.{Mark, no_mark, join, Fits, Fits-join}

pub record Entry : Type 0 where
  pub key : Bytes
  pub gives : Mark

-- What an entry gives to the node of its phrase.
abbrev pub given : ℕ → Bool → Bool → Mark
given score hard exception = record { hard = hard; excpt = exception; score = i32 score }

abbrev pub blocked_entry : Bytes → Entry
blocked_entry p = record { key = p; gives = given 0 true false }

abbrev pub excepted_entry : Bytes → Entry
excepted_entry p = record { key = p; gives = given 0 false true }

abbrev pub natural : ℤ → ℕ
natural (pos n) = n
natural (negsuc n) = 0

abbrev pub weighted_entry : WeightedPhrase → Entry
weighted_entry p = record { key = p.phrase; gives = given (natural p.weight) false false }

abbrev pub with_key : Bytes → Mark → List Entry → List Entry
with_key key m entries = if is_empty key then entries else record { key = key; gives = m } ∷ entries

-- The entries with their phrases normalised, the last one first, on top of others.
unfoldable pub entries_of : Unicode → List Entry → List Entry → List Entry
entries_of u entries [] = entries
entries_of u entries (p ∷ ps) =
    entries_of u (with_key (normalize_phrase u p.key) p.gives entries) ps

pub entries_of-append :
    (u : Unicode) (entries xs ys : List Entry)
    → entries_of u entries (xs ++ ys) ≡ entries_of u (entries_of u entries xs) ys
unfolding entries_of
entries_of-append u entries [] ys = refl
entries_of-append u entries (p ∷ xs) ys =
    entries_of-append u (with_key (normalize_phrase u p.key) p.gives entries) xs ys

-- All phrases of a filter, as they are written in its lists.
abbrev pub filter_entries : List Bytes → List WeightedPhrase → List Bytes → List Entry
filter_entries blocked weighted exceptions =
    map blocked_entry blocked ++ (map weighted_entry weighted ++ map excepted_entry exceptions)

unfoldable pub has_entry : List Entry → Bytes → Bool
has_entry [] x = false
has_entry (e ∷ es) x = e.key =ᵇ x || has_entry es x

-- What the entries of one phrase give together.
unfoldable pub says : List Entry → Bytes → Mark
says [] x = no_mark
says (e ∷ es) x = let older = says es x in if e.key =ᵇ x then join older e.gives else older

-- What all phrases give that a text ends with.
unfoldable pub told : List Entry → Bytes → Mark
told es [] = no_mark
told es (c ∷ s) = join (says es (c ∷ s)) (told es s)

pub Fits-says : (es : List Entry) (x : Bytes) → Fits (says es x)
unfolding says
Fits-says [] x = ground arith
Fits-says (e ∷ es) x = elim (Bool-cases (e.key =ᵇ x)) [
  | inl h ↦ rw h (Fits-join (says es x) e.gives)
  | inr h ↦ rw h (Fits-says es x)
]

pub Fits-told : (es : List Entry) (s : Bytes) → Fits (told es s)
unfolding told
Fits-told es [] = ground arith
Fits-told es (c ∷ s) = Fits-join (says es (c ∷ s)) (told es s)

pub says_missing : (es : List Entry) (x : Bytes) → has_entry es x ≡ false → says es x ≡ no_mark
unfolding says has_entry
says_missing [] x h = refl
says_missing (e ∷ es) x h =
    let other : (e.key =ᵇ x) ≡ false = ground (arith, h) in
    rw other (says_missing es x (ground (arith, h, other)))

says-with_key :
    (key : Bytes) (m : Mark) (entries : List Entry)
    → says entries [] ≡ no_mark
    → says (with_key key m entries) [] ≡ no_mark
unfolding is_empty says ◌=ᵇ◌
says-with_key [] m entries h = h
says-with_key (c ∷ key) m entries h = h

-- No phrase is empty.
pub says-entries_of :
    (u : Unicode) (entries ps : List Entry)
    → says entries [] ≡ no_mark
    → says (entries_of u entries ps) [] ≡ no_mark
unfolding entries_of
says-entries_of u entries [] h = h
says-entries_of u entries (p ∷ ps) h =
    says-entries_of u (with_key (normalize_phrase u p.key) p.gives entries) ps
      (says-with_key (normalize_phrase u p.key) p.gives entries h)
