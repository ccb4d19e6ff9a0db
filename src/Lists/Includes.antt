-- ===== src/Lists/Includes.antt =====
-- The include directives are followed to an end: a file system of so many files needs no more fuel.
use lucid_gate.Prelude.{
  ℕ, zero, suc, ◌+◌, ◌≤◌, ◌<◌, ◌≡◌, ◌≢◌, inl, inr, Bool, true, false, Option, none, some, List, [],
  ◌∷◌, Bytes, arith, refl, if◌then◌else◌, Bool-cases, Option-cases, length,
}
use lucid_gate.Text.{Unicode, is_empty, has_key, ◌=ᵇ◌, =ᵇ_iff}
use lucid_gate.Lists.Outcome.{ListLine, loaded, failed}
use lucid_gate.Lists.Lines.{parse_include_line, strip_comment}
use lucid_gate.Lists.Loader.{
  FileSystem, Scan, Run, ◌>>=◌, checked_scan, load_lines, load_opened, load_plain_list_file,
  include_path,
}

-- Every file that can be opened is one of these.
abbrev pub HoldsFiles : FileSystem → List Bytes → Type 0
HoldsFiles fs known =
    (path abs : Bytes) (scan : Scan)
    → fs.abs path ≡ some abs
    → fs.open_file path ≡ some scan
    → has_key known abs ≡ true

remove : Bytes → List Bytes → List Bytes
remove k [] = []
remove k (x ∷ xs) = let rest = remove k xs in if x =ᵇ k then xs else x ∷ rest

length-remove :
    (k : Bytes) (xs : List Bytes) → has_key xs k ≡ true → length xs ≡ suc (length (remove k xs))
unfolding remove has_key
length-remove k [] h = absurd (cc)
length-remove k (x ∷ xs) h = elim (Bool-cases (x =ᵇ k)) [
  | inl e ↦ rw e refl
  | inr e ↦ ground (arith, e, length-remove k xs)
]

has_key-remove :
    (k j : Bytes) (xs : List Bytes)
    → (k =ᵇ j) ≡ false
    → has_key xs j ≡ true
    → has_key (remove k xs) j ≡ true
unfolding remove has_key
has_key-remove k j [] n h = h
has_key-remove k j (x ∷ xs) n h = elim (Bool-cases (x =ᵇ k)) [
  | inl e ↦ rw e (ground (arith, e, n, (=ᵇ_iff x k).0 e))
  | inr e ↦ rw e (ground (arith, n, has_key-remove k j xs n))
]

-- The files that are being read differ from one another, and are known.
abbrev IsStack : List Bytes → List Bytes → Type 0
IsStack known [] = Unit
IsStack known (a ∷ stack) =
    (has_key known a ≡ true) × (has_key stack a ≡ false) × IsStack known stack

=ᵇ_sym_false : (a k : Bytes) → (a =ᵇ k) ≡ false → (k =ᵇ a) ≡ false
=ᵇ_sym_false a k h = elim (Bool-cases (k =ᵇ a)) [
  | inl e ↦ absurd (ground (arith, h, (=ᵇ_iff k a).0 e, (=ᵇ_iff a a).1 refl))
  | inr e ↦ e
]

-- No more files are being read than there are.
IsStack-remove :
    (k : Bytes) (known stack : List Bytes)
    → has_key stack k ≡ false
    → IsStack known stack
    → IsStack (remove k known) stack
unfolding has_key
IsStack-remove k known [] n h = tt
IsStack-remove k known (a ∷ stack) n (h, d, r) = (
  has_key-remove k a known (=ᵇ_sym_false a k (ground (arith, n))) h,
  d,
  IsStack-remove k known stack (ground arith) r,
)

length-stack-le : (known stack : List Bytes) → IsStack known stack → length stack ≤ length known
length-stack-le known [] h = omega arith
length-stack-le known (a ∷ stack) (h, d, r) = omega (
  arith,
  length-remove a known h,
  length-stack-le (remove a known) stack (IsStack-remove a known stack d r),
)

Run-ne-none :
    {A B : Type 0} (m : Run A) (f : A → Run B)
    → m ≢ none
    → ((a : A) → f a ≢ none)
    → (m >>= f) ≢ none
Run-ne-none none f h g = absurd (h refl)
Run-ne-none (some (failed e)) f h g = λ x. cc
Run-ne-none (some (loaded a)) f h g = g a

load_lines_total :
    (fs : FileSystem) (u : Unicode) (nested : Bytes → Run (List ListLine)) (path : Bytes) (n : ℕ)
    (raws : List Bytes)
    → ((inc : Bytes) → nested inc ≢ none)
    → load_lines fs u nested path n raws ≢ none
unfolding load_lines
load_lines_total fs u nested path n [] h = λ x. cc
load_lines_total fs u nested path n (raw ∷ raws) h =
    let stripped = u.trim_space (strip_comment raw) in
    let rest = load_lines_total fs u nested path (suc n) raws h in
    elim (Bool-cases (is_empty stripped)) [
      | inl e ↦ rw e rest
      | inr e ↦ elim (Option-cases (parse_include_line u stripped)) [
        | inl f ↦ rw (e, f) (Run-ne-none _ _ rest (λ a x. cc))
        | inr (inc, f) ↦ elim (Bool-cases (is_empty inc)) [
          | inl g ↦ rw (e, f, g) (λ x. cc)
          | inr g ↦
              rw (e, f, g)
                (Run-ne-none _ _ (h (include_path fs path inc))
                  (λ lines. Run-ne-none _ _ rest (λ a x. cc)))
        ]
      ]
    ]

load_opened_total :
    (fs : FileSystem) (u : Unicode) (nested : Bytes → Run (List ListLine)) (path : Bytes)
    (opened : Option Scan)
    → ((scan : Scan) → opened ≡ some scan → (inc : Bytes) → nested inc ≢ none)
    → load_opened fs u nested path opened ≢ none
unfolding load_opened
load_opened_total fs u nested path none h = λ x. cc
load_opened_total fs u nested path (some scan) h =
    Run-ne-none _ _ (load_lines_total fs u nested path 0 scan.lines (h scan refl))
      (λ lines. scanned scan.complete lines)
  where
    scanned : (complete : Bool) (lines : List ListLine) → checked_scan path complete lines ≢ none
    scanned true lines = λ x. cc
    scanned false lines = λ x. cc

load_stacked_total :
    (fs : FileSystem) (u : Unicode) (known : List Bytes) (fuel : ℕ) (path : Bytes)
    (stack : List Bytes)
    → HoldsFiles fs known
    → IsStack known stack
    → length known < fuel + length stack
    → load_plain_list_file fs u fuel path stack ≢ none
unfolding load_plain_list_file
load_stacked_total fs u known zero path stack h s enough =
    absurd (omega (arith, length-stack-le known stack s))
load_stacked_total fs u known (suc fuel) path stack h s enough = elim (Option-cases (fs.abs path)) [
  | inl e ↦ rw (e, load_plain_list_file) (λ x. cc)
  | inr (a, e) ↦ elim (Bool-cases (has_key stack a)) [
    | inl cycle ↦ rw (e, cycle, load_plain_list_file) (λ x. cc)
    | inr fresh ↦
        rw (e, fresh, load_plain_list_file)
          (load_opened_total fs u (λ inc. load_plain_list_file fs u fuel inc (a ∷ stack)) path
            (fs.open_file path)
            (λ scan opened inc.
              load_stacked_total fs u known fuel inc (a ∷ stack) h
                (h path a scan e opened, fresh, s) (omega arith)))
  ]
]

-- Where every file that can be opened is one of a list, fuel for one file more than the list has is enough
-- to load any file, or to fail: the includes are followed to an end.
pub load_plain_list_file_total :
    (fs : FileSystem) (u : Unicode) (known : List Bytes) (fuel : ℕ) (path : Bytes)
    → HoldsFiles fs known
    → length known < fuel
    → load_plain_list_file fs u fuel path [] ≢ none
load_plain_list_file_total fs u known fuel path h enough =
    load_stacked_total fs u known fuel path [] h tt (omega arith)
