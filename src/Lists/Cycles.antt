-- ===== src/Lists/Cycles.antt =====
-- Files that include one another in a cycle.
use lucid_gate.Prelude.{
  ℕ, zero, suc, ◌<◌, ◌≡◌, ◌≢◌, inl, inr, true, false, none, some, List, [], ◌∷◌, Bytes, arith, refl,
  sym, ap, ◌∙◌, if◌then◌else◌, Bool-cases, Option-cases, length,
}
use mathlib.Core.List.{Memᴰ}
use mathlib.Core.List.Memᴰ
use lucid_gate.Text.{Unicode, is_empty, has_key}
use lucid_gate.Lists.Outcome.{ListLine, Fault, LoadError, loaded, failed}
use lucid_gate.Lists.Lines.{parse_include_line, strip_comment}
use lucid_gate.Lists.Loader.{
  FileSystem, Scan, Run, ◌>>=◌, done, with_front, >>=-eq-done, load_lines, load_opened,
  load_plain_list_file, include_path,
}
use lucid_gate.Lists.Includes.{HoldsFiles, load_plain_list_file_total}

-- A line that includes a file.
abbrev Directive : Unicode → Bytes → Bytes → Type 0
Directive u raw inc =
    (is_empty (u.trim_space (strip_comment raw)) ≡ false)
    × (parse_include_line u (u.trim_space (strip_comment raw)) ≡ some inc)
    × (is_empty inc ≡ false)

-- A file that can be opened, with a line that includes another one.
abbrev pub IncludesFile : FileSystem → Unicode → Bytes → Bytes → Type 0
IncludesFile fs u path target =
    (scan : Scan) × (raw inc : Bytes) × (fs.open_file path ≡ some scan)
    × Memᴰ raw scan.lines
    × Directive u raw inc
    × (include_path fs path inc ≡ target)

-- The files that includes lead to from a file, each with the absolute paths of those on the way to it.
pub data Follows (fs : FileSystem) (u : Unicode) (from : Bytes) : Bytes → List Bytes → Type 0 where
  here : Follows fs u from from []
  deeper :
      {path : Bytes} {stack : List Bytes} (abs target : Bytes)
      → Follows fs u from path stack
      → fs.abs path ≡ some abs
      → IncludesFile fs u path target
      → Follows fs u from target (abs ∷ stack)

module _ (fs : FileSystem) (u : Unicode) where
  abbrev text_of : Bytes → Bytes
  text_of r = u.trim_space (strip_comment r)

  module _ (nested : Bytes → Run (List ListLine)) (path : Bytes) (n : ℕ) (r : Bytes)
      (raws : List Bytes) where
    abbrev rest : Run (List ListLine)
    rest = load_lines fs u nested path (suc n) raws

    empty_line : is_empty (text_of r) ≡ true → load_lines fs u nested path n (r ∷ raws) ≡ rest
    unfolding load_lines
    empty_line e = rw e refl

    plain_line :
        is_empty (text_of r) ≡ false
        → parse_include_line u (text_of r) ≡ none
        → load_lines fs u nested path n (r ∷ raws)
          ≡ with_front (record { path = path; line = suc n; text = text_of r } ∷ []) rest
    unfolding load_lines
    plain_line e f = rw (e, f) refl

    include_line :
        (inc : Bytes)
        → is_empty (text_of r) ≡ false
        → parse_include_line u (text_of r) ≡ some inc
        → load_lines fs u nested path n (r ∷ raws) ≡ (
            if is_empty inc
            then some (failed (LoadError.at_line path (suc n) Fault.empty_include))
            else nested (include_path fs path inc) >>= (λ lines. with_front lines rest))
    unfolding load_lines
    include_line inc e f = rw (e, f) refl

    included :
        (inc : Bytes) (lines : List ListLine)
        → (if is_empty inc
            then some (failed (LoadError.at_line path (suc n) Fault.empty_include))
            else nested (include_path fs path inc) >>= (λ lines. with_front lines rest))
          ≡ done lines
        → (found : List ListLine) × (ls : List ListLine) × (nested (include_path fs path inc)
            ≡ done found)
          × (rest ≡ done ls)
    included inc lines h = elim (Bool-cases (is_empty inc)) [
      | inl e ↦ absurd (ground (arith, e, h))
      | inr e ↦
          let k : (nested (include_path fs path inc) >>= (λ lines. with_front lines rest))
              ≡ done lines =
            ground (arith, e, h) in
          let (found, first, second) = >>=-eq-done _ _ lines k in
          let (ls, third, last) = >>=-eq-done rest _ lines second in (found, ls, first, third)
    ]

  load_lines-nested :
      (nested : Bytes → Run (List ListLine)) (path : Bytes) (n : ℕ) (raws : List Bytes)
      (lines : List ListLine) (raw inc : Bytes)
      → load_lines fs u nested path n raws ≡ done lines
      → Memᴰ raw raws
      → Directive u raw inc
      → (found : List ListLine) × (nested (include_path fs path inc) ≡ done found)
  load_lines-nested nested path n [] lines raw inc h mem d = absurd (Memᴰ.not-nil mem)
  load_lines-nested nested path n (r ∷ raws) lines raw inc h mem (filled, parsed, named) =
      elim (Bool-cases (is_empty (text_of r))) [
        | inl e ↦ elim (Memᴰ.cases_cons mem) [
          | inl same ↦
              absurd (ground (arith, sym e ∙ ap (λ r. is_empty (text_of r)) (sym same) ∙ filled))
          | inr there ↦
              load_lines-nested nested path (suc n) raws lines raw inc
                (sym (empty_line nested path n r raws e) ∙ h) there (filled, parsed, named)
        ]
        | inr e ↦ elim (Option-cases (parse_include_line u (text_of r))) [
          | inl f ↦
              let (ls, k, last) =
                >>=-eq-done (rest nested path n r raws) _ lines
                  (sym (plain_line nested path n r raws e f) ∙ h) in
              elim (Memᴰ.cases_cons mem) [
                | inl same ↦
                    let both : none ≡ some inc =
                      sym f ∙ ap (λ r. parse_include_line u (text_of r)) (sym same) ∙ parsed in
                    absurd (cc)
                | inr there ↦
                    load_lines-nested nested path (suc n) raws ls raw inc k there
                      (filled, parsed, named)
              ]
          | inr (other, f) ↦
              let (found, ls, k, later) =
                included nested path n r raws other lines
                  (sym (include_line nested path n r raws other e f) ∙ h) in
              elim (Memᴰ.cases_cons mem) [
                | inl same ↦
                    let both : some other ≡ some inc =
                      sym f ∙ ap (λ r. parse_include_line u (text_of r)) (sym same) ∙ parsed in
                    let one : other ≡ inc = cc in
                    (found, ap (λ i. nested (include_path fs path i)) (sym one) ∙ k)
                | inr there ↦
                    load_lines-nested nested path (suc n) raws ls raw inc later there
                      (filled, parsed, named)
              ]
        ]
      ]

  cycle_is_refused :
      (fuel : ℕ) (path abs : Bytes) (stack : List Bytes)
      → fs.abs path ≡ some abs
      → has_key stack abs ≡ true
      → load_plain_list_file fs u (suc fuel) path stack
        ≡ some (failed (LoadError.include_cycle abs))
  unfolding load_plain_list_file
  cycle_is_refused fuel path abs stack a cycle = rw (a, cycle, load_plain_list_file) refl

  fresh_is_loaded :
      (fuel : ℕ) (path abs : Bytes) (stack : List Bytes)
      → fs.abs path ≡ some abs
      → has_key stack abs ≡ false
      → load_plain_list_file fs u (suc fuel) path stack
        ≡ load_opened fs u
            (λ inc. load_plain_list_file fs u fuel inc (abs ∷ stack))
            path
            (fs.open_file path)
  unfolding load_plain_list_file
  fresh_is_loaded fuel path abs stack a fresh = rw (a, fresh, load_plain_list_file) refl

  opened_lines :
      (nested : Bytes → Run (List ListLine)) (path : Bytes) (scan : Scan) (lines : List ListLine)
      → load_opened fs u nested path (some scan) ≡ done lines
      → (ls : List ListLine) × (load_lines fs u nested path 0 scan.lines ≡ done ls)
  unfolding load_opened
  opened_lines nested path scan lines h =
      let (ls, first, last) = >>=-eq-done (load_lines fs u nested path 0 scan.lines) _ lines h in
      (ls, first)

  -- What a loaded file includes is loaded.
  load_included :
      (fuel : ℕ) (path target abs : Bytes) (stack : List Bytes) (lines : List ListLine)
      → load_plain_list_file fs u fuel path stack ≡ done lines
      → fs.abs path ≡ some abs
      → IncludesFile fs u path target
      → (less : ℕ) × (found : List ListLine) × (load_plain_list_file fs u less target (abs ∷ stack)
          ≡ done found)
  load_included zero path target abs stack lines h a inc =
      let never : none ≡ done lines = unfold load_plain_list_file in h in absurd (cc)
  load_included (suc fuel) path target abs stack lines h a (scan, raw, inc, opened, mem, d, there) =
      let nested : Bytes → Run (List ListLine) =
        λ inc. load_plain_list_file fs u fuel inc (abs ∷ stack) in
      elim (Bool-cases (has_key stack abs)) [
        | inl cycle ↦
            let never = sym (cycle_is_refused fuel path abs stack a cycle) ∙ h in absurd (cc)
        | inr fresh ↦
            let k : load_opened fs u nested path (some scan) ≡ done lines =
              ap (load_opened fs u nested path) (sym opened)
              ∙ sym (fresh_is_loaded fuel path abs stack a fresh)
              ∙ h in
            let (ls, first) = opened_lines nested path scan lines k in
            let (found, g) = load_lines-nested nested path 0 scan.lines ls raw inc first mem d in
            (fuel, found, ap nested (sym there) ∙ g)
      ]

  load_followed :
      (fuel : ℕ) (path : Bytes) (lines : List ListLine) {target : Bytes} {stack : List Bytes}
      → load_plain_list_file fs u fuel path [] ≡ done lines
      → Follows fs u path target stack
      → (less : ℕ) × (found : List ListLine) × (load_plain_list_file fs u less target stack
          ≡ done found)
  load_followed fuel path lines h here = (fuel, lines, h)
  load_followed fuel path lines h (deeper abs target way a inc) =
      let (less, found, g) = load_followed fuel path lines h way in
      load_included less _ target abs _ found g a inc

  cycle_not_loaded :
      (fuel : ℕ) (path abs : Bytes) (stack : List Bytes) (lines : List ListLine)
      → fs.abs path ≡ some abs
      → has_key stack abs ≡ true
      → load_plain_list_file fs u fuel path stack ≢ done lines
  cycle_not_loaded zero path abs stack lines a cycle h =
      let never : none ≡ done lines = unfold load_plain_list_file in h in cc
  cycle_not_loaded (suc fuel) path abs stack lines a cycle h =
      let never = sym (cycle_is_refused fuel path abs stack a cycle) ∙ h in cc

  -- A file from which includes lead to a file that is being read.
  abbrev pub HasCycle : Bytes → Type 0
  HasCycle from =
      (target abs : Bytes) × (stack : List Bytes) × Follows fs u from target stack
      × (fs.abs target ≡ some abs)
      × (has_key stack abs ≡ true)

  never_loaded :
      (fuel : ℕ) (path : Bytes) (lines : List ListLine)
      → HasCycle path
      → load_plain_list_file fs u fuel path [] ≢ done lines
  never_loaded fuel path lines (target, abs, stack, way, a, cycle) h =
      let (less, found, g) = load_followed fuel path lines h way in
      cycle_not_loaded less target abs stack found a cycle g

Run-failed :
    {A : Type 0} (r : Run A)
    → r ≢ none
    → ((a : A) → r ≢ done a)
    → (e : LoadError) × (r ≡ some (failed e))
Run-failed none some_result no_lines = absurd (some_result refl)
Run-failed (some (failed e)) some_result no_lines = (e, refl)
Run-failed (some (loaded a)) some_result no_lines = absurd (no_lines a refl)

-- Where every file that can be opened is one of a list, and the fuel is for one file more than the list has: if
-- the includes lead from a file back to one that is being read, loading that file is an error.
pub load_plain_list_file-HasCycle :
    (fs : FileSystem) (u : Unicode) (known : List Bytes) (fuel : ℕ) (path : Bytes)
    → HoldsFiles fs known
    → length known < fuel
    → HasCycle fs u path
    → (e : LoadError) × (load_plain_list_file fs u fuel path [] ≡ some (failed e))
load_plain_list_file-HasCycle fs u known fuel path h enough cycle =
    Run-failed _ (load_plain_list_file_total fs u known fuel path h enough)
      (λ lines. never_loaded fs u fuel path lines cycle)
