-- ===== src/Lists/Loader.antt =====
-- list_loader.go: list files with their includes, and the directories that hold them.
use lucid_gate.Prelude.{
  ◌≡◌, refl, arith, ℕ, zero, suc, Bool, true, false, Option, none, some, List, [], ◌∷◌, ◌++◌, Bytes,
  if◌then◌else◌,
}
use lucid_gate.Text.{Unicode, is_empty, has_key, ◌≺◌}
use lucid_gate.Lists.Outcome.{Texts, ListLine, Fault, LoadError, Loaded, loaded, failed}
use lucid_gate.Lists.Lines.{strip_comment, parse_include_line}
use lucid_gate.Lists.Parse.{
  SemanticPhraseConfig, SubstitutionConfig, RegexSubstitutionConfig, parse_weighted_lines,
  parse_substitution_lines, parse_regex_substitution_lines,
}

pub record DirEntry : Type 0 where
  pub name : Bytes
  pub is_dir : Bool

-- What a scanner gives: its lines, and whether it ends without an error.
pub record Scan : Type 0 where
  pub lines : List Bytes
  pub complete : Bool

-- The operating system: `stat` says whether a path is a directory. Paths are put together by the rules
-- of package path/filepath, which are the system's.
pub record FileSystem : Type 0 where
  pub is_abs : Bytes → Bool
  pub join : Bytes → Bytes → Bytes
  pub dir : Bytes → Bytes
  pub abs : Bytes → Option Bytes
  pub stat : Bytes → Option Bool
  pub read_dir : Bytes → Option (List DirEntry)
  pub open_file : Bytes → Option Scan

-- What a run on fuel gives; `none` says that the fuel ran out.
abbrev pub Run : Type 0 → Type 0
Run A = Option (Loaded A)

infixl 5 ◌>>=◌
abbrev pub ◌>>=◌ : {A B : Type 0} → Run A → (A → Run B) → Run B
none >>= f = none
some (failed e) >>= f = some (failed e)
some (loaded a) >>= f = f a

abbrev pub done : {A : Type 0} → A → Run A
done a = some (loaded a)

-- A run that loads has loaded its parts.
pub >>=-eq-done :
    {A B : Type 0} (m : Run A) (f : A → Run B) (b : B)
    → (m >>= f) ≡ done b
    → (a : A) × (m ≡ done a) × (f a ≡ done b)
>>=-eq-done none f b h = absurd (ground arith)
>>=-eq-done (some (failed e)) f b h = absurd (ground arith)
>>=-eq-done (some (loaded a)) f b h = (a, refl, h)

abbrev pub with_front : List ListLine → Run (List ListLine) → Run (List ListLine)
with_front front rest = rest >>= λ lines. done (front ++ lines)

unfoldable pub include_path : FileSystem → Bytes → Bytes → Bytes
include_path fs path inc = if fs.is_abs inc then inc else fs.join (fs.dir path) inc

-- The loop of `loadPlainListFile` over the lines; `nested` loads an included file, and `n` lines were
-- read before.
unfoldable pub load_lines :
    FileSystem
    → Unicode
    → (Bytes → Run (List ListLine))
    → Bytes
    → ℕ
    → List Bytes
    → Run (List ListLine)
load_lines fs u nested path n [] = done []
load_lines fs u nested path n (raw ∷ raws) =
    let stripped = u.trim_space (strip_comment raw) in
    let rest = load_lines fs u nested path (suc n) raws in
    if is_empty stripped then rest else elim (parse_include_line u stripped) [
      | none ↦ with_front (record { path = path; line = suc n; text = stripped } ∷ []) rest
      | some inc ↦
          if is_empty inc
          then some (failed (LoadError.at_line path (suc n) Fault.empty_include))
          else nested (include_path fs path inc) >>= (λ lines. with_front lines rest)
    ]

abbrev pub checked_scan : Bytes → Bool → List ListLine → Run (List ListLine)
checked_scan path true lines = done lines
checked_scan path false lines = some (failed (LoadError.no_scan path))

unfoldable pub load_opened :
    FileSystem → Unicode → (Bytes → Run (List ListLine)) → Bytes → Option Scan → Run (List ListLine)
load_opened fs u nested path none = some (failed (LoadError.no_open path))
load_opened fs u nested path (some scan) =
    load_lines fs u nested path 0 scan.lines >>= λ lines. checked_scan path scan.complete lines

-- `loadPlainListFile`: `stack` holds the files that are being read. An entry is taken off where its
-- call returns, so each call has a stack of its own.
unfoldable pub load_plain_list_file :
    FileSystem → Unicode → ℕ → Bytes → List Bytes → Run (List ListLine)
load_plain_list_file fs u zero path stack = none
load_plain_list_file fs u (suc fuel) path stack = elim (fs.abs path) [
  | none ↦ some (failed (LoadError.no_abs path))
  | some abs ↦
      if has_key stack abs
      then some (failed (LoadError.include_cycle abs))
      else load_opened fs u (λ inc. load_plain_list_file fs u fuel inc (abs ∷ stack)) path
          (fs.open_file path)
]

-- `sort.Slice` by the names, which differ from one another.
unfoldable pub insert_entry : DirEntry → List DirEntry → List DirEntry
insert_entry e [] = e ∷ []
insert_entry e (f ∷ fs) =
    let rest = insert_entry e fs in if f.name ≺ e.name then f ∷ rest else e ∷ (f ∷ fs)

unfoldable pub sort_entries : List DirEntry → List DirEntry
sort_entries [] = []
sort_entries (e ∷ es) = insert_entry e (sort_entries es)

-- The files of a directory.
unfoldable pub entry_paths : FileSystem → Bytes → List DirEntry → List Bytes
entry_paths fs path [] = []
entry_paths fs path (e ∷ es) =
    let rest = entry_paths fs path es in if e.is_dir then rest else fs.join path e.name ∷ rest

-- The body of the loop of `expandListPaths`.
unfoldable pub expand_list_path : FileSystem → Bytes → Bytes → Loaded (List Bytes)
expand_list_path fs config_dir p =
    let resolved = if fs.is_abs p then p else fs.join config_dir p in
    elim (fs.stat resolved) [
      | none ↦ failed (LoadError.no_stat resolved)
      | some false ↦ loaded (resolved ∷ [])
      | some true ↦ elim (fs.read_dir resolved) [
        | none ↦ failed (LoadError.no_read_dir resolved)
        | some entries ↦ loaded (entry_paths fs resolved (sort_entries entries))
      ]
    ]

unfoldable pub expand_list_paths : FileSystem → Bytes → List Bytes → Loaded (List Bytes)
expand_list_paths fs config_dir [] = loaded []
expand_list_paths fs config_dir (p ∷ ps) = elim (expand_list_path fs config_dir p) [
  | failed e ↦ failed e
  | loaded files ↦ elim (expand_list_paths fs config_dir ps) [
    | failed e ↦ failed e
    | loaded rest ↦ loaded (files ++ rest)
  ]
]

-- The loop over the files, which is the same in the four loaders but for what it makes of the lines.
unfoldable pub load_files :
    {A : Type 0}
    → FileSystem
    → Unicode
    → ℕ
    → (List ListLine → Loaded (List A))
    → List Bytes
    → Run (List A)
load_files fs u fuel parse [] = done []
load_files fs u fuel parse (file ∷ files) = do
  lines ← load_plain_list_file fs u fuel file []
  values ← some (parse lines)
  rest ← load_files fs u fuel parse files
  done (values ++ rest)

abbrev line_texts : List ListLine → List Bytes
line_texts [] = []
line_texts (ln ∷ lns) = ln.text ∷ line_texts lns

unfoldable pub load_text_list_files :
    FileSystem → Unicode → ℕ → Bytes → List Bytes → Run (List Bytes)
load_text_list_files fs u fuel config_dir paths = do
  files ← some (expand_list_paths fs config_dir paths)
  load_files fs u fuel (λ lines. loaded (line_texts lines)) files

unfoldable pub load_weighted_phrase_files :
    FileSystem → Texts → ℕ → Bytes → List Bytes → Run (List SemanticPhraseConfig)
load_weighted_phrase_files fs lib fuel config_dir paths = do
  files ← some (expand_list_paths fs config_dir paths)
  load_files fs lib.unicode fuel (parse_weighted_lines lib) files

unfoldable pub load_substitution_files :
    FileSystem → Unicode → ℕ → Bytes → List Bytes → Run (List SubstitutionConfig)
load_substitution_files fs u fuel config_dir paths = do
  files ← some (expand_list_paths fs config_dir paths)
  load_files fs u fuel (parse_substitution_lines u) files

unfoldable pub load_regex_substitution_files :
    FileSystem → Texts → ℕ → Bytes → List Bytes → Run (List RegexSubstitutionConfig)
load_regex_substitution_files fs lib fuel config_dir paths = do
  files ← some (expand_list_paths fs config_dir paths)
  load_files fs lib.unicode fuel (parse_regex_substitution_lines lib) files
