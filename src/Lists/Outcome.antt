-- ===== src/Lists/Outcome.antt =====
-- list_loader.go, rules.go: the lines of list files, and the errors of reading them.
use lucid_gate.Prelude.{ℤ, Option, ℕ, ◌≡◌, ◌⊎◌, inl, inr, refl, Bytes, List}
use lucid_gate.Schedule.Rules.{Clock}

-- What the loader takes from Go's packages strings and fmt: `fields` is `strings.Fields`, which goes by
-- Unicode's tables, and `itoa` and `scan_int` are the verb %d of `Sprintf` and of `Sscanf`.
pub record Texts : Type 0 where
  pub clock : Clock
  pub open clock use *
  pub fields : Bytes → List Bytes
  pub itoa : ℕ → Bytes
  pub scan_int : Bytes → Option ℤ

-- `listLine`.
pub record ListLine : Type 0 where
  pub path : Bytes
  pub line : ℕ
  pub text : Bytes

-- What is wrong with a line.
pub data Fault : Type 0 where
  no_phrase unclosed_phrase no_weight bad_weight weight_not_positive empty_phrase : Fault
  no_separator empty_search : Fault
  bad_address : Fault
  bad_download_rule bad_download_action bad_download_kind : Fault
  bad_timelist bad_start_hour bad_start_minute bad_end_hour bad_end_minute bad_day no_day : Fault
  no_equals empty_group : Fault
  empty_include : Fault

pub data LoadError : Type 0 where
  at_line : Bytes → ℕ → Fault → LoadError
  at_source : Bytes → Fault → LoadError
  conflicting_weights : Bytes → LoadError
  duplicate_search : Bytes → LoadError
  duplicate_pattern : Bytes → LoadError
  bad_window : Bytes → LoadError
  bad_window_day : Bytes → LoadError
  no_stat no_read_dir no_abs no_open no_scan : Bytes → LoadError
  include_cycle : Bytes → LoadError

-- A result with an error of the type `E`.
pub data Either {ℓ κ} (E : Type ℓ) (A : Type κ) : Type (ℓ ⊔ κ) where
  loaded : A → Either E A
  failed : E → Either E A

abbrev pub Loaded {ℓ} : Type ℓ → Type ℓ
Loaded A = Either LoadError A

infixl 5 ◌>>=◌
abbrev pub ◌>>=◌ {ℓ κ μ} :
    {E : Type ℓ} {A : Type κ} {B : Type μ} → Either E A → (A → Either E B) → Either E B
loaded a >>= f = f a
failed e >>= f = failed e

-- `fmt.Errorf("%s:%d: %w", ...)` around an error of a line.
abbrev pub located {ℓ} : {A : Type ℓ} → ListLine → Either Fault A → Loaded A
located ln (loaded a) = loaded a
located ln (failed f) = failed (at_line ln.path ln.line f)

pub Either-cases {ℓ κ} :
    {E : Type ℓ} {A : Type κ} (r : Either E A)
    → ((a : A) × (r ≡ loaded a)) ⊎ ((e : E) × (r ≡ failed e))
Either-cases (loaded a) = inl (a, refl)
Either-cases (failed e) = inr (e, refl)
