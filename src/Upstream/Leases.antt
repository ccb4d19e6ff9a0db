-- ===== src/Upstream/Leases.antt =====
-- The pool in use: no connection is handed out twice or after it was closed, whatever the calls.
use lucid_gate.Prelude.{
  ℕ, ◌+◌, ◌≤◌, ◌<◌, ◌≡◌, ◌⊎◌, inl, inr, Bool, Option, none, some, List, [], ◌∷◌, ◌++◌, ◌==◌,
  if◌then◌else◌, arith, refl,
}
use lucid_gate.Upstream.Pool.{PoolKey, Pool, new_pool, acquire, release, close_idle}
use lucid_gate.Upstream.Conservation.{
  count, count_option, held, Acquired, count-append, acquire_conserves, release_conserves,
  close_idle_conserves,
}

-- The pool, the connections in use, and those that the pool or a release closed.
pub record State : Type 0 where
  pub pool : Option Pool
  pub in_use : List ℕ
  pub closed : List ℕ

-- How often `c` occurs.
abbrev pub occurrences : ℕ → State → ℕ
occurrences c s = held c s.pool + count c s.in_use + count c s.closed

abbrev without : ℕ → List ℕ → List ℕ
without c [] = []
without c (x ∷ xs) = if x == c then xs else x ∷ without c xs

abbrev with_lease : Option ℕ → List ℕ → List ℕ
with_lease none xs = xs
with_lease (some c) xs = c ∷ xs

abbrev pub acquired : State → Option Pool × (Option ℕ × List ℕ) → State
acquired s (q, (lease, shut)) = record {
  pool = q;
  in_use = with_lease lease s.in_use;
  closed = shut ++ s.closed;
}

abbrev pub released : State → ℕ → Option Pool × List ℕ → State
released s conn (q, shut) = record {
  pool = q;
  in_use = without conn s.in_use;
  closed = shut ++ s.closed;
}

abbrev pub swept : State → Option Pool × List ℕ → State
swept s (q, shut) = record { pool = q; in_use = s.in_use; closed = shut ++ s.closed }

-- A dial gives a connection that was never seen, or fails.
abbrev pub IsNew : Option ℕ → State → Type 0
IsNew none s = Unit {0}
IsNew (some c) s = occurrences c s ≡ 0

-- One call on the pool. A connection in use is released at most once: the release takes it away.
pub data Step : State → State → Type 0 where
  acquires :
      (s : State) (k : PoolKey) (now : ℕ) (dialed : Option ℕ)
      → IsNew dialed s
      → Step s (acquired s (acquire s.pool k now dialed))
  releases :
      (s : State) (k : PoolKey) (conn : ℕ) (reader : Option ℕ) (reusable : Bool) (now : ℕ)
      → 0 < count conn s.in_use
      → Step s (released s conn (release s.pool k conn reader reusable now))
  sweeps : (s : State) → Step s (swept s (close_idle s.pool))

pub data Reachable (start : State) : State → Type 0 where
  here : Reachable start start
  after : {s t : State} → Reachable start s → Step s t → Reachable start t

count-without :
    (c d : ℕ) (xs : List ℕ)
    → 0 < count d xs
    → count c (without d xs) + count c (d ∷ []) ≡ count c xs
count-without c d [] h = absurd (omega arith)
count-without c d (x ∷ xs) h = ground (arith, count-without c d xs)

count-with_lease :
    (c : ℕ) (lease : Option ℕ) (xs : List ℕ)
    → count c (with_lease lease xs) ≡ count_option c lease + count c xs
count-with_lease c none xs = omega arith
count-with_lease c (some x) xs = ground arith

IsNew-count :
    (c : ℕ) (dialed : Option ℕ) (s : State)
    → IsNew dialed s
    → (count_option c dialed ≡ 0) ⊎ ((count_option c dialed ≡ 1) × (occurrences c s ≡ 0))
IsNew-count c none s h = inl refl
IsNew-count c (some x) s h = ground arith

acquired_once :
    (c : ℕ) (s : State) (dialed : Option ℕ) (r : Option Pool × (Option ℕ × List ℕ))
    → IsNew dialed s
    → Acquired c (held c s.pool) dialed r
    → occurrences c s ≤ 1
    → occurrences c (acquired s r) ≤ 1
acquired_once c s dialed (q, (lease, shut)) new a once = elim a [
  | inl same ↦ omega (arith, count-with_lease c lease s.in_use, count-append c shut s.closed)
  | inr (fresh, same) ↦ elim (IsNew-count c dialed s new) [
    | inl other ↦
        rw fresh (omega (arith, count-with_lease c dialed s.in_use, count-append c shut s.closed))
    | inr (it, nowhere) ↦
        rw fresh (omega (arith, count-with_lease c dialed s.in_use, count-append c shut s.closed))
  ]
]

released_once :
    (c : ℕ) (s : State) (conn : ℕ) (r : Option Pool × List ℕ)
    → 0 < count conn s.in_use
    → held c r.0 + count c r.1 ≡ held c s.pool + count c (conn ∷ [])
    → occurrences c s ≤ 1
    → occurrences c (released s conn r) ≤ 1
released_once c s conn (q, shut) h e once =
    omega (arith, count-without c conn s.in_use h, count-append c shut s.closed)

swept_once :
    (c : ℕ) (s : State) (r : Option Pool × List ℕ)
    → (held c r.0 ≡ 0) × (count c r.1 ≡ held c s.pool)
    → occurrences c s ≤ 1
    → occurrences c (swept s r) ≤ 1
swept_once c s (q, shut) e once = omega (arith, count-append c shut s.closed)

Step-once : (c : ℕ) {s t : State} → Step s t → occurrences c s ≤ 1 → occurrences c t ≤ 1
Step-once c (acquires s k now dialed new) once =
    acquired_once c s dialed (acquire s.pool k now dialed) new
      (acquire_conserves s.pool k now dialed c) once
Step-once c (releases s k conn reader reusable now h) once =
    released_once c s conn (release s.pool k conn reader reusable now) h
      (release_conserves s.pool k conn reader reusable now c) once
Step-once c (sweeps s) once =
    swept_once c s (close_idle s.pool) (close_idle_conserves s.pool c) once

Reachable-once : (c : ℕ) {s t : State} → Reachable s t → occurrences c s ≤ 1 → occurrences c t ≤ 1
Reachable-once c here once = once
Reachable-once c (after r step) once = Step-once c step (Reachable-once c r once)

abbrev pub start : ℕ → ℕ → State
start max timeout = record { pool = new_pool max timeout; in_use = []; closed = [] }

new_pool-empty : (c max timeout : ℕ) → held c (new_pool max timeout) ≡ 0
unfolding new_pool
new_pool-empty c max timeout = ground arith

pub started_once :
    (max timeout : ℕ) (s : State) (c : ℕ) → Reachable (start max timeout) s → occurrences c s ≤ 1
started_once max timeout s c r = Reachable-once c r (omega (arith, new_pool-empty c max timeout))

-- Whatever sequence of calls is made on a new pool, a connection that is in use is not in use a second
-- time, does not wait in the pool and has not been closed, if each dial gives a new connection and a
-- connection is released only while it is in use.
pub in_use-exclusive :
    (max timeout : ℕ) (s : State) (c : ℕ)
    → Reachable (start max timeout) s
    → 0 < count c s.in_use
    → (count c s.in_use ≡ 1) × (held c s.pool ≡ 0) × (count c s.closed ≡ 0)
in_use-exclusive max timeout s c r h =
    let once = started_once max timeout s c r in (omega arith, omega arith, omega arith)
