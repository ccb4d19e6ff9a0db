-- ===== src/Upstream/Bounds.antt =====
-- The idle connections of a key are never more than the pool allows.
use lucid_gate.Prelude.{
  ℕ, ◌-◌, ◌≤◌, ◌<◌, ◌≡◌, inl, inr, Bool, Option, none, some, List, [], ◌∷◌, ◌==◌, length, arith,
  refl, sym, subst, Bool-cases, ==_iff,
}
use lucid_gate.Upstream.Pool.{
  PoolKey, same_key, Pooled, Idle, Pool, stack_of, store, delete, new_pool, newest_live, put_back,
  after_take, take_idle, acquire, without_oldest, make_room, is_clean, release, close_idle,
}
use lucid_gate.Upstream.Leases.{
  State, Step, acquires, releases, sweeps, Reachable, here, after, start,
}

abbrev AreShort : ℕ → Idle → Type 0
AreShort n [] = Unit {0}
AreShort n ((k, s) ∷ m) = (length s ≤ n) × AreShort n m

-- There is no pool if it was configured with 0; a pool is configured with `max`, and keeps at most that many
-- connections for each key.
abbrev pub IsBounded : ℕ → Option Pool → Type 0
IsBounded max none = max ≡ 0
IsBounded max (some p) = (0 < max) × (p.max_idle_per_host ≡ max) × AreShort max p.idle

module _ (n : ℕ) (k : PoolKey) where
  stack_of-short : (m : Idle) → AreShort n m → length (stack_of k m) ≤ n
  unfolding stack_of
  stack_of-short [] a = omega arith
  stack_of-short ((j, s) ∷ m) a = ground (arith, stack_of-short m)

  store-AreShort :
      (v : List Pooled) (m : Idle) → length v ≤ n → AreShort n m → AreShort n (store k v m)
  unfolding store
  store-AreShort v [] h a = (h, tt)
  store-AreShort v ((j, s) ∷ m) h a = elim (Bool-cases (same_key j k)) [
    | inl same ↦ rw same (h, a.1)
    | inr other ↦ rw other (a.0, store-AreShort v m h a.1)
  ]

  delete-AreShort : (m : Idle) → AreShort n m → AreShort n (delete k m)
  unfolding delete
  delete-AreShort [] a = tt
  delete-AreShort ((j, s) ∷ m) a = elim (Bool-cases (same_key j k)) [
    | inl same ↦ rw same a.1
    | inr other ↦ rw other (a.0, delete-AreShort m a.1)
  ]

abbrev rest_of : Option (Pooled × List Pooled) → List Pooled
rest_of none = []
rest_of (some (x, s)) = s

newest_live-short :
    (timeout now : ℕ) (s : List Pooled) → length (rest_of (newest_live timeout now s).0) ≤ length s
unfolding newest_live
newest_live-short timeout now [] = omega arith
newest_live-short timeout now (x ∷ s) = ground (arith, newest_live-short timeout now s)

put_back-AreShort :
    (n : ℕ) (k : PoolKey) (s : List Pooled) (m : Idle)
    → length s ≤ n
    → AreShort n m
    → AreShort n (put_back k s m)
put_back-AreShort n k [] m h a = delete-AreShort n k m a
put_back-AreShort n k (x ∷ s) m h a = store-AreShort n k (x ∷ s) m h a

after_take-IsBounded :
    (max : ℕ) (p : Pool) (k : PoolKey) (found : Option (Pooled × List Pooled) × List ℕ)
    → length (rest_of found.0) ≤ max
    → IsBounded max (some p)
    → IsBounded max (some (after_take p k found).0)
after_take-IsBounded max p k (none, shut) h (positive, same, short) =
    (positive, same, delete-AreShort max k p.idle short)
after_take-IsBounded max p k (some (x, s), shut) h (positive, same, short) =
    (positive, same, put_back-AreShort max k s p.idle h short)

acquire-IsBounded :
    (max : ℕ) (p : Option Pool) (k : PoolKey) (now : ℕ) (dialed : Option ℕ)
    → IsBounded max p
    → IsBounded max (acquire p k now dialed).0
unfolding acquire take_idle
acquire-IsBounded max none k now dialed b = b
acquire-IsBounded max (some p) k now dialed b =
    after_take-IsBounded max p k (newest_live p.idle_timeout now (stack_of k p.idle))
      (omega (
        arith,
        newest_live-short p.idle_timeout now (stack_of k p.idle),
        stack_of-short max k p.idle b.2,
      ))
      b

without_oldest-length : (s : List Pooled) → length (without_oldest s).0 ≡ length s - 1
unfolding without_oldest
without_oldest-length [] = refl
without_oldest-length (x ∷ []) = refl
without_oldest-length (x ∷ (y ∷ s)) = omega (arith, without_oldest-length (y ∷ s))

make_room-length :
    (max : ℕ) (s : List Pooled) → 0 < max → length s ≤ max → length (make_room max s).0 < max
make_room-length max s h b = ground (arith, without_oldest-length s)

-- The stack of a key after a connection was released to it.
released_stack-length :
    (max : ℕ) (p : Pool) (k : PoolKey)
    → IsBounded max (some p)
    → length (make_room p.max_idle_per_host (stack_of k p.idle)).0 < max
released_stack-length max p k (positive, same, short) =
    subst (λ n. length (make_room n (stack_of k p.idle)).0 < max) (sym same)
      (make_room-length max (stack_of k p.idle) positive (stack_of-short max k p.idle short))

release-IsBounded :
    (max : ℕ) (p : Option Pool) (k : PoolKey) (conn : ℕ) (reader : Option ℕ) (reusable : Bool)
    (now : ℕ)
    → IsBounded max p
    → IsBounded max (release p k conn reader reusable now).0
unfolding release
release-IsBounded max none k conn reader reusable now b = b
release-IsBounded max (some p) k conn reader reusable now b =
    elim (Bool-cases (is_clean reusable reader)) [
      | inr dirty ↦ rw dirty b
      | inl clean ↦ rw clean (
        b.0,
        b.1,
        store-AreShort max k _ p.idle (omega (arith, released_stack-length max p k b)) b.2,
      )
    ]

close_idle-IsBounded :
    (max : ℕ) (p : Option Pool) → IsBounded max p → IsBounded max (close_idle p).0
unfolding close_idle
close_idle-IsBounded max none b = b
close_idle-IsBounded max (some p) b = (b.0, b.1, tt)

Step-IsBounded : (max : ℕ) {s t : State} → Step s t → IsBounded max s.pool → IsBounded max t.pool
Step-IsBounded max (acquires s k now dialed new) b = acquire-IsBounded max s.pool k now dialed b
Step-IsBounded max (releases s k conn reader reusable now h) b =
    release-IsBounded max s.pool k conn reader reusable now b
Step-IsBounded max (sweeps s) b = close_idle-IsBounded max s.pool b

new_pool-IsBounded : (max timeout : ℕ) → IsBounded max (new_pool max timeout)
unfolding new_pool
new_pool-IsBounded max timeout = elim (Bool-cases (max == 0)) [
  | inl zero_max ↦ rw zero_max ((==_iff max 0).0 zero_max)
  | inr positive ↦ rw positive (ground arith, refl, tt)
]

Reachable-IsBounded :
    (max : ℕ) {s t : State} → Reachable s t → IsBounded max s.pool → IsBounded max t.pool
Reachable-IsBounded max here b = b
Reachable-IsBounded max (after r step) b = Step-IsBounded max step (Reachable-IsBounded max r b)

-- A new pool that is configured with 0 idle connections for a host is none, and stays so. Whatever sequence of
-- calls is made on any other, its limit is the number that it was configured with, which is positive, and no key
-- has more idle connections than that.
pub pool-IsBounded :
    (max timeout : ℕ) (s : State) → Reachable (start max timeout) s → IsBounded max s.pool
pool-IsBounded max timeout s r = Reachable-IsBounded max r (new_pool-IsBounded max timeout)
