-- ===== src/Upstream/Conservation.antt =====
-- No connection is lost: each one stays in the pool, is leased or is closed.
use lucid_gate.Prelude.{
  ℕ, suc, ◌+◌, ◌-◌, ◌≡◌, ◌⊎◌, inl, inr, Bool, Option, none, some, List, [], ◌∷◌, ◌++◌, ◌==◌, leb,
  if◌then◌else◌, arith, refl, Bool-cases,
}
use lucid_gate.Upstream.Pool.{
  PoolKey, same_key, Pooled, Idle, Pool, stack_of, store, delete, newest_live, put_back, after_take,
  take_idle, lease_of, acquire, without_oldest, make_room, is_clean, release, conns, all_conns,
  close_idle,
}

-- How often `c` stands in a list.
abbrev pub count : ℕ → List ℕ → ℕ
count c [] = 0
count c (x ∷ xs) = if x == c then suc (count c xs) else count c xs

abbrev pub count_option : ℕ → Option ℕ → ℕ
count_option c none = 0
count_option c (some x) = count c (x ∷ [])

-- How often `c` is idle in the pool.
abbrev pub held : ℕ → Option Pool → ℕ
held c none = 0
held c (some p) = count c (all_conns p.idle)

pub count-append : (c : ℕ) (xs ys : List ℕ) → count c (xs ++ ys) ≡ count c xs + count c ys
count-append c [] ys = omega arith
count-append c (x ∷ xs) ys = ground (arith, count-append c xs ys)

module _ (c : ℕ) (k : PoolKey) where
  count-store :
      (v : List Pooled) (m : Idle)
      → count c (all_conns (store k v m)) + count c (conns (stack_of k m))
        ≡ count c (all_conns m) + count c (conns v)
  unfolding store stack_of
  count-store v [] = omega (arith, count-append c (conns v) [])
  count-store v ((j, s) ∷ m) = elim (Bool-cases (same_key j k)) [
    | inl same ↦ rw same (
        omega
          (arith, count-append c (conns v) (all_conns m), count-append c (conns s) (all_conns m)))
    | inr other ↦ rw other (
        omega (
          arith,
          count-store v m,
          count-append c (conns s) (all_conns (store k v m)),
          count-append c (conns s) (all_conns m),
        ))
  ]

  count-delete :
      (m : Idle)
      → count c (all_conns (delete k m)) + count c (conns (stack_of k m)) ≡ count c (all_conns m)
  unfolding delete stack_of
  count-delete [] = omega arith
  count-delete ((j, s) ∷ m) = elim (Bool-cases (same_key j k)) [
    | inl same ↦ rw same (omega (arith, count-append c (conns s) (all_conns m)))
    | inr other ↦ rw other (
        omega (
          arith,
          count-delete m,
          count-append c (conns s) (all_conns (delete k m)),
          count-append c (conns s) (all_conns m),
        ))
  ]

  count-put_back :
      (v : List Pooled) (m : Idle)
      → count c (all_conns (put_back k v m)) + count c (conns (stack_of k m))
        ≡ count c (all_conns m) + count c (conns v)
  count-put_back [] m = omega (arith, count-delete m)
  count-put_back (x ∷ v) m = count-store (x ∷ v) m

-- The connections of what `newest_live` found.
abbrev count_found : ℕ → Option (Pooled × List Pooled) → ℕ
count_found c none = 0
count_found c (some (x, s)) = count c (conns (x ∷ s))

count-newest_live :
    (c timeout now : ℕ) (s : List Pooled)
    → count_found c (newest_live timeout now s).0 + count c (newest_live timeout now s).1
      ≡ count c (conns s)
unfolding newest_live
count-newest_live c timeout now [] = refl
count-newest_live c timeout now (x ∷ s) = elim (Bool-cases (leb (now - x.last_used) timeout)) [
  | inl live ↦ rw live (omega arith)
  | inr expired ↦ rw expired (ground (arith, count-newest_live c timeout now s))
]

-- What became of `c`, if it was `n` times idle before.
abbrev pub Acquired : ℕ → ℕ → Option ℕ → Option Pool × (Option ℕ × List ℕ) → Type 0
Acquired c n dialed (q, (lease, shut)) =
    (held c q + count_option c lease + count c shut ≡ n)
    ⊎ ((lease ≡ dialed) × (held c q + count c shut ≡ n))

abbrev leased : Option ℕ → Pool × (Option Pooled × List ℕ) → Option Pool × (Option ℕ × List ℕ)
leased dialed (q, (taken, shut)) = (some q, (lease_of taken dialed, shut))

after_take_conserves :
    (c : ℕ) (p : Pool) (k : PoolKey) (dialed : Option ℕ)
    (found : Option (Pooled × List Pooled) × List ℕ)
    → count_found c found.0 + count c found.1 ≡ count c (conns (stack_of k p.idle))
    → Acquired c (held c (some p)) dialed (leased dialed (after_take p k found))
after_take_conserves c p k dialed (none, shut) e =
    inr (refl, omega (arith, count-delete c k p.idle))
after_take_conserves c p k dialed (some (x, s), shut) e =
    inl (ground (arith, count-put_back c k s p.idle))

without_oldest-count :
    (c : ℕ) (s : List Pooled)
    → count c (conns (without_oldest s).0) + count c (without_oldest s).1 ≡ count c (conns s)
unfolding without_oldest
without_oldest-count c [] = refl
without_oldest-count c (x ∷ []) = ground arith
without_oldest-count c (x ∷ (y ∷ s)) = ground (arith, without_oldest-count c (y ∷ s))

make_room-count :
    (c max : ℕ) (s : List Pooled)
    → count c (conns (make_room max s).0) + count c (make_room max s).1 ≡ count c (conns s)
make_room-count c max s = ground (arith, without_oldest-count c s)

-- `acquire` leases a connection out of the pool, or the one that was dialed; every other connection
-- that was idle still is, or was closed.
pub acquire_conserves :
    (p : Option Pool) (k : PoolKey) (now : ℕ) (dialed : Option ℕ) (c : ℕ)
    → Acquired c (held c p) dialed (acquire p k now dialed)
unfolding acquire take_idle
acquire_conserves none k now dialed c = inr (refl, refl)
acquire_conserves (some p) k now dialed c =
    after_take_conserves c p k dialed (newest_live p.idle_timeout now (stack_of k p.idle))
      (count-newest_live c p.idle_timeout now (stack_of k p.idle))

-- `release` puts the connection into the pool or closes it, and no idle connection is lost for it:
-- the one that has to make room is closed.
pub release_conserves :
    (p : Option Pool) (k : PoolKey) (conn : ℕ) (reader : Option ℕ) (reusable : Bool) (now c : ℕ)
    → let (q, shut) = release p k conn reader reusable now in
      held c q + count c shut ≡ held c p + count c (conn ∷ [])
unfolding release
release_conserves none k conn reader reusable now c = refl
release_conserves (some p) k conn reader reusable now c =
    let s = stack_of k p.idle in
    let room = make_room p.max_idle_per_host s in
    elim (Bool-cases (is_clean reusable reader)) [
      | inr dirty ↦ rw dirty refl
      | inl clean ↦ rw clean (
          ground (
            arith,
            make_room-count c p.max_idle_per_host s,
            count-store c k (record { conn = conn; last_used = now } ∷ room.0) p.idle,
          ))
    ]

-- `closeIdle` closes every idle connection, once.
pub close_idle_conserves :
    (p : Option Pool) (c : ℕ)
    → let (q, shut) = close_idle p in (held c q ≡ 0) × (count c shut ≡ held c p)
unfolding close_idle
close_idle_conserves none c = (refl, refl)
close_idle_conserves (some p) c = (refl, refl)
