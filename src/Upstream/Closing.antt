-- ===== src/Upstream/Closing.antt =====
-- `closeIdle` closes what stands under some key, and leaves nothing under any.
use lucid_gate.Prelude.{
  ℕ, ◌≤◌, ◌<◌, ◌≡◌, ◌↔◌, inl, inr, Bool, true, false, ◌||◌, Option, none, some, List, [], ◌∷◌, ◌==◌,
  arith, refl, Bool-cases,
}
use lucid_gate.Text.{=ᵇ_iff}
use lucid_gate.Upstream.Pool.{
  PoolKey, same_key, Pooled, Idle, Pool, stack_of, store, delete, new_pool, newest_live, put_back,
  after_take, take_idle, acquire, is_clean, release, conns, all_conns, close_idle,
}
use lucid_gate.Upstream.Conservation.{count, held, count-append, close_idle_conserves}
use lucid_gate.Upstream.Leases.{
  State, Step, acquires, releases, sweeps, Reachable, here, after, start, started_once,
}

-- A key stands in the map.
unfoldable meets : PoolKey → Idle → Bool
meets j [] = false
meets j ((i, s) ∷ m) = same_key j i || meets j m

-- No key stands in the map a second time.
abbrev Keyed : Idle → Type 0
Keyed [] = Unit {0}
Keyed ((j, s) ∷ m) = (meets j m ≡ false) × Keyed m

same_key_refl : (k : PoolKey) → same_key k k ≡ true
unfolding same_key
same_key_refl k = ground (
  arith,
  (=ᵇ_iff k.scheme k.scheme).1 refl,
  (=ᵇ_iff k.address k.address).1 refl,
  (=ᵇ_iff k.server_name k.server_name).1 refl,
  (=ᵇ_iff k.alpn k.alpn).1 refl,
  (=ᵇ_iff k.spec_id k.spec_id).1 refl,
)

module _ (k : PoolKey) where
  store-meets :
      (j : PoolKey) (v : List Pooled) (m : Idle)
      → meets j m ≡ false
      → same_key j k ≡ false
      → meets j (store k v m) ≡ false
  unfolding store meets
  store-meets j v [] h other = ground (arith, other)
  store-meets j v ((i, s) ∷ m) h other = elim (Bool-cases (same_key i k)) [
    | inl e ↦ rw e h
    | inr e ↦ rw e (ground (arith, h, store-meets j v m (ground (arith, h)) other))
  ]

  store-Keyed : (v : List Pooled) (m : Idle) → Keyed m → Keyed (store k v m)
  unfolding store meets
  store-Keyed v [] h = (refl, tt)
  store-Keyed v ((i, s) ∷ m) h = elim (Bool-cases (same_key i k)) [
    | inl e ↦ rw e h
    | inr e ↦ rw e (store-meets i v m h.0 e, store-Keyed v m h.1)
  ]

  delete-meets : (j : PoolKey) (m : Idle) → meets j m ≡ false → meets j (delete k m) ≡ false
  unfolding delete meets
  delete-meets j [] h = refl
  delete-meets j ((i, s) ∷ m) h = elim (Bool-cases (same_key i k)) [
    | inl e ↦ rw e (ground (arith, h))
    | inr e ↦ rw e (ground (arith, h, delete-meets j m (ground (arith, h))))
  ]

  delete-Keyed : (m : Idle) → Keyed m → Keyed (delete k m)
  unfolding delete
  delete-Keyed [] h = tt
  delete-Keyed ((i, s) ∷ m) h = elim (Bool-cases (same_key i k)) [
    | inl e ↦ rw e h.1
    | inr e ↦ rw e (delete-meets i m h.0, delete-Keyed m h.1)
  ]

  put_back-Keyed : (s : List Pooled) (m : Idle) → Keyed m → Keyed (put_back k s m)
  put_back-Keyed [] m h = delete-Keyed m h
  put_back-Keyed (x ∷ s) m h = store-Keyed (x ∷ s) m h

  -- What stands under a key is in the pool.
  stack_of-held : (c : ℕ) (m : Idle) → count c (conns (stack_of k m)) ≤ count c (all_conns m)
  unfolding stack_of
  stack_of-held c [] = omega arith
  stack_of-held c ((i, s) ∷ m) =
      ground (arith, stack_of-held c m, count-append c (conns s) (all_conns m))

-- What is in the pool stands under a key.
held-stack_of :
    (c : ℕ) (m : Idle)
    → Keyed m
    → 0 < count c (all_conns m)
    → (k : PoolKey) × (0 < count c (conns (stack_of k m)))
      × ((j : PoolKey) → meets j m ≡ false → same_key j k ≡ false)
unfolding stack_of meets
held-stack_of c [] h lt = absurd (omega arith)
held-stack_of c ((i, s) ∷ m) h lt = elim (Bool-cases (count c (conns s) == 0)) [
  | inr first ↦ (i, rw (same_key_refl i) (ground (arith, first)), λ j e. ground (arith, e))
  | inl later ↦
      let (k, found, apart) =
        held-stack_of c m h.1 (ground (arith, later, lt, count-append c (conns s) (all_conns m))) in
      (k, rw (apart i h.0) found, λ j e. apart j (ground (arith, e)))
]

abbrev PoolKeyed : Option Pool → Type 0
PoolKeyed none = Unit {0}
PoolKeyed (some p) = Keyed p.idle

after_take-Keyed :
    (p : Pool) (k : PoolKey) (found : Option (Pooled × List Pooled) × List ℕ)
    → Keyed p.idle
    → Keyed (after_take p k found).0.idle
after_take-Keyed p k (none, shut) h = delete-Keyed k p.idle h
after_take-Keyed p k (some (x, s), shut) h = put_back-Keyed k s p.idle h

Step-PoolKeyed : {s t : State} → Step s t → PoolKeyed s.pool → PoolKeyed t.pool
Step-PoolKeyed (acquires s k now dialed new) h = acquired_keyed s.pool h
  where
    acquired_keyed : (p : Option Pool) → PoolKeyed p → PoolKeyed (acquire p k now dialed).0
    acquired_keyed none h = unfold acquire in tt
    acquired_keyed (some p) h =
        unfold acquire take_idle in
        after_take-Keyed p k (newest_live p.idle_timeout now (stack_of k p.idle)) h
Step-PoolKeyed (releases s k conn reader reusable now held_now) h = released_keyed s.pool h
  where
    released_keyed :
        (p : Option Pool) → PoolKeyed p → PoolKeyed (release p k conn reader reusable now).0
    released_keyed none h = unfold release in tt
    released_keyed (some p) h = elim (Bool-cases (is_clean reusable reader)) [
      | inr dirty ↦ unfold release in rw dirty h
      | inl clean ↦ unfold release in rw clean (store-Keyed k _ p.idle h)
    ]
Step-PoolKeyed (sweeps s) h = swept_keyed s.pool
  where
    swept_keyed : (p : Option Pool) → PoolKeyed (close_idle p).0
    swept_keyed none = unfold close_idle in tt
    swept_keyed (some p) = unfold close_idle in tt

Reachable-PoolKeyed : {s t : State} → Reachable s t → PoolKeyed s.pool → PoolKeyed t.pool
Reachable-PoolKeyed here h = h
Reachable-PoolKeyed (after r step) h = Step-PoolKeyed step (Reachable-PoolKeyed r h)

new_pool-PoolKeyed : (max timeout : ℕ) → PoolKeyed (new_pool max timeout)
unfolding new_pool
new_pool-PoolKeyed max timeout = elim (Bool-cases (max == 0)) [ inl e ↦ rw e tt | inr e ↦ rw e tt ]

-- The stack that `acquire` takes a connection from.
abbrev pub stack_in : PoolKey → Option Pool → List Pooled
stack_in k none = []
stack_in k (some p) = stack_of k p.idle

stack_in-held : (k : PoolKey) (c : ℕ) (p : Option Pool) → count c (conns (stack_in k p)) ≤ held c p
stack_in-held k c none = omega arith
stack_in-held k c (some p) = stack_of-held k c p.idle

held-stack_in :
    (c : ℕ) (p : Option Pool)
    → PoolKeyed p
    → 0 < held c p
    → (k : PoolKey) × (0 < count c (conns (stack_in k p)))
held-stack_in c none h lt = absurd (omega arith)
held-stack_in c (some p) h lt = let (k, found, apart) = held-stack_of c p.idle h lt in (k, found)

stack_in-close_idle : (k : PoolKey) (p : Option Pool) → stack_in k (close_idle p).0 ≡ []
unfolding close_idle stack_of
stack_in-close_idle k none = refl
stack_in-close_idle k (some p) = refl

-- Whatever sequence of calls is made on a new pool, `closeIdle` then closes a connection exactly if it stands
-- in the stack of some key, from which `acquire` would take it, and closes none twice; and no key has a stack
-- afterwards. Each dial gives a new connection, and a connection is released only while it is in use.
pub close_idle-stack_in :
    (max timeout : ℕ) (s : State) (c : ℕ)
    → Reachable (start max timeout) s
    → ((0 < count c (close_idle s.pool).1)
        ↔ ((k : PoolKey) × (0 < count c (conns (stack_in k s.pool)))))
      × (count c (close_idle s.pool).1 ≤ 1)
      × ((k : PoolKey) → stack_in k (close_idle s.pool).0 ≡ [])
close_idle-stack_in max timeout s c r =
    let shut = (close_idle_conserves s.pool c).1 in
    let keyed = Reachable-PoolKeyed r (new_pool-PoolKeyed max timeout) in
    (
      (
        λ h. held-stack_in c s.pool keyed (omega (arith, h, shut)),
        λ (k, h). omega (arith, h, shut, stack_in-held k c s.pool),
      ),
      omega (arith, shut, started_once max timeout s c r),
      λ k. stack_in-close_idle k s.pool,
    )
