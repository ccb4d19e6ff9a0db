-- ===== src/Upstream/Pool.antt =====
-- proxy/upstream_pool.go: connections that are kept for reuse, by key. A connection is a number. Each
-- operation says which connections it closes. The stack of a key has its newest connection first, where
-- the source has it last. Times and durations count nanoseconds.
use lucid_gate.Prelude.{
  ℕ, ◌-◌, ◌*◌, ◌^◌, Bool, false, ◌&&◌, Option, none, some, List, [], ◌∷◌, ◌++◌, Bytes, leb, ◌==◌,
  if◌then◌else◌, length,
}
use lucid_gate.Text.{◌=ᵇ◌}

-- `upstreamPoolKey`.
pub record PoolKey : Type 0 where
  pub scheme : Bytes
  pub address : Bytes
  pub server_name : Bytes
  pub alpn : Bytes
  pub spec_id : Bytes

unfoldable pub same_key : PoolKey → PoolKey → Bool
same_key a b =
    (a.scheme =ᵇ b.scheme)
    && (a.address =ᵇ b.address)
    && (a.server_name =ᵇ b.server_name)
    && (a.alpn =ᵇ b.alpn)
    && (a.spec_id =ᵇ b.spec_id)

-- `pooledUpstreamConn`; a pooled reader has nothing buffered.
pub record Pooled : Type 0 where
  pub conn : ℕ
  pub last_used : ℕ

abbrev pub Idle : Type 0
Idle = List (PoolKey × List Pooled)

pub record Pool : Type 0 where
  pub idle : Idle
  pub max_idle_per_host : ℕ
  pub idle_timeout : ℕ

-- `p.idle[key]`, `p.idle[key] = stack` and `delete(p.idle, key)`.
unfoldable pub stack_of : PoolKey → Idle → List Pooled
stack_of k [] = []
stack_of k ((j, s) ∷ m) = let rest = stack_of k m in if same_key j k then s else rest

unfoldable pub store : PoolKey → List Pooled → Idle → Idle
store k v [] = (k, v) ∷ []
store k v ((j, s) ∷ m) =
    let rest = store k v m in if same_key j k then (j, v) ∷ m else (j, s) ∷ rest

unfoldable pub delete : PoolKey → Idle → Idle
delete k [] = []
delete k ((j, s) ∷ m) = let rest = delete k m in if same_key j k then m else (j, s) ∷ rest

-- `defaultUpstreamIdleTimeout`: 90 seconds.
abbrev default_idle_timeout : ℕ
default_idle_timeout = 90 * 10 ^ 9

-- `newUpstreamConnPool`; 0 stands for every configured number that is not positive.
unfoldable pub new_pool : ℕ → ℕ → Option Pool
new_pool max timeout =
    if max == 0
    then none
    else some (record {
      idle = [];
      max_idle_per_host = max;
      idle_timeout = if timeout == 0 then default_idle_timeout else timeout;
    })

-- The loop of `takeIdle`: the newest connection that has not expired, with those below it, and the
-- expired ones above it, which are closed.
unfoldable pub newest_live : ℕ → ℕ → List Pooled → Option (Pooled × List Pooled) × List ℕ
newest_live timeout now [] = (none, [])
newest_live timeout now (c ∷ s) =
    let (found, shut) = newest_live timeout now s in
    if leb (now - c.last_used) timeout then (some (c, s), []) else (found, c.conn ∷ shut)

abbrev pub put_back : PoolKey → List Pooled → Idle → Idle
put_back k [] m = delete k m
put_back k (c ∷ s) m = store k (c ∷ s) m

abbrev pub after_take :
    Pool → PoolKey → Option (Pooled × List Pooled) × List ℕ → Pool × (Option Pooled × List ℕ)
after_take p k (none, shut) = (record p { idle = delete k p.idle }, (none, shut))
after_take p k (some (c, s), shut) = (record p { idle = put_back k s p.idle }, (some c, shut))

-- `takeIdle`: the pool, the connection taken, and the connections closed.
unfoldable pub take_idle : Pool → PoolKey → ℕ → Pool × (Option Pooled × List ℕ)
take_idle p k now = after_take p k (newest_live p.idle_timeout now (stack_of k p.idle))

-- The connection that a lease holds, if the dial that is needed for it succeeds.
abbrev pub lease_of : Option Pooled → Option ℕ → Option ℕ
lease_of (some c) dialed = some c.conn
lease_of none dialed = dialed

-- `acquire`: the pool, the connection leased (`none` is the error of the dial), the connections closed.
unfoldable pub acquire : Option Pool → PoolKey → ℕ → Option ℕ → Option Pool × (Option ℕ × List ℕ)
acquire none k now dialed = (none, (dialed, []))
acquire (some p) k now dialed =
    let (q, (taken, shut)) = take_idle p k now in (some q, (lease_of taken dialed, shut))

-- `idle[1:]`, and the connection in front of it.
unfoldable pub without_oldest : List Pooled → List Pooled × List ℕ
without_oldest [] = ([], [])
without_oldest (c ∷ []) = ([], c.conn ∷ [])
without_oldest (c ∷ (d ∷ s)) = let (kept, shut) = without_oldest (d ∷ s) in (c ∷ kept, shut)

abbrev pub make_room : ℕ → List Pooled → List Pooled × List ℕ
make_room max s = if leb max (length s) then without_oldest s else (s, [])

-- The connection may be kept: the user says so, and its reader, if it has one, has nothing buffered.
abbrev pub is_clean : Bool → Option ℕ → Bool
is_clean reusable none = false
is_clean reusable (some buffered) = reusable && buffered == 0

-- `release` at the time `now`: the pool and the connections closed.
unfoldable pub release : Option Pool → PoolKey → ℕ → Option ℕ → Bool → ℕ → Option Pool × List ℕ
release none k conn reader reusable now = (none, conn ∷ [])
release (some p) k conn reader reusable now =
    let (kept, shut) = make_room p.max_idle_per_host (stack_of k p.idle) in
    if is_clean reusable reader
    then (
      some (record p { idle = store k (record { conn = conn; last_used = now } ∷ kept) p.idle }),
      shut,
    )
    else (some p, conn ∷ [])

abbrev pub conns : List Pooled → List ℕ
conns [] = []
conns (c ∷ s) = c.conn ∷ conns s

abbrev pub all_conns : Idle → List ℕ
all_conns [] = []
all_conns ((k, s) ∷ m) = conns s ++ all_conns m

-- `closeIdle`.
unfoldable pub close_idle : Option Pool → Option Pool × List ℕ
close_idle none = (none, [])
close_idle (some p) = (some (record p { idle = [] }), all_conns p.idle)
