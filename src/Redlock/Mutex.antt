-- ===== src/Redlock/Mutex.antt =====
-- internal/driver/redlock/mutex.go, and NewMutex with its options from redlock.go. Times and
-- durations are in nanoseconds. A call's environment says what becomes of each request, in which
-- order the replies arrive, and what the clock shows.
pub mod Exclusion
pub mod Results
pub mod Retry
use election_agent.Prelude.{
  ℕ, suc, ◌+◌, ◌-◌, ◌*◌, ◌/◌, String, ◌⊎◌, inl, inr, Bool, true, false, Option, none, some, List,
  [], ◌∷◌, map, ltb, if◌then◌else◌,
}
use mathlib.Core.List.{Perm}
use election_agent.Errors.{Error, failed, extend_failed, handover_failed, Multierror}
use election_agent.Redis.{RedisServer, ns_per_ms}
use election_agent.Redlock.Quorum.{Reply, act_status_op}
use election_agent.Redlock.Script.{Request, acquire, release, touch, handover}

-- Go's float64, and int64(float64(x) * f) on it.
pub record Float64 : Type 1 where
  pub Float : Type 0
  pub f_0_01 : Float
  pub f_0_05 : Float
  pub f_0_2 : Float
  pub scale : ℕ → Float → ℕ

-- The fields that the agent's paths read; delayFunc and getConns are in the environment.
pub record Mutex (F : Float64) : Type 0 where
  pub name : String
  pub value : String
  pub expiry : ℕ
  pub tries : ℕ
  pub drift_factor : F.Float
  pub timeout_factor : F.Float
  pub op_timeout : ℕ
  pub random_value : Bool

pub data MutexOption (F : Float64) : Type 0 where
  with_expiry : ℕ → MutexOption F
  with_tries : ℕ → MutexOption F
  with_drift_factor : F.Float → MutexOption F
  with_timeout_factor : F.Float → MutexOption F

-- The environment of one call.
pub record Call : Type 0 where
  pub start : ℕ
  pub now : ℕ
  -- what genValue returns
  pub generated : String ⊎ Error
  pub arrival : List Reply → List Reply

-- What follows the requests in UnlockContext.
abbrev pub unlock_result : ℕ → ℕ × Option Error → Bool × Option Error
unlock_result quorum (n, err) = if ltb n quorum then (false, err) else (true, none)

module _ (F : Float64) where
  open F use {f_0_01, f_0_05, scale}

  apply_option : MutexOption F → Mutex F → Mutex F
  apply_option (with_expiry e) m = record m { expiry = e }
  apply_option (with_tries n) m = record m { tries = n }
  apply_option (with_drift_factor f) m = record m { drift_factor = f }
  apply_option (with_timeout_factor f) m = record m { timeout_factor = f }

  apply_options : List (MutexOption F) → Mutex F → Mutex F
  unfolding apply_option
  apply_options [] m = m
  apply_options (o ∷ os) m = apply_options os (apply_option o m)

  -- The clamp of opTimeout between 500 ms and 1500 ms.
  clamp_timeout : ℕ → ℕ
  clamp_timeout t =
      if ltb t (500 * ns_per_ms)
      then 500 * ns_per_ms
      else if ltb (1500 * ns_per_ms) t
      then 1500 * ns_per_ms
      else t

  unfoldable pub new_mutex : String → String → List (MutexOption F) → Mutex F
  unfolding apply_options clamp_timeout
  new_mutex name value options =
      let m = apply_options options (record {
        name = name;
        value = value;
        expiry = 5000 * ns_per_ms;
        tries = 8;
        drift_factor = f_0_01;
        timeout_factor = f_0_05;
        op_timeout = 0;
        random_value = false;
      }) in
      record m { op_timeout = clamp_timeout (scale m.expiry m.timeout_factor) }

  -- now.Before(now.Add(expiry - now.Sub(start) - drift)). Where a difference would be negative so
  -- is the whole offset, and truncation makes the test fail as well.
  unfoldable pub still_valid : Mutex F → Call → Bool
  still_valid m c = ltb c.now (c.now + m.expiry - (c.now - c.start) - scale m.expiry m.drift_factor)

  abbrev pub expiry_ms : Mutex F → ℕ
  expiry_ms m = m.expiry / ns_per_ms

  -- What follows the requests in TryLockContext.
  abbrev pub lock_result : Mutex F → ℕ → Call → ℕ × Option Error → Option Error
  lock_result m quorum c (n, some e) = some e
  lock_result m quorum c (n, none) =
      if ltb n quorum then some failed else if still_valid m c then none else some failed

  -- What follows the requests in ExtendContext and HandoverContext.
  abbrev pub timed_result : Mutex F → Error → ℕ → Call → ℕ × Option Error → Bool × Option Error
  timed_result m late quorum c (n, err) =
      if ltb n quorum
      then (false, err)
      else if still_valid m c
      then (true, none)
      else (false, some late)

module _ (R : RedisServer) where
  open R use {Server}

  -- A connection: its server, and what becomes of the request that this call sends it.
  abbrev pub Conn : Type 0
  Conn = Request × Server

  -- One action on each connection; the servers after it, and the replies by node.
  pub act_nodes :
      (Request → Server → Server × (Bool × Option Error)) → ℕ → List Conn → List Server × List Reply
  act_nodes act node [] = ([], [])
  act_nodes act node ((r, s) ∷ cs) =
      let (s', (ok, e)) = act r s in
      let (ss, rs) = act_nodes act (suc node) cs in
      (s' ∷ ss, record { node = node; status_ok = ok; err = e } ∷ rs)

  -- The function that TryLockContext runs on a connection.
  pub acquire_accepted : String → String → ℕ → Request → Server → Server × (Bool × Option Error)
  unfolding acquire
  acquire_accepted key value ms r s =
      if r.not_accept_lock then (s, (false, none)) else acquire R key value ms r s

module _ (F : Float64) (R : RedisServer) ⦃lib : Multierror⦄ where
  open R use {Server}

  unfoldable pub try_lock_value :
      Mutex F → String → ℕ → Call → List (Conn R) → List Server × Option Error
  unfolding act_nodes acquire_accepted still_valid
  try_lock_value m value quorum c conns =
      let (servers, replies) =
        act_nodes R (acquire_accepted R m.name value (expiry_ms F m)) 0 conns in
      (servers, lock_result F m quorum c (act_status_op true quorum (c.arrival replies)))

  -- TryLockContext
  unfoldable pub try_lock : Mutex F → ℕ → Call → List (Conn R) → List Server × Option Error
  unfolding try_lock_value
  try_lock m quorum c conns =
      if m.random_value
      then elim c.generated [
        | inl value ↦ try_lock_value m value quorum c conns
        | inr e ↦ (map (λ x. x.1) conns, some e)
      ]
      else try_lock_value m m.value quorum c conns

  -- UnlockContext
  unfoldable pub unlock : Mutex F → ℕ → Call → List (Conn R) → List Server × (Bool × Option Error)
  unfolding act_nodes release
  unlock m quorum c conns =
      let (servers, replies) = act_nodes R (release R m.name m.value) 0 conns in
      (servers, unlock_result quorum (act_status_op true quorum (c.arrival replies)))

  -- ExtendContext
  unfoldable pub extend : Mutex F → ℕ → Call → List (Conn R) → List Server × (Bool × Option Error)
  unfolding act_nodes touch still_valid
  extend m quorum c conns =
      let (servers, replies) = act_nodes R (touch R m.name m.value (expiry_ms F m)) 0 conns in
      (
        servers,
        timed_result F m extend_failed quorum c (act_status_op true quorum (c.arrival replies)),
      )

  -- HandoverContext
  unfoldable pub handover_to :
      Mutex F → String → ℕ → Call → List (Conn R) → List Server × (Bool × Option Error)
  unfolding act_nodes handover still_valid
  handover_to m holder quorum c conns =
      let (servers, replies) = act_nodes R (handover R m.name holder (expiry_ms F m)) 0 conns in
      (
        servers,
        timed_result F m handover_failed quorum c (act_status_op false quorum (c.arrival replies)),
      )
