-- ===== src/Lease.antt =====
-- internal/lease/lease.go and internal/lease/redis_lease.go: leases over the quorum lock, and the
-- mapping of its errors.
pub mod Revoking
pub mod Extending
pub mod Cache
pub mod Manager
use election_agent.Prelude.{
  ℕ, String, Bool, true, false, not, Option, none, some, List, if◌then◌else◌,
}
use election_agent.Errors.{
  Error, wrap, redlock_taken, unavailable, agent_standby, lease_taken, nonexist, extend_fail,
  handover_fail, handover_fail_nil, Multierror,
}
use election_agent.Errors.Walk.{as_any, is_expired, is_redlock_taken}
use election_agent.Redis.{RedisServer}
use election_agent.Redlock.Mutex.{Float64, Mutex, Call, Conn, try_lock, unlock, extend, handover_to}
use election_agent.Driver.Health.{is_unhealthy}

-- A call that returns, or that dereferences a nil pointer.
pub data Run {ℓ} (A : Type ℓ) : Type ℓ where
  done : A → Run A
  panic : Run A

-- Tests for the dynamic type of a lease error.
abbrev pub is_unavailable : Error → Bool
is_unavailable (unavailable e) = true
is_unavailable _ = false

abbrev pub is_agent_standby : Error → Bool
is_agent_standby (agent_standby e) = true
is_agent_standby _ = false

abbrev pub is_lease_taken : Error → Bool
is_lease_taken (lease_taken ns) = true
is_lease_taken _ = false

abbrev pub is_nonexist : Error → Bool
is_nonexist (nonexist l) = true
is_nonexist _ = false

-- IsUnavailableError, IsAgentStandbyError, IsTakenError and IsNonexistError
unfoldable pub is_unavailable_error : Error → Bool
unfolding as_any
is_unavailable_error e = as_any is_unavailable e

unfoldable pub is_agent_standby_error : Error → Bool
unfolding as_any
is_agent_standby_error e = as_any is_agent_standby e

unfoldable pub is_taken_error : Error → Bool
unfolding as_any
is_taken_error e = as_any is_lease_taken e

unfoldable pub is_nonexist_error : Error → Bool
unfolding as_any
is_nonexist_error e = as_any is_nonexist e

-- What Grant makes of the error of TryLockContext.
unfoldable pub grant_result : ℕ → Option Error → Option Error
grant_result quorum none = none
grant_result quorum (some e) = if is_unhealthy quorum (some e) then some (unavailable e) else some e

-- What Revoke makes of the result of UnlockContext; the holder that it asks for is only shown in
-- the text of the error.
unfoldable pub revoke_result : ℕ → Bool × Option Error → Option Error
revoke_result quorum (ok, none) = none
revoke_result quorum (ok, some e) =
    if is_unhealthy quorum (some e)
    then some (unavailable e)
    else if as_any is_expired e
    then none
    else some (wrap "Failed to revoke lease" e)

-- e, _ := err.(*redlock.TakenError); return &TakenError{Nodes: e.Nodes}
abbrev pub taken_result : Error → Run (Option Error)
taken_result (redlock_taken ns) = done (some (lease_taken ns))
taken_result _ = panic

unfoldable pub extend_result : ℕ → String → Bool × Option Error → Run (Option Error)
extend_result quorum name (ok, some e) =
    if is_unhealthy quorum (some e)
    then done (some (unavailable e))
    else if as_any is_redlock_taken e
    then taken_result e
    else done (some (extend_fail name e))
extend_result quorum name (ok, none) = if not ok then done (some (nonexist name)) else done none

unfoldable pub handover_result : ℕ → String → String → Bool × Option Error → Run (Option Error)
handover_result quorum name holder (ok, some e) =
    if is_unhealthy quorum (some e)
    then done (some (unavailable e))
    else if as_any is_redlock_taken e
    then taken_result e
    else done (some (handover_fail name holder e))
handover_result quorum name holder (ok, none) =
    if not ok then done (some (handover_fail_nil name holder)) else done none

-- RedisLease; its driver is in the section below
pub record RedisLease (F : Float64) : Type 0 where
  pub mutex : Mutex F
  pub kind : String
  pub id : ℕ

module _ (F : Float64) (R : RedisServer) ⦃lib : Multierror⦄ where
  open R use {Server}

  unfoldable pub grant : RedisLease F → ℕ → Call → List (Conn R) → List Server × Option Error
  unfolding grant_result
  grant l quorum c conns =
      let (servers, err) = try_lock F R l.mutex quorum c conns in (servers, grant_result quorum err)

  unfoldable pub revoke : RedisLease F → ℕ → Call → List (Conn R) → List Server × Option Error
  unfolding revoke_result
  revoke l quorum c conns =
      let (servers, out) = unlock F R l.mutex quorum c conns in (servers, revoke_result quorum out)

  unfoldable pub extend_lease :
      RedisLease F → ℕ → Call → List (Conn R) → List Server × Run (Option Error)
  unfolding extend_result
  extend_lease l quorum c conns =
      let (servers, out) = extend F R l.mutex quorum c conns in
      (servers, extend_result quorum l.mutex.name out)

  unfoldable pub handover_lease :
      RedisLease F → String → ℕ → Call → List (Conn R) → List Server × Run (Option Error)
  unfolding handover_result
  handover_lease l holder quorum c conns =
      let (servers, out) = handover_to F R l.mutex holder quorum c conns in
      (servers, handover_result quorum l.mutex.name holder out)
