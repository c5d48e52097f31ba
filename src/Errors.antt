-- ===== src/Errors.antt =====
-- The error values of the agent: internal/driver/redlock/error.go, the error types of
-- internal/lease/lease.go, and the walks of the standard library's `errors.As` and `errors.Is`.
-- A nil error is `none`. The numbers that a message interpolates are left out of its text.
pub mod Walk
use election_agent.Prelude.{
  ℕ, suc, String, ◌≡◌, List, Bool, true, false, Option, none, some, if◌then◌else◌,
}

mutual
  pub data Error : Type 0 where
    -- errors.New, or an error of a client library
    text : String → Error
    -- fmt.Errorf with %w
    wrap : String → Error → Error
    -- *net.OpError
    net_op : String → Error
    -- *multierror.Error, by its field Errors
    multi : Errors → Error
    -- ErrFailed, ErrExtendFailed, ErrHandoverFailed, ErrLockAlreadyExpired
    failed extend_failed handover_failed lock_already_expired : Error
    -- *redlock.TakenError, *NodeTakenError, *RedisError
    redlock_taken : List ℕ → Error
    node_taken : ℕ → Error
    redis_error : ℕ → Error → Error
    -- *lease.UnavailableError, AgentStandbyError, TakenError, NonexistError
    unavailable : Error → Error
    agent_standby : Error → Error
    lease_taken : List ℕ → Error
    nonexist : String → Error
    -- *ExtendFailError, *HandoverFailError; the field Err of the latter may be nil
    extend_fail : String → Error → Error
    handover_fail : String → String → Error → Error
    handover_fail_nil : String → String → Error

  pub data Errors : Type 0 where
    nil : Errors
    cons : Error → Errors → Errors

-- err.Errors = append(err.Errors, e)
abbrev pub snoc : Errors → Error → Errors
snoc nil e = cons e nil
snoc (cons d ds) e = cons d (snoc ds e)

abbrev pub count_errors : (Error → Bool) → Errors → ℕ
count_errors p nil = 0
count_errors p (cons e es) = let rest = count_errors p es in if p e then suc rest else rest

abbrev pub errors_len : Errors → ℕ
errors_len es = count_errors (λ _. true) es

abbrev pub is_multi : Error → Bool
is_multi (multi es) = true
is_multi _ = false

-- fmt.Errorf(m + " error: %w", err)
abbrev pub errorf : String → Option Error → Error
errorf m none = text m
errorf m (some e) = wrap m e

-- multierror.Append of hashicorp/go-multierror: a nil error becomes a fresh multierror, and an
-- error that is no multierror itself is added at the end.
pub record Multierror : Type 0 where
  pub append : Option Error → Error → Error
  pub append-none : (e : Error) → is_multi e ≡ false → append none e ≡ multi (cons e nil)
  pub append-multi :
      (es : Errors) (e : Error)
      → is_multi e ≡ false
      → append (some (multi es)) e ≡ multi (snoc es e)
