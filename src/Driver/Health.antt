-- ===== src/Driver/Health.antt =====
-- internal/driver/redis_helper.go, and IsUnhealthy of internal/driver/redis_driver.go.
pub mod Majority
use election_agent.Prelude.{
  ℕ, ◌≡◌, refl, Bool, true, false, not, Option, none, some, arith, ltb, leb, if◌then◌else◌,
}
use election_agent.Errors.{
  Error, Errors, wrap, multi, redis_error, count_errors, errors_len, is_multi,
}
use election_agent.Errors.Walk.{as_any, is_net_op, is_redis_error}

-- The errors of a multierror, if the value is one.
abbrev pub errors_of : Error → Option Errors
errors_of (multi es) = some es
errors_of _ = none

-- errors.Unwrap; a multierror and an error that wraps nothing give nil here
abbrev pub unwrap : Error → Option Error
unwrap (wrap m e) = some e
unwrap (redis_error n e) = some e
unwrap _ = none

abbrev unwrapped_errors : Option Error → Option Errors
unwrapped_errors none = none
unwrapped_errors (some e) = errors_of e

unfoldable pub get_multi_error : Error → Option Errors
unfolding as_any
get_multi_error e =
    if not (as_any is_multi e)
    then none
    else elim (errors_of e) [ some es ↦ some es | none ↦ unwrapped_errors (unwrap e) ]

abbrev wrapped_net_op : Error → Bool
wrapped_net_op e = elim e [ redis_error n inner ↦ as_any is_net_op inner | _ ↦ false ]

unfoldable pub is_net_op_error : Option Error → Bool
unfolding as_any
is_net_op_error none = false
is_net_op_error (some e) =
    if as_any is_net_op e then true else if as_any is_redis_error e then wrapped_net_op e else false

abbrev net_errors : Errors → ℕ
net_errors es = count_errors (λ e. is_net_op_error (some e)) es

unhealthy_errors : ℕ → Option Errors → Bool
unfolding is_net_op_error
unhealthy_errors quorum none = false
unhealthy_errors quorum (some es) =
    if ltb (errors_len es) quorum then false else leb quorum (net_errors es)

-- IsUnhealthy, at the lock's quorum
unfoldable pub is_unhealthy : ℕ → Option Error → Bool
unfolding get_multi_error unhealthy_errors
is_unhealthy quorum none = false
is_unhealthy quorum (some e) = unhealthy_errors quorum (get_multi_error e)

wrapped_net_op-false : (e : Error) → as_any is_net_op e ≡ false → wrapped_net_op e ≡ false
unfolding as_any
wrapped_net_op-false (redis_error n e) h = h
wrapped_net_op-false _ h = refl

-- isNetOpError holds of an error exactly when errors.As finds a network operation error in it: the
-- second test decides nothing.
pub is_net_op_error-eq : (e : Error) → is_net_op_error (some e) ≡ as_any is_net_op e
unfolding is_net_op_error
is_net_op_error-eq e = ground (arith, wrapped_net_op-false e)
