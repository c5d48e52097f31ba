-- ===== src/Errors/Walk.antt =====
-- errors.As and errors.Is: the error, then what it wraps, in depth. Of the types here that wrap,
-- fmt.Errorf, RedisError and multierror have an Unwrap; those of the lease package have none.
use election_agent.Prelude.{Bool, true, false, ◌||◌}
use election_agent.Errors.{
  Error, Errors, text, wrap, net_op, multi, failed, extend_failed, handover_failed,
  lock_already_expired, redlock_taken, node_taken, redis_error, unavailable, agent_standby,
  lease_taken, nonexist, extend_fail, handover_fail, handover_fail_nil, nil, cons,
}

unfoldable mutual
  pub as_any : (Error → Bool) → Error → Bool
  as_any p (wrap m e) = p (wrap m e) || as_any p e
  as_any p (multi es) = p (multi es) || as_some p es
  as_any p (redis_error n e) = p (redis_error n e) || as_any p e
  as_any p (text m) = p (text m)
  as_any p (net_op m) = p (net_op m)
  as_any p failed = p failed
  as_any p extend_failed = p extend_failed
  as_any p handover_failed = p handover_failed
  as_any p lock_already_expired = p lock_already_expired
  as_any p (redlock_taken ns) = p (redlock_taken ns)
  as_any p (node_taken n) = p (node_taken n)
  as_any p (unavailable e) = p (unavailable e)
  as_any p (agent_standby e) = p (agent_standby e)
  as_any p (lease_taken ns) = p (lease_taken ns)
  as_any p (nonexist l) = p (nonexist l)
  as_any p (extend_fail l e) = p (extend_fail l e)
  as_any p (handover_fail l h e) = p (handover_fail l h e)
  as_any p (handover_fail_nil l h) = p (handover_fail_nil l h)

  pub as_some : (Error → Bool) → Errors → Bool
  as_some p nil = false
  as_some p (cons e es) = as_any p e || as_some p es

-- Tests for one dynamic type or one sentinel.
abbrev pub is_net_op : Error → Bool
is_net_op (net_op m) = true
is_net_op _ = false

abbrev pub is_redis_error : Error → Bool
is_redis_error (redis_error n e) = true
is_redis_error _ = false

abbrev pub is_expired : Error → Bool
is_expired lock_already_expired = true
is_expired _ = false

abbrev pub is_redlock_taken : Error → Bool
is_redlock_taken (redlock_taken ns) = true
is_redlock_taken _ = false
