-- ===== src/Redlock/Mutex/Results.antt =====
-- What the methods of Mutex return, by the replies they count and by the clock.
use election_agent.Prelude.{
  ℕ, ◌+◌, ◌-◌, ◌*◌, ◌≤◌, ◌<◌, String, ◌≡◌, refl, ◌∙◌, ◌↔◌, Bool, true, Option, none, some, List,
  arith, length, count_if, length-perm,
}
use mathlib.Core.Path.{subst}
use election_agent.Errors.{Error, extend_failed, Multierror}
use election_agent.Redis.{RedisServer, ns_per_ms}
use election_agent.Redlock.Quorum.{Reply, quorum_of, act_status_op}
use election_agent.Redlock.Quorum.Verdict.{is_ok, act_status_op-none_iff, act_status_op-n_iff}
use election_agent.Redlock.Script.{Request, release, touch}
use election_agent.Redlock.Mutex.{
  Float64, Mutex, MutexOption, Call, Conn, new_mutex, still_valid, expiry_ms, unlock_result,
  timed_result, act_nodes, unlock, extend,
}
use election_agent.Redlock.Mutex.Exclusion.{ArrivesAll, length-act_nodes}

module _ (F : Float64) where
  -- Whatever the options, the operation timeout of a new mutex is between 500 ms and 1500 ms.
  pub new_mutex_timeout :
      (name value : String) (options : List (MutexOption F))
      → let m = new_mutex F name value options in
        (500 * ns_per_ms ≤ m.op_timeout) × (m.op_timeout ≤ 1500 * ns_per_ms)
  unfolding new_mutex
  new_mutex_timeout name value options = ground arith

  -- If the clock does not run backwards, the validity test holds exactly when the time that the
  -- call took and the clock drift together are less than the expiry.
  pub still_valid_iff :
      (m : Mutex F) (c : Call)
      → c.start ≤ c.now
      → (still_valid F m c ≡ true)
        ↔ ((c.now - c.start) + F.scale m.expiry m.drift_factor < m.expiry)
  unfolding still_valid
  still_valid_iff m c h = (λ e. ground arith, λ e. ground arith)

  timed_cases :
      (m : Mutex F) (late : Error) (c : Call) (q oks : ℕ) (out : ℕ × Option Error)
      → (q ≤ out.0 → out.1 ≡ none)
      → (out.1 ≡ none → q ≤ oks)
      → (q ≤ oks → q ≤ out.0)
      → let r = timed_result F m late q c out in
        ((r.0 ≡ true) ↔ ((q ≤ oks) × (still_valid F m c ≡ true))) × ((r.1 ≡ none) ↔ (r.0 ≡ true))
  timed_cases m late c q oks (n, none) a b d =
      ((λ h. ground (arith, b refl), λ h. ground arith), (λ h. ground arith, λ h. ground arith))
  timed_cases m late c q oks (n, some x) a b d =
      ((λ h. ground arith, λ h. ground arith), (λ h. ground arith, λ h. ground arith))

unlock_cases :
    (q : ℕ) (out : ℕ × Option Error)
    → (q ≤ out.0 → out.1 ≡ none)
    → (out.1 ≡ none → q ≤ out.0)
    → let r = unlock_result q out in ((r.0 ≡ true) ↔ (q ≤ out.0)) × ((r.1 ≡ none) ↔ (r.0 ≡ true))
unlock_cases q (n, none) a b =
    ((λ h. ground arith, λ h. ground arith), (λ h. ground arith, λ h. ground arith))
unlock_cases q (n, some x) a b =
    ((λ h. ground arith, λ h. ground arith), (λ h. ground arith, λ h. ground arith))

module _ (F : Float64) ⦃lib : Multierror⦄ where
  -- At the majority quorum, ExtendContext and HandoverContext return true exactly when a majority
  -- succeeded and the lock is still valid, and return no error exactly when they return true.
  pub timed_result_cases :
      (m : Mutex F) (late : Error) (fail_fast : Bool) (c : Call) (rs : List Reply)
      → let q = quorum_of (length rs) in
        let out = timed_result F m late q c (act_status_op fail_fast q rs) in
        ((out.0 ≡ true) ↔ ((q ≤ count_if is_ok rs) × (still_valid F m c ≡ true)))
        × ((out.1 ≡ none) ↔ (out.0 ≡ true))
  timed_result_cases m late fail_fast c rs =
      let q = quorum_of (length rs) in
      let iff_n = act_status_op-n_iff fail_fast rs in
      let iff_ok = act_status_op-none_iff fail_fast rs in
      timed_cases F m late c q (count_if is_ok rs) (act_status_op fail_fast q rs) iff_n.0 iff_ok.0
        (λ h. iff_n.1 (iff_ok.1 h))

module _ (F : Float64) (R : RedisServer) ⦃lib : Multierror⦄ where
  replies_size :
      (act : Request → R.Server → R.Server × (Bool × Option Error)) (c : Call)
      (conns : List (Conn R))
      → ArrivesAll c.arrival
      → length (c.arrival (act_nodes R act 0 conns).1) ≡ length conns
  replies_size act c conns arr = length-perm (arr _) ∙ (length-act_nodes R act 0 conns).1

  -- ExtendContext never returns false without an error.
  pub extend-error :
      (m : Mutex F) (c : Call) (conns : List (Conn R))
      → ArrivesAll c.arrival
      → ((extend F R m (quorum_of (length conns)) c conns).1.1 ≡ none)
        ↔ ((extend F R m (quorum_of (length conns)) c conns).1.0 ≡ true)
  unfolding extend
  extend-error m c conns arr =
      let act = touch R m.name m.value (expiry_ms F m) in
      let rs = c.arrival (act_nodes R act 0 conns).1 in
      subst
        (λ n.
          let r =
            timed_result F m extend_failed (quorum_of n) c (act_status_op true (quorum_of n) rs) in
          (r.1 ≡ none) ↔ (r.0 ≡ true))
        (replies_size act c conns arr) (timed_result_cases F m extend_failed true c rs).1

  -- UnlockContext, with replies in any order and at the majority quorum, returns no error exactly
  -- when it returns true.
  pub unlock-error :
      (m : Mutex F) (c : Call) (conns : List (Conn R))
      → ArrivesAll c.arrival
      → ((unlock F R m (quorum_of (length conns)) c conns).1.1 ≡ none)
        ↔ ((unlock F R m (quorum_of (length conns)) c conns).1.0 ≡ true)
  unfolding unlock
  unlock-error m c conns arr =
      let act = release R m.name m.value in
      let rs = c.arrival (act_nodes R act 0 conns).1 in
      let iff = act_status_op-n_iff true rs in
      subst
        (λ n.
          let r = unlock_result (quorum_of n) (act_status_op true (quorum_of n) rs) in
          (r.1 ≡ none) ↔ (r.0 ≡ true))
        (replies_size act c conns arr)
        (unlock_cases (quorum_of (length rs)) (act_status_op true (quorum_of (length rs)) rs) iff.0
          iff.1).1
