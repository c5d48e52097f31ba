-- ===== src/Driver/Health/Majority.antt =====
-- When a failed quorum operation counts as unhealthy, by the replies that it saw.
use native.Mathlib.Nat.{add-zero}
use mathlib.Core.Path.{subst}
use election_agent.Prelude.{
  ℕ, ◌+◌, ◌≤◌, ◌<◌, ◌≡◌, refl, inl, inr, Bool, true, false, not, ◌&&◌, Option, none, some, List, [],
  ◌∷◌, arith, leb, if◌then◌else◌, Bool-cases, length, count_if, count_if-le-length,
}
use election_agent.Errors.{
  Error, Errors, nil, cons, snoc, multi, lock_already_expired, node_taken, redis_error,
  count_errors, errors_len, is_multi, Multierror,
}
use election_agent.Errors.Walk.{as_any, is_net_op, is_expired}
use election_agent.Redlock.Quorum.{
  Reply, Tally, no_replies, quorum_of, count_reply, conclude, stop_or_go, collect, act_status_op,
}
use election_agent.Redlock.Quorum.Verdict.{taken-count_reply, n-count_reply}
use election_agent.Driver.Health.{
  net_errors, is_net_op_error, is_net_op_error-eq, is_unhealthy, unhealthy_errors,
}

-- A connection that failed in the network: it was not refused, and its error is a network
-- operation error other than the expiry of the lock.
abbrev net_error : Error → Bool
net_error e = not (as_any is_expired e) && as_any is_net_op e

abbrev net_reply : Option Error → Bool
net_reply none = false
net_reply (some e) = net_error e

abbrev pub net_failed : Reply → Bool
net_failed r = not r.status_ok && net_reply r.err

count_errors-snoc :
    (p : Error → Bool) (es : Errors) (e : Error)
    → count_errors p (snoc es e) ≡ count_errors p es + count_errors p (cons e nil)
count_errors-snoc p nil e = ground arith
count_errors-snoc p (cons d ds) e = ground (arith, count_errors-snoc p ds e)

count_errors-le : (p : Error → Bool) (es : Errors) → count_errors p es ≤ errors_len es
count_errors-le p nil = omega arith
count_errors-le p (cons e es) = ground (arith, count_errors-le p es)

-- What the loop has gathered: a multierror with so many network errors, or nothing.
abbrev Gathered : Option Error → ℕ → Type 0
Gathered none net = net ≡ 0
Gathered (some (multi es)) net = net_errors es ≡ net
Gathered (some _) net = ⊥

abbrev bit : Bool → ℕ
bit b = if b then 1 else 0

unhealthy_errors-eq : (q : ℕ) (es : Errors) → unhealthy_errors q (some es) ≡ leb q (net_errors es)
unfolding unhealthy_errors
unhealthy_errors-eq q es = ground (arith, count_errors-le (λ e. is_net_op_error (some e)) es)

wrapped_is_net :
    (node : ℕ) (e : Error) → is_net_op_error (some (redis_error node e)) ≡ as_any is_net_op e
unfolding as_any
wrapped_is_net node e = is_net_op_error-eq (redis_error node e)

module _ ⦃lib : Multierror⦄ where
  append-Gathered :
      (err : Option Error) (e : Error) (net : ℕ)
      → is_multi e ≡ false
      → Gathered err net
      → Gathered (some (lib.append err e)) (net + bit (is_net_op_error (some e)))
  append-Gathered none e net p g = rw (lib.append-none e p) (ground arith)
  append-Gathered (some (multi es)) e net p g =
      rw (lib.append-multi es e p)
        (ground (arith, count_errors-snoc (λ d. is_net_op_error (some d)) es e))
  append-Gathered (some _) e net p g = absurd g

  failure-Gathered :
      (t : Tally) (node net : ℕ) (e : Error)
      → Gathered t.err net
      → Gathered
          (count_reply t (record { node = node; status_ok = false; err = some e })).err
          (net + bit (net_error e))
  unfolding count_reply is_net_op_error
  failure-Gathered t node net e g = elim (Bool-cases (as_any is_expired e)) [
    | inl x ↦ rw x (append-Gathered t.err lock_already_expired net refl g)
    | inr x ↦
        rw (x, ← wrapped_is_net node e) (append-Gathered t.err (redis_error node e) net refl g)
  ]

  reply-Gathered :
      (t : Tally) (node net : ℕ) (ok : Bool) (err : Option Error)
      → Gathered t.err net
      → let r : Reply = record { node = node; status_ok = ok; err = err } in
        Gathered (count_reply t r).err (net + bit (net_failed r))
  unfolding count_reply is_net_op_error
  reply-Gathered t node net true err g = rw add-zero g
  reply-Gathered t node net false none g = append-Gathered t.err (node_taken node) net refl g
  reply-Gathered t node net false (some e) g = failure-Gathered t node net e g

  count_reply-Gathered :
      (t : Tally) (r : Reply) (net : ℕ)
      → Gathered t.err net
      → Gathered (count_reply t r).err (net + bit (net_failed r))
  count_reply-Gathered t r net g = reply-Gathered t r.node net r.status_ok r.err g

  conclude-is_unhealthy :
      (q size net n : ℕ) (takers : List ℕ) (err : Option Error)
      → q ≡ quorum_of size
      → n + length takers + net ≤ size
      → Gathered err net
      → is_unhealthy q (conclude q (record { n = n; taken = takers; err = err })).1 ≡ leb q net
  unfolding conclude is_unhealthy
  conclude-is_unhealthy q size net n takers none e h g = ground arith
  conclude-is_unhealthy q size net n takers (some (multi es)) e h g =
      ground (arith, unhealthy_errors-eq q es)
  conclude-is_unhealthy q size net n takers (some _) e h g = absurd g

  stop_or_go-is_unhealthy :
      (fail_fast : Bool) (q net : ℕ) (t : Tally) (rest : ℕ × Option Error)
      → (q ≤ length t.taken → net < q)
      → is_unhealthy q rest.1 ≡ leb q net
      → is_unhealthy q (stop_or_go fail_fast q t rest).1 ≡ leb q net
  unfolding stop_or_go is_unhealthy
  stop_or_go-is_unhealthy fail_fast q net t rest h e = ground arith

  collect-is_unhealthy :
      (fail_fast : Bool) (q size net all : ℕ) (t : Tally) (rs : List Reply)
      → q ≡ quorum_of size
      → t.n + length t.taken + net + length rs ≤ size
      → Gathered t.err net
      → all ≡ net + count_if net_failed rs
      → is_unhealthy q (collect fail_fast q t rs).1 ≡ leb q all
  unfolding collect
  collect-is_unhealthy fail_fast q size net all t [] e h g a =
      conclude-is_unhealthy q size all t.n t.taken t.err e (omega arith)
        (subst (Gathered t.err) (omega arith) g)
  collect-is_unhealthy fail_fast q size net all t (r ∷ rs) e h g a =
      stop_or_go-is_unhealthy fail_fast q all (count_reply t r) _
        (λ k.
          ground
            (arith, taken-count_reply t r, count_if-le-length net_failed rs, n-count_reply t r))
        (collect-is_unhealthy fail_fast q size (net + bit (net_failed r)) all (count_reply t r) rs e
          (ground (arith, taken-count_reply t r, n-count_reply t r))
          (count_reply-Gathered t r net g) (ground arith))

  -- IsUnhealthy holds of a quorum operation's error, at the majority quorum of its replies, exactly
  -- when a majority of all connections failed with a network error and not with an expired lock.
  pub act_status_op-is_unhealthy :
      (fail_fast : Bool) (rs : List Reply)
      → let q = quorum_of (length rs) in
        is_unhealthy q (act_status_op fail_fast q rs).1 ≡ leb q (count_if net_failed rs)
  unfolding act_status_op
  act_status_op-is_unhealthy fail_fast rs =
      collect-is_unhealthy fail_fast (quorum_of (length rs)) (length rs) 0 _ no_replies rs refl
        (omega arith) refl (omega arith)
