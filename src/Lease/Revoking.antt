-- ===== src/Lease/Revoking.antt =====
-- Which error a revocation ends with, by the replies of the servers.
use election_agent.Prelude.{
  ℕ, ◌≤◌, ◌<◌, ◌≡◌, refl, ◌↔◌, inl, inr, Bool, true, false, Option, none, some, List, arith, leb,
  if◌then◌else◌, leb→le, Bool-cases, length, count_if,
}
use election_agent.Errors.{Error, redlock_taken, unavailable, Multierror}
use election_agent.Errors.Walk.{as_any, is_expired}
use election_agent.Redlock.Quorum.{Reply, quorum_of, act_status_op}
use election_agent.Redlock.Quorum.Verdict.{
  is_ok, is_taken, act_status_op-n_iff, act_status_op-none_iff,
}
use election_agent.Redlock.Quorum.Content.{
  IsPlain, as_opt, hits, act_status_op-as_opt, act_status_op-taken,
}
use election_agent.Redlock.Mutex.{unlock_result}
use election_agent.Driver.Health.{is_unhealthy}
use election_agent.Driver.Health.Majority.{net_failed, act_status_op-is_unhealthy}
use election_agent.Lease.{revoke_result}

expired-IsPlain : IsPlain is_expired
expired-IsPlain = record { at_text = λ m. refl; at_wrap = λ m e. refl; at_multi = λ es. refl }

-- The outcomes of a revocation.
pub data RevokeOutcome : Type 0 where
  revoked failed_revoke unreachable : RevokeOutcome

abbrev pub revoke_outcome : Option Error → RevokeOutcome
revoke_outcome none = revoked
revoke_outcome (some (unavailable e)) = unreachable
revoke_outcome (some _) = failed_revoke

-- By the counts of the replies: released by a majority; else unreachable for a majority; else
-- taken by a majority; else gone if any server says that the lock has expired.
abbrev pub revoke_spec : ℕ → List Reply → RevokeOutcome
revoke_spec q rs =
    if leb q (count_if is_ok rs)
    then revoked
    else if leb q (count_if net_failed rs)
    then unreachable
    else if leb q (count_if is_taken rs)
    then failed_revoke
    else if hits is_expired rs
    then revoked
    else failed_revoke

revoke_cases :
    (q : ℕ) (out : ℕ × Option Error) (oks nets takens : ℕ) (expired : Bool)
    → ((q ≤ out.0) ↔ (out.1 ≡ none))
    → ((out.1 ≡ none) ↔ (q ≤ oks))
    → is_unhealthy q out.1 ≡ leb q nets
    → (q ≤ takens → (ns : List ℕ) × (out.1 ≡ some (redlock_taken ns)))
    → (takens < q → oks < q → as_opt is_expired out.1 ≡ expired)
    → revoke_outcome (revoke_result q (unlock_result q out)) ≡ (
        if leb q oks
        then revoked
        else if leb q nets
        then unreachable
        else if leb q takens
        then failed_revoke
        else if expired
        then revoked
        else failed_revoke)
unfolding revoke_result as_any
revoke_cases q (n, none) oks nets takens expired a b c d f = ground (arith, b.0 refl, a.1 refl)
revoke_cases q (n, some e) oks nets takens expired a b c d f = elim (Bool-cases (leb q takens)) [
  | inl t ↦
      let (ns, p) = d (leb→le q takens t) in
      let same_error : e ≡ redlock_taken ns = cc in
      let x : as_any is_expired e ≡ false = rw same_error in ground (arith, x, a.0, b.1)
  | inr t ↦ ground (arith, f, a.0, b.1)
]

module _ ⦃lib : Multierror⦄ where
  -- The outcome of Revoke on every list of replies, at their majority quorum: revoked if a majority
  -- released; else unavailable if a majority failed in the network; else a failure if a majority
  -- has it taken; else revoked if any server says that the lock has expired; else a failure.
  pub revoke_result_lem :
      (rs : List Reply)
      → let q = quorum_of (length rs) in
        revoke_outcome (revoke_result q (unlock_result q (act_status_op true q rs)))
        ≡ revoke_spec q rs
  revoke_result_lem rs =
      let q = quorum_of (length rs) in
      revoke_cases q (act_status_op true q rs) (count_if is_ok rs) (count_if net_failed rs)
        (count_if is_taken rs) (hits is_expired rs) (act_status_op-n_iff true rs)
        (act_status_op-none_iff true rs) (act_status_op-is_unhealthy true rs)
        (act_status_op-taken true q rs) (act_status_op-as_opt is_expired expired-IsPlain true q rs)
