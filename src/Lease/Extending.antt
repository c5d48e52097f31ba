-- ===== src/Lease/Extending.antt =====
-- Which error an extension or a handover ends with, by the replies of the servers.
use election_agent.Prelude.{
  ℕ, ◌≤◌, ◌<◌, String, ◌≡◌, refl, ◌∙◌, ◌↔◌, inl, inr, Bool, true, false, Option, none, some, List,
  arith, ltb, leb, if◌then◌else◌, lt→ltb, leb→le, le→leb, lt→leb, ge→ltb, Bool-cases, length,
  count_if,
}
use election_agent.Errors.{
  Error, redlock_taken, unavailable, lease_taken, nonexist, extend_failed, handover_failed,
  handover_fail_nil, Multierror,
}
use election_agent.Errors.Walk.{as_any, is_redlock_taken}
use election_agent.Redlock.Quorum.{Reply, quorum_of, act_status_op}
use election_agent.Redlock.Quorum.Verdict.{
  is_ok, is_taken, act_status_op-n_iff, act_status_op-none_iff,
}
use election_agent.Redlock.Quorum.Content.{
  IsPlain, as_opt, hits, act_status_op-as_opt, act_status_op-taken,
}
use election_agent.Redlock.Mutex.{Float64, Mutex, Call, still_valid, timed_result}
use election_agent.Driver.Health.{is_unhealthy}
use election_agent.Driver.Health.Majority.{net_failed, act_status_op-is_unhealthy}
use election_agent.Lease.{Run, done, panic, taken_result, extend_result, handover_result}

-- No client library returns an error of type *redlock.TakenError.
abbrev pub NoForeignTaken : List Reply → Type 0
NoForeignTaken rs = hits is_redlock_taken rs ≡ false

taken-IsPlain : IsPlain is_redlock_taken
taken-IsPlain = record { at_text = λ m. refl; at_wrap = λ m e. refl; at_multi = λ es. refl }

-- The outcomes of an extension or a handover.
pub data ExtendOutcome : Type 0 where
  extended failed_extend held_by_other cut_off missing crashed : ExtendOutcome

abbrev pub extend_outcome : Run (Option Error) → ExtendOutcome
extend_outcome panic = crashed
extend_outcome (done none) = extended
extend_outcome (done (some (unavailable e))) = cut_off
extend_outcome (done (some (lease_taken ns))) = held_by_other
extend_outcome (done (some (nonexist l))) = missing
extend_outcome (done (some (handover_fail_nil l h))) = missing
extend_outcome (done (some _)) = failed_extend

-- Granted by a majority, in time or too late; else unreachable for a majority; else taken by a
-- majority; else too few answers. Never a missing lease, and never a crash.
abbrev pub extend_spec : ℕ → Bool → List Reply → ExtendOutcome
extend_spec q in_time rs =
    if leb q (count_if is_ok rs)
    then (if in_time then extended else failed_extend)
    else if leb q (count_if net_failed rs)
    then cut_off
    else if leb q (count_if is_taken rs)
    then held_by_other
    else failed_extend

-- The two mappings agree up to the text of the error.
handover_result-outcome :
    (q : ℕ) (name holder : String) (out : Bool × Option Error)
    → extend_outcome (handover_result q name holder out) ≡ extend_outcome (extend_result q name out)
unfolding handover_result extend_result
handover_result-outcome q name holder (true, none) = refl
handover_result-outcome q name holder (false, none) = refl
handover_result-outcome q name holder (ok, some e) = elim (Bool-cases (is_unhealthy q (some e))) [
  | inl u ↦ rw u
  | inr u ↦ elim (Bool-cases (as_any is_redlock_taken e)) [ inl t ↦ rw (u, t) | inr t ↦ rw (u, t) ]
]

taken_facts :
    (q : ℕ) (e : Error) (ns : List ℕ)
    → e ≡ redlock_taken ns
    → (is_unhealthy q (some e) ≡ false)
      × (as_any is_redlock_taken e ≡ true)
      × (taken_result e ≡ done (some (lease_taken ns)))
unfolding is_unhealthy as_any
taken_facts q e ns h = (rw h, rw h, rw h)

error_cases :
    (q : ℕ) (name : String) (e : Error) (nets takens : ℕ)
    → is_unhealthy q (some e) ≡ leb q nets
    → (q ≤ takens → (ns : List ℕ) × (some e ≡ some (redlock_taken ns)))
    → (takens < q → as_any is_redlock_taken e ≡ false)
    → extend_outcome (extend_result q name (false, some e))
      ≡ (if leb q nets then cut_off else if leb q takens then held_by_other else failed_extend)
unfolding extend_result
error_cases q name e nets takens c d f = elim (Bool-cases (leb q takens)) [
  | inl t ↦
      let (ns, p) = d (leb→le q takens t) in
      let h : e ≡ redlock_taken ns = cc in ground (arith, taken_facts q e ns h)
  | inr t ↦ ground (arith, f)
]

late_cases :
    (q : ℕ) (name : String)
    → (extend_outcome (extend_result q name (false, some extend_failed)) ≡ failed_extend)
      × (extend_outcome (extend_result q name (false, some handover_failed)) ≡ failed_extend)
unfolding extend_result is_unhealthy as_any
late_cases q name = (refl, refl)

extend_cases :
    (q : ℕ) (name : String) (late : Error) (in_time : Bool) (out : ℕ × Option Error)
    (oks nets takens : ℕ)
    → extend_outcome (extend_result q name (false, some late)) ≡ failed_extend
    → ((q ≤ out.0) ↔ (out.1 ≡ none))
    → ((out.1 ≡ none) ↔ (q ≤ oks))
    → is_unhealthy q out.1 ≡ leb q nets
    → (q ≤ takens → (ns : List ℕ) × (out.1 ≡ some (redlock_taken ns)))
    → (takens < q → oks < q → as_opt is_redlock_taken out.1 ≡ false)
    → extend_outcome (
        extend_result q name (
          if ltb out.0 q
          then (false, out.1)
          else if in_time
          then (true, none)
          else (false, some late)))
      ≡ (if leb q oks
          then (if in_time then extended else failed_extend)
          else if leb q nets
          then cut_off
          else if leb q takens
          then held_by_other
          else failed_extend)
extend_cases q name late in_time (n, none) oks nets takens l a b c d f =
    rw (le→leb q oks (b.0 refl), ge→ltb n q (a.1 refl))
      (elim in_time
        as (λ t.
          extend_outcome (extend_result q name (if t then (true, none) else (false, some late)))
          ≡ (if t then extended else failed_extend)) [
            | true ↦ unfold extend_result in refl
            | false ↦ l
          ])
extend_cases q name late in_time (n, some e) oks nets takens l a b c d f =
    let few : oks < q = ground (arith, b.1) in
    rw (lt→ltb n q (ground (arith, a.0)), lt→leb oks q few)
      (error_cases q name e nets takens c d (λ t. f t few))

module _ (F : Float64) ⦃lib : Multierror⦄ where
  timed_outcome :
      (m : Mutex F) (late : Error) (fail_fast : Bool) (c : Call) (rs : List Reply)
      → extend_outcome (extend_result (quorum_of (length rs)) m.name (false, some late))
        ≡ failed_extend
      → NoForeignTaken rs
      → let q = quorum_of (length rs) in
        extend_outcome
          (extend_result q m.name (timed_result F m late q c (act_status_op fail_fast q rs)))
        ≡ extend_spec q (still_valid F m c) rs
  timed_outcome m late fail_fast c rs l clean =
      let q = quorum_of (length rs) in
      extend_cases q m.name late (still_valid F m c) (act_status_op fail_fast q rs)
        (count_if is_ok rs) (count_if net_failed rs) (count_if is_taken rs) l
        (act_status_op-n_iff fail_fast rs) (act_status_op-none_iff fail_fast rs)
        (act_status_op-is_unhealthy fail_fast rs) (act_status_op-taken fail_fast q rs)
        (λ h k. act_status_op-as_opt is_redlock_taken taken-IsPlain fail_fast q rs h k ∙ clean)

  -- The outcome of Extend on every list of replies, at their majority quorum, if no client library
  -- returns a TakenError of redlock: with a majority extended if in time and else failed; else
  -- unavailable if a majority failed in the network; else taken if a majority has it taken; else
  -- failed. It is never a missing lease and never a nil dereference.
  pub extend_result_lem :
      (m : Mutex F) (c : Call) (rs : List Reply)
      → NoForeignTaken rs
      → let q = quorum_of (length rs) in
        extend_outcome
          (extend_result q m.name (timed_result F m extend_failed q c (act_status_op true q rs)))
        ≡ extend_spec q (still_valid F m c) rs
  extend_result_lem m c rs clean =
      timed_outcome m extend_failed true c rs (late_cases _ m.name).0 clean

  -- The outcome of Handover on every list of replies, at their majority quorum, if no client
  -- library returns a TakenError of redlock: with a majority done if in time and else failed; else
  -- unavailable if a majority failed in the network; else taken if a majority has it taken; else
  -- failed. It is never the failure without an error and never a nil dereference.
  pub handover_result_lem :
      (m : Mutex F) (holder : String) (c : Call) (rs : List Reply)
      → NoForeignTaken rs
      → let q = quorum_of (length rs) in
        extend_outcome (
          handover_result q m.name holder
            (timed_result F m handover_failed q c (act_status_op false q rs)))
        ≡ extend_spec q (still_valid F m c) rs
  handover_result_lem m holder c rs clean =
      handover_result-outcome _ m.name holder _
      ∙ timed_outcome m handover_failed false c rs (late_cases _ m.name).1 clean
