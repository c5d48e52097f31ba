-- ===== src/Tests/Retries.antt =====
-- A lock that is taken at the second try.
use election_agent.Prelude.{
  ℕ, String, ◌≡◌, refl, inl, inr, false, none, List, [], ◌∷◌, arith, eqb, if◌then◌else◌, Bool-cases,
}
use mathlib.Core.List.Perm
use election_agent.Errors.{text, failed}
use election_agent.Redis.Table.{table_server, Table}
use election_agent.Redlock.Quorum.{act_status_op}
use election_agent.Redlock.Script.{Request, dropped, acquire_script}
use election_agent.Redlock.Mutex.{Mutex, still_valid}
use election_agent.Redlock.Mutex.Retry.{
  Try, attempt, locked, lock_loop, lock_value, lock_context, lock,
}
use election_agent.Redlock.Mutex.Retry.Tries.{IsTry, Taken, lock-Taken}
use election_agent.Tests.Fixtures.{
  go_multierror, thousandths, empty_table, mutex_of, call_at, request,
}

abbrev unreachable : ℕ → Request
unreachable t = record (request t) { fate = dropped (text "i/o timeout") }

-- Nobody is reached at the first try, and everybody at the later ones.
abbrev tries : ℕ → Try
tries k = record {
  call = call_at 1000 2000;
  requests =
      if eqb k 0
      then unreachable 1500 ∷ unreachable 1500 ∷ unreachable 1500 ∷ []
      else request 1500 ∷ request 1500 ∷ request 1500 ∷ [];
  context_done = false;
}

abbrev tables : List Table
tables = empty_table ∷ empty_table ∷ empty_table ∷ []

abbrev patient : Mutex thousandths
patient = record (mutex_of "ann") { tries = 3 }

tries-IsTry : (k : ℕ) → IsTry 3 (tries k)
tries-IsTry k = elim (Bool-cases (eqb k 0)) [
  | inl e ↦ rw e (refl, ground arith, λ rs. Perm.refl rs)
  | inr e ↦ rw e (refl, ground arith, λ rs. Perm.refl rs)
]

taken : (lock thousandths table_server patient 2 tries (inr failed) tables).1 ≡ none
unfolding lock lock_context lock_value lock_loop attempt locked act_status_op acquire_script
    still_valid
taken = refl

lock-Taken_example :
    let out = lock thousandths table_server patient 2 tries (inr failed) tables in
    (value : String) × (lock_value thousandths table_server patient (inr failed) ≡ inl value)
    × Taken thousandths table_server 3 patient value tries 0 3 out
lock-Taken_example =
    lock-Taken thousandths table_server 3 patient tries (inr failed) tables (omega arith)
      tries-IsTry refl taken
