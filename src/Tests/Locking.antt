-- ===== src/Tests/Locking.antt =====
-- The quorum lock and its scripts on three servers.
use election_agent.Prelude.{
  ℕ, ◌≤◌, ◌<◌, String, ◌≡◌, refl, ◌≢◌, inr, true, none, some, [], ◌∷◌, arith, eq_iff,
}
use mathlib.Core.List.Perm
use election_agent.Redis.Table.{table_server, Table}
use election_agent.Redlock.Quorum.{act_status_op}
use election_agent.Redlock.Script.{acquire_script, delete_script, acquire, not_made}
use election_agent.Redlock.Mutex.{try_lock, try_lock_value, still_valid}
use election_agent.Redlock.Mutex.Exclusion.{held, Within, ArrivesAll, servers_of}
use election_agent.Redlock.Mutex.Exclusion.Grant.{try_lock_value-held}
use election_agent.Redlock.Mutex.Exclusion.Rivals.{Steps, Step, Act, Steps-held}
use election_agent.Redlock.Mutex.Exclusion.Leader.{no_second_leader}
use election_agent.Tests.Fixtures.{
  go_multierror, thousandths, empty_table, request, three, mutex_of, call_at,
}

abbrev key : String
key = "agent/lease/default/shop"

abbrev ann : String
ann = "ann"

abbrev bob : String
bob = "bob"

-- A server that has granted the key to "ann" at 1500, for three seconds.
abbrev ann_table : Table
ann_table = (acquire_script table_server key ann 3000 1500 empty_table).0

in_order : ArrivesAll (λ rs. rs)
in_order rs = Perm.refl rs

three-Within : (lo hi t : ℕ) (s : Table) → lo ≤ t → t ≤ hi → Within table_server lo hi (three t s)
three-Within lo hi t s h k = ground arith

bob-ne-ann : bob ≢ ann
bob-ne-ann e = ground (arith, eq_iff bob ann)

get-ann_table : (t : ℕ) → t < 3000001500 → table_server.get ann_table t key ≡ some ann
unfolding acquire_script
get-ann_table t h = ground arith

ann-held : 2 ≤ held table_server 4000 key ann (ann_table ∷ ann_table ∷ empty_table ∷ [])
ann-held = rw (get-ann_table 4000 (omega arith)) (omega arith)

granted :
    (try_lock_value thousandths table_server
      (mutex_of ann)
      ann
      2
      (call_at 1000 2000)
      (three 1500 empty_table)).1
    ≡ none
unfolding try_lock_value act_status_op acquire_script still_valid
granted = refl

try_lock_value-held_example :
    2
    ≤ held table_server 1500000000 key ann
        (try_lock_value thousandths table_server
          (mutex_of ann)
          ann
          2
          (call_at 1000 2000)
          (three 1500 empty_table)).0
try_lock_value-held_example =
    try_lock_value-held thousandths table_server (mutex_of ann) ann (call_at 1000 2000)
      (three 1500 empty_table) 1500000000 (omega arith) in_order
      (three-Within 1000 2000 1500 empty_table (omega arith) (omega arith)) granted (omega arith)
      (omega arith)

-- "bob" tries to take the third server's key, and to delete the first one's.
bob_tries : Steps table_server key ann 4000 (ann_table ∷ ann_table ∷ empty_table ∷ []) (
    (delete_script table_server key bob 3000 ann_table).0
    ∷ ann_table
    ∷ (acquire_script table_server key bob 3000 2500 empty_table).0
    ∷ [])
bob_tries =
    Steps.next
      (Steps.next Steps.here (
        Step.other (
          Step.other (
            Step.one
              (Act.acquires key bob 3000 2500 (inr bob-ne-ann) (omega arith) (omega arith) refl)))))
      (Step.one (Act.deletes key bob 3000 (inr bob-ne-ann) (omega arith) refl))

Steps-held_example :
    held table_server 4000 key ann (ann_table ∷ ann_table ∷ empty_table ∷ [])
    ≤ held table_server 4000 key ann (
        (delete_script table_server key bob 3000 ann_table).0
        ∷ ann_table
        ∷ (acquire_script table_server key bob 3000 2500 empty_table).0
        ∷ [])
Steps-held_example = Steps-held table_server key ann 4000 bob_tries

ann_granted :
    (try_lock thousandths table_server
      (mutex_of ann)
      2
      (call_at 1000 2000)
      (three 1500 empty_table)).1
    ≡ none
unfolding try_lock act_status_op acquire_script still_valid
ann_granted = refl

-- "bob" tries to delete the first server's key in between.
ann_leads :
    Steps table_server key ann 4000
      (try_lock thousandths table_server
        (mutex_of ann)
        2
        (call_at 1000 2000)
        (three 1500 empty_table)).0
      (servers_of table_server (three 3500 ann_table))
unfolding try_lock act_status_op acquire_script delete_script
ann_leads =
    Steps.next Steps.here (Step.one (Act.deletes key bob 2500 (inr bob-ne-ann) (omega arith) refl))

no_second_leader_example :
    (try_lock thousandths table_server
      (mutex_of bob)
      2
      (call_at 3000 4000)
      (three 3500 ann_table)).1
    ≢ none
no_second_leader_example =
    no_second_leader thousandths table_server (mutex_of ann) (mutex_of bob) (call_at 1000 2000)
      (call_at 3000 4000) (three 1500 empty_table) (three 3500 ann_table) refl refl refl bob-ne-ann
      (omega arith) (omega arith) in_order in_order
      (three-Within 1000 2000 1500 empty_table (omega arith) (omega arith))
      (three-Within 3000 4000 3500 ann_table (omega arith) (omega arith)) (omega arith)
      (omega arith) ann_granted ann_leads

without_request :
    acquire table_server "k" "ann" 3000 (record (request 5) { fate = not_made }) empty_table
    ≡ (empty_table, (true, none))
unfolding acquire
without_request = refl
