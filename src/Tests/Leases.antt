-- ===== src/Tests/Leases.antt =====
-- Leases: the mapping of errors, the cache and the gate.
use election_agent.Prelude.{◌+◌, ◌≤◌, ◌<>◌, ◌≡◌, refl, true, none, some, List, [], ◌∷◌, map, arith}
use election_agent.Errors.{net_op, extend_failed}
use election_agent.Errors.Walk.{as_any}
use election_agent.Agent.{standby_state, expired}
use election_agent.Config.{lease_key}
use election_agent.Redis.Table.{table_server}
use election_agent.Redlock.Quorum.{Reply, act_status_op}
use election_agent.Redlock.Mutex.{Conn, still_valid, unlock_result, timed_result}
use election_agent.Lease.{RedisLease, done, revoke_result, extend_result}
use election_agent.Lease.Revoking.{revoke_outcome, revoke_spec, revoke_result_lem}
use election_agent.Lease.Extending.{NoForeignTaken, extend_outcome, extend_spec, extend_result_lem}
use election_agent.Lease.Cache.{Hasher, LeaseManager, lease_id, get_lease}
use election_agent.Lease.Cache.Sharing.{
  args, IsSound, MadeFor, get_lease-IsSound, get_lease-other_election,
}
use election_agent.Lease.Manager.{
  Clock, Managed, standby_error, get_state, grant_lease, revoke_lease, extend_lease_of,
  handover_lease_of,
}
use election_agent.Lease.Manager.Refusal.{refusal, left_store, refused-untouched}
use election_agent.Lease.Manager.Gate.{get_state-IsFresh}
use election_agent.Tests.Fixtures.{
  go_multierror, thousandths, empty_table, three, mutex_of, call_at, reply_ok, reply_taken,
  reply_error, config,
}
use election_agent.Tests.Stores.{World, full_cache, text_store, keys}

abbrev replies : List Reply
replies = reply_taken 0 ∷ reply_ok 1 ∷ reply_error 2 (net_op "timeout") ∷ []

revoke_result_lem_example :
    revoke_outcome (revoke_result 2 (unlock_result 2 (act_status_op true 2 replies)))
    ≡ revoke_spec 2 replies
revoke_result_lem_example = revoke_result_lem replies

clean : NoForeignTaken replies
unfolding as_any
clean = refl

extend_result_lem_example :
    extend_outcome (
      extend_result 2 "agent/lease/default/shop" (
        timed_result thousandths
          (mutex_of "ann")
          extend_failed
          2
          (call_at 1000 2000)
          (act_status_op true 2 replies)))
    ≡ extend_spec 2 (still_valid thousandths (mutex_of "ann") (call_at 1000 2000)) replies
extend_result_lem_example =
    extend_result_lem thousandths (mutex_of "ann") (call_at 1000 2000) replies clean

abbrev pub length_hash : Hasher
length_hash = record { hash = λ s. 7 }

abbrev manager : LeaseManager thousandths length_hash (full_cache (RedisLease thousandths))
manager = record {
  cfg = config;
  state = record { val = standby_state; last = 1000; ttl = 5000 };
  cache = λ i. none;
}

nothing_cached : IsSound thousandths length_hash (full_cache (RedisLease thousandths)) manager
nothing_cached id l h = absurd (ground arith)

get_lease-IsSound_example :
    let C = full_cache (RedisLease thousandths) in
    let (lm', l) = get_lease thousandths length_hash C (args "shop" "" "ann" 3000000000) manager in
    IsSound thousandths length_hash C lm'
    × MadeFor thousandths length_hash C config
        (lease_id thousandths length_hash C config (args "shop" "" "ann" 3000000000))
        l
get_lease-IsSound_example =
    get_lease-IsSound thousandths length_hash (full_cache (RedisLease thousandths))
      (args "shop" "" "ann" 3000000000) manager nothing_cached

get_lease-other_election_example :
    let C = full_cache (RedisLease thousandths) in
    let lm1 =
      (get_lease thousandths length_hash C (args "shop" "" ("-1" <> "ann") 3000000000) manager).0 in
    let l =
      (get_lease thousandths length_hash C (args ("shop" <> "-1") "" "ann" 3000000000) lm1).1 in
    (l.mutex.name ≡ lease_key config "shop" "") × (l.mutex.value ≡ "-1" <> "ann")
get_lease-other_election_example =
    get_lease-other_election thousandths length_hash (full_cache (RedisLease thousandths)) "shop"
      "-1" "ann" "" 3000000000 manager refl refl

abbrev clock : Clock
clock = record { checked = 2000; stored = 2001 }

abbrev world : World
world = λ k. standby_state

abbrev pub managed :
    Managed thousandths length_hash (full_cache (RedisLease thousandths)) text_store keys
managed = (manager, world)

get_state-IsFresh_example :
    let ((lm', w'), state) =
      get_state thousandths length_hash
        (full_cache (RedisLease thousandths))
        text_store
        keys
        clock
        (manager, world) in
    (state ≡ lm'.state.val) × (2000 ≤ lm'.state.last + 5000)
get_state-IsFresh_example =
    get_state-IsFresh thousandths length_hash (full_cache (RedisLease thousandths)) text_store keys
      clock manager world refl (omega arith) (omega arith)

abbrev late : Clock
late = record { checked = 9000; stored = 9001 }

reads_standby :
    refusal config
      (expired late.checked manager.state)
      standby_state
      (text_store.get world keys.state_key).1
    ≡ some standby_error
unfolding expired
reads_standby = refl

refused-untouched_example :
    let C = full_cache (RedisLease thousandths) in
    let a = args "shop" "" "ann" 3000000000 in
    let c = call_at 9002 9003 in
    let conns = three 9002 empty_table in
    let granted =
      grant_lease thousandths length_hash C text_store keys table_server late late
        ("", none)
        a
        2
        c
        conns
        managed in
    let revoked =
      revoke_lease thousandths length_hash C text_store keys table_server late a 2 c conns
        managed in
    let extended =
      extend_lease_of thousandths length_hash C text_store keys table_server late a 2 c conns
        managed in
    let handed =
      handover_lease_of thousandths length_hash C text_store keys table_server late a 2 c conns
        managed in
    let same = map (λ (x : Conn table_server). x.1) conns in
    let left =
      left_store thousandths length_hash C text_store keys true
        (expired late.checked manager.state)
        world in
    ((granted.0.1 ≡ same) × (granted.0.0.1 ≡ left) × (granted.1.1 ≡ some standby_error))
    × ((revoked.0.1 ≡ same) × (revoked.0.0.1 ≡ left) × (revoked.1 ≡ some standby_error))
    × ((extended.0.1 ≡ same) × (extended.0.0.1 ≡ left) × (extended.1 ≡ done (some standby_error)))
    × ((handed.0.1 ≡ same) × (handed.0.0.1 ≡ left) × (handed.1 ≡ done (some standby_error)))
refused-untouched_example =
    refused-untouched thousandths length_hash (full_cache (RedisLease thousandths)) text_store keys
      table_server standby_error late late ("", none) (args "shop" "" "ann" 3000000000) 2
      (call_at 9002 9003) (three 9002 empty_table) manager world reads_standby
