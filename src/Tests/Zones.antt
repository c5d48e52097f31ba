-- ===== src/Tests/Zones.antt =====
-- Zones, the state cache, the keys and the primary setting.
use election_agent.Prelude.{
  ℕ, String, ◌≡◌, refl, ◌≢◌, inl, Bool, true, false, none, [], ◌∷◌, arith, eq_iff,
}
use election_agent.Agent.{
  active_state, standby_state, unavailable_state, normal_mode, orphan_mode, flip_state, State,
  Status, initial_local_status,
}
use election_agent.Lease.{RedisLease}
use election_agent.Lease.Cache.{TwoQueueCache}
use election_agent.Zone.Manager.{Process, set_process_status}
use election_agent.Tests.Fixtures.{thousandths}
use election_agent.Tests.Stores.{text_store, keys, full_cache}
use election_agent.Tests.Leases.{length_hash, managed}
use election_agent.Zone.{ZoneStatus, ZoneManager, decide}
use election_agent.Zone.Decide.{decide-one_active}
use election_agent.Zone.Orphan.{Seen, HasLocal, rounds, rounds_opposite}
use election_agent.Driver.Modes.{created, RedisKvDriver, new_driver, set_operation_mode}
use election_agent.Driver.Modes.Primary.{one_each, orphan_panics}

abbrev status_of : String → Bool → ZoneStatus
status_of state connected = record {
  active_zone = "east";
  mode = normal_mode;
  new_mode = "";
  state = state;
  new_state = "";
  zc_connected = connected;
  peer_connected = false;
}

abbrev east : String
east = "east"

abbrev west : String
west = "west"

east-ne-west : east ≢ west
east-ne-west e = ground (arith, eq_iff east west)

abbrev a : String
a = "a"

a-ne-empty : a ≢ ""
a-ne-empty e = ground (arith, eq_iff a "")

standby_is_flipped : standby_state ≡ flip_state active_state
unfolding flip_state
standby_is_flipped = refl

east_active : (decide east (status_of standby_state true)).new_state ≡ active_state
unfolding decide
east_active = refl

normal-ne-orphan : normal_mode ≢ orphan_mode
normal-ne-orphan e = ground (arith, eq_iff normal_mode orphan_mode)

standby-ne-unavailable : standby_state ≢ unavailable_state
standby-ne-unavailable e = ground (arith, eq_iff standby_state unavailable_state)

abbrev cache_of_all : TwoQueueCache (RedisLease thousandths)
cache_of_all = full_cache (RedisLease thousandths)

abbrev Agent : Type 0
Agent = Process thousandths length_hash cache_of_all text_store keys

abbrev agent : String → Agent
agent state = record {
  local = record initial_local_status { state = state; mode = normal_mode };
  managed = managed;
}

abbrev agent_manager : ZoneManager
agent_manager = record {
  World = Agent;
  set_operation_mode = λ mode p. p;
  set_agent_status = λ status p.
      set_process_status thousandths length_hash cache_of_all text_store keys status 2000 p;
}

local-set :
    (status : Status) (p : Agent) → (agent_manager.set_agent_status status p).0.local ≡ status
unfolding set_process_status
local-set status p = refl

abbrev has_local : HasLocal agent_manager
has_local = record { local = λ p. p.local; local-set_agent_status = local-set }

abbrev seen : Seen
seen = record {
  kv = record initial_local_status { state = active_state };
  zone = "east";
  raw = false;
  peers = 0;
}

rounds_opposite_example :
    (rounds agent_manager has_local west (seen ∷ seen ∷ []) (agent standby_state)).local.state
    ≡ flip_state (
        (rounds agent_manager has_local east
          (seen ∷ seen ∷ seen ∷ [])
          (agent active_state)).local.state)
rounds_opposite_example =
    rounds_opposite agent_manager agent_manager has_local has_local east west seen seen
      (seen ∷ seen ∷ []) (seen ∷ []) (agent active_state) (agent standby_state)
      (refl, (refl, (refl, tt))) (refl, (refl, tt)) normal-ne-orphan normal-ne-orphan (inl refl)
      standby_is_flipped

decide-one_active_example :
    ((status_of standby_state true).active_zone ≡ east)
    × ((decide west (status_of standby_state true)).new_state ≡ standby_state)
decide-one_active_example =
    decide-one_active east west (status_of standby_state true) (status_of standby_state true)
      east-ne-west refl standby-ne-unavailable standby-ne-unavailable refl refl east_active

abbrev cache : State
cache = record { val = active_state; last = 10; ttl = 5 }

orphan_panics_example :
    (d : RedisKvDriver ℕ) × (new_driver ℕ [] 1 (one_each ℕ (7 ∷ 8 ∷ 9 ∷ [])) ≡ created d)
    × (set_operation_mode ℕ [] orphan_mode d ≡ none)
orphan_panics_example = orphan_panics ℕ [] 1 (7 ∷ 8 ∷ 9 ∷ []) (omega arith) (omega arith)
