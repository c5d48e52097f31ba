-- ===== src/Driver/Start.antt =====
-- NewRedisKVDriver of internal/driver/redis_driver.go as a whole: the connections and the lock, and
-- then what it reads and writes through them.
pub mod Restarts
use election_agent.Prelude.{ℕ, false, not, Option, none, some, List, ◌==◌, if◌then◌else◌, is_some}
use election_agent.Errors.{Error, Multierror}
use election_agent.Config.{Config}
use election_agent.Agent.{active_state, unavailable_state, normal_mode, Status}
use election_agent.Redlock.Shards.{ConnGroup}
use election_agent.Redlock.Store.{Clients, Turn}
use election_agent.Driver.AgentState.{
  KvStore, InfoKeys, get_agent_state, set_agent_mode, set_agent_status,
}
use election_agent.Driver.Modes.{Created, created, invalid, index_panic, RedisKvDriver, new_driver}
use election_agent.Driver.Store.{quorum_store}

abbrev pub started_status : Status
started_status = record {
  state = active_state;
  mode = normal_mode;
  active_zone = "";
  zc_connected = false;
  peer_connected = false;
}

-- The error that NewRedisKVDriver returns with the driver, and what it leaves in the store.
unfoldable pub start_state : (K : KvStore) → InfoKeys → Config → K.World → K.World × Option Error
start_state K keys cfg w =
    let (w1, (state, err)) = get_agent_state K keys w in
    if not cfg.zone_enable
    then ((set_agent_status K keys started_status w).0, none)
    else if is_some err
    then (w1, err)
    else if state == unavailable_state
    then (w1, none)
    else set_agent_mode K keys normal_mode w1

module _ (K : Clients) ⦃lib : Multierror⦄ where
  open K use {Conn, World}

  -- NewRedisKVDriver, on the connections of each URL; `turns` are those of its calls of the store.
  unfoldable pub new_redis_kv_driver :
      (ℕ → Turn)
      → List (ConnGroup Conn → ConnGroup Conn)
      → ℕ
      → List (List Conn)
      → InfoKeys
      → Config
      → World
      → Created (RedisKvDriver Conn × (Option (World × ℕ) × Option Error))
  unfolding start_state
  new_redis_kv_driver turns shuffles primary urls keys cfg w =
      elim (new_driver Conn shuffles primary urls) [
        | invalid m ↦ invalid m
        | index_panic ↦ index_panic
        | created d ↦ created (d, start_state (quorum_store K turns d.rlock) keys cfg (some (w, 0)))
      ]
