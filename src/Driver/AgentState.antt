-- ===== src/Driver/AgentState.antt =====
-- The agent's state, mode and active zone in the store: GetActiveZone, GetAgentState,
-- GetAgentStatus, SetAgentMode and SetAgentStatus of internal/driver/redis_driver.go, over the
-- reads and writes of the quorum store.
pub mod States
pub mod Rounds
use election_agent.Prelude.{
  String, false, not, ◌&&◌, Option, none, some, List, [], ◌∷◌, ◌==◌, if◌then◌else◌, is_some, ◌||◌,
}
use election_agent.Errors.{Error, errorf}
use election_agent.Config.{Config}
use election_agent.Agent.{
  active_state, standby_state, unavailable_state, empty_state, valid_states, normal_mode,
  unknown_mode, valid_modes, contains, Status,
}

-- What the driver calls of RedLock, on a store of the caller's choice. A count that goes with a
-- write is dropped, since the driver drops it.
pub record KvStore : Type 1 where
  pub World : Type 0
  pub get : World → String → World × (String × Option Error)
  pub set : World → String → String → World × Option Error
  pub mget : World → List String → World × (List String × Option Error)
  pub mset : World → List (String × String) → World × Option Error

-- The keys that NewRedisKVDriver fixes, by AgentInfoKey.
pub record InfoKeys : Type 0 where
  pub state_key : String
  pub mode_key : String
  pub active_zone_key : String

abbrev pub invalid_state : Error
invalid_state = errorf "The retrieved agent state is invalid" none

abbrev pub invalid_mode : Error
invalid_mode = errorf "The retrieved agent mode is invalid" none

-- What GetAgentState makes of a text that it read and that is not "unavailable".
abbrev pub state_result : String → String × Option Error
state_result state =
    if state == ""
    then (empty_state, none)
    else if not (contains valid_states state)
    then (state, some invalid_state)
    else (state, none)

-- The three replies of GetAgentStatus.
abbrev pub read_state : String → String
read_state state = if state == unavailable_state || state == "" then empty_state else state

abbrev pub read_mode : String → String
read_mode mode = if mode == "" then unknown_mode else mode

abbrev pub unavailable_status : Status
unavailable_status = record {
  state = unavailable_state;
  mode = unknown_mode;
  active_zone = "";
  zc_connected = false;
  peer_connected = false;
}

abbrev pub status_result : Status → Status × Option Error
status_result status =
    if not (contains valid_states status.state) && not (status.state == empty_state)
    then (status, some invalid_state)
    else if not (contains valid_modes status.mode)
    then (status, some invalid_mode)
    else (status, none)

abbrev pub status_of : List String × Option Error → Status × Option Error
status_of (state ∷ mode ∷ zone ∷ [], none) = status_result (record unavailable_status {
  state = read_state state;
  mode = read_mode mode;
  active_zone = zone;
})
status_of (_, _) = (unavailable_status, none)

module _ (K : KvStore) (keys : InfoKeys) where
  open K use {World, get, set, mget, mset}

  -- GetActiveZone
  unfoldable pub get_active_zone : World → World × (String × Option Error)
  get_active_zone w = get w keys.active_zone_key

  unfoldable pub get_agent_state : World → World × (String × Option Error)
  get_agent_state w =
      let (w1, (state, err)) = get w keys.state_key in
      if is_some err
      then (w1, (unavailable_state, none))
      else if state == unavailable_state
      then ((set w1 keys.state_key empty_state).0, (empty_state, none))
      else (w1, state_result state)

  unfoldable pub set_agent_mode : String → World → World × Option Error
  set_agent_mode mode w = set w keys.mode_key mode

  unfoldable pub get_agent_status : Config → World → World × (Status × Option Error)
  get_agent_status cfg w =
      if not cfg.zone_enable
      then (
        w,
        (
          record {
            state = cfg.default_state;
            mode = normal_mode;
            active_zone = "";
            zc_connected = false;
            peer_connected = false;
          },
          none,
        ),
      )
      else let (w1, replies) =
          mget w (keys.state_key ∷ keys.mode_key ∷ keys.active_zone_key ∷ []) in
        (w1, status_of replies)

  unfoldable pub set_agent_status : Status → World → World × Option Error
  set_agent_status status w =
      if status.state == unavailable_state
      then (w, none)
      else mset w (
          (keys.state_key, status.state)
          ∷ (keys.mode_key, status.mode)
          ∷ (keys.active_zone_key, status.active_zone)
          ∷ [])
