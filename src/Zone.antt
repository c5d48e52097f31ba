-- ===== src/Zone.antt =====
-- internal/zone/zone_mgr.go: the zone manager, which watches the zone coordinator and the peers
-- and decides the agent's state and mode.
pub mod Decide
pub mod Orphan
pub mod Watch
pub mod Coordinator
pub mod Manager
use election_agent.Prelude.{String, Bool, not, Option, ◌==◌, if◌then◌else◌, ◌||◌}
use election_agent.Errors.{Error}
use election_agent.Agent.{
  active_state, standby_state, unavailable_state, empty_state, normal_mode, orphan_mode, Status,
  flip_state,
}

-- The struct `zoneStatus`.
pub record ZoneStatus : Type 0 where
  pub active_zone : String
  pub mode : String
  pub new_mode : String
  pub state : String
  pub new_state : String
  pub zc_connected : Bool
  pub peer_connected : Bool

-- What Check calls of the interface ZoneManager, on a state of the caller's choice.
pub record ZoneManager : Type 1 where
  pub World : Type 0
  pub set_operation_mode : String → World → World
  pub set_agent_status : Status → World → World × Option Error

-- The new state while the coordinator or a peer can be reached.
connected_state : String → ZoneStatus → String
connected_state zone status =
    if status.state == unavailable_state
    then unavailable_state
    else if zone == status.active_zone
    then active_state
    else standby_state

-- The new state in orphan mode.
orphan_state : ZoneStatus → String
unfolding flip_state
orphan_state status =
    if status.state == unavailable_state
    then unavailable_state
    else if status.state == empty_state
    then active_state
    else if not (status.mode == orphan_mode)
    then flip_state status.state
    else status.state

unfoldable pub decide : String → ZoneStatus → ZoneStatus
unfolding connected_state orphan_state
decide zone status =
    if status.zc_connected || status.peer_connected
    then record status { new_mode = normal_mode; new_state = connected_state zone status }
    else record status { new_mode = orphan_mode; new_state = orphan_state status }

abbrev pub agent_status : ZoneStatus → Status
agent_status status = record {
  state = status.new_state;
  mode = status.new_mode;
  active_zone = status.active_zone;
  zc_connected = status.zc_connected;
  peer_connected = status.peer_connected;
}

-- Check; a failure to update the agent's status is only logged
unfoldable pub check : (Z : ZoneManager) → String → ZoneStatus → Z.World → ZoneStatus × Z.World
unfolding decide
check Z zone status w =
    let status' = decide zone status in
    let w' = Z.set_operation_mode status'.new_mode w in
    (status', (Z.set_agent_status (agent_status status') w').0)
