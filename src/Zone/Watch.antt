-- ===== src/Zone/Watch.antt =====
-- What zoneManager of internal/zone/zone_mgr.go collects before it decides: the active zone from
-- the coordinator, the peers, and the agent's status. Times are in nanoseconds.
pub mod Grace
use election_agent.Prelude.{
  ℕ, ◌-◌, String, Bool, true, false, not, Option, none, some, ◌==◌, ltb, eqb, if◌then◌else◌, ◌||◌,
}
use election_agent.Agent.{unavailable_state, unknown_mode, empty_state, State, Status, store}
use election_agent.Zone.{ZoneStatus, ZoneManager, check}

-- The fields of zoneManager that change.
pub record Watcher : Type 0 where
  pub active_zone : String
  pub zc_last_updated : ℕ
  pub peer_connected : Bool
  pub peer_last_updated : ℕ
  pub reconnected : Bool

-- ZoneConfig's times to live.
pub record Ttls : Type 0 where
  pub coordinator_ttl : ℕ
  pub peer_ttl : ℕ

-- The active zone kept in memory, or else what the driver's GetActiveZone returns.
abbrev pub remembered : String → Watcher → Watcher
remembered stored z = if z.active_zone == "" then record z { active_zone = stored } else z

-- checkActiveZone: `answer` is the zone that getActiveZone received, if it did, and `stored` what
-- the driver's GetActiveZone returns. The results are the zone, whether the coordinator counts as
-- connected, and whether it answered.
unfoldable pub check_active_zone :
    Ttls → ℕ → Option String → String → Watcher → Watcher × (String × Bool × Bool)
check_active_zone ttls now (some zone) stored z =
    (record z { active_zone = zone; zc_last_updated = now }, (zone, true, true))
check_active_zone ttls now none stored z =
    let z' = remembered stored z in
    (z', (z'.active_zone, ltb (now - z'.zc_last_updated) ttls.coordinator_ttl, false))

-- checkPeerConnected: whether getPeerStatus failed, and how many statuses it returned; the clients
-- that are built again are not in the state
unfoldable pub check_peer_connected : Ttls → ℕ → Bool → ℕ → Watcher → Watcher × (Bool × ℕ)
check_peer_connected ttls now failed count z =
    if failed || eqb count 0
    then if ltb (now - z.peer_last_updated) ttls.peer_ttl
      then (z, (z.peer_connected, count))
      else (record z { peer_connected = false }, (false, count))
    else (record z { peer_last_updated = now; peer_connected = true }, (true, count))

-- checkDisconectedBackends, where a negative difference is 0
abbrev pub disconnected_backends : ℕ → ℕ → ℕ
disconnected_backends count alive = count - alive

-- The test of RebuildBackend; the flag says whether RebuildConnections is called.
unfoldable pub rebuild_once : Bool → ℕ → Watcher → Watcher × Bool
rebuild_once enabled disconnected z =
    if not enabled
    then (z, false)
    else if eqb disconnected 0
    then (record z { reconnected = false }, false)
    else if z.reconnected
    then (z, false)
    else (record z { reconnected = true }, true)

-- The state in the store, unless both it and the local one are available.
abbrev pub watched_state : Status → Status → String
watched_state kv local =
    if kv.state == unavailable_state || local.state == unavailable_state
    then kv.state
    else local.state

-- getZoneStatus, on the results of the three goroutines, which touch different fields
unfoldable pub get_zone_status : Status → Status → String × Bool × Bool → Bool × ℕ → ZoneStatus
get_zone_status kv local (zone, zc_connected, raw) (peer_connected, count) = record {
  active_zone = zone;
  mode = local.mode;
  new_mode = "";
  state = watched_state kv local;
  new_state = "";
  zc_connected = zc_connected;
  peer_connected = peer_connected;
}

-- checkStatus, on what GetAgentStatus returns, the local status, and the results of checkActiveZone
-- and checkPeerConnected
unfoldable pub check_status :
    (Z : ZoneManager)
    → String
    → Status
    → Status
    → String × Bool × Bool
    → Bool × ℕ
    → Z.World
    → ZoneStatus × Z.World
unfolding get_zone_status
check_status Z zone kv local coordinator peers w =
    check Z zone (get_zone_status kv local coordinator peers) w
