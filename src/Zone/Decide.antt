-- ===== src/Zone/Decide.antt =====
-- What the zone manager decides.
use election_agent.Prelude.{String, ◌≡◌, ◌≢◌, ◌↔◌, true, false, arith, eq_iff, ◌||◌}
use election_agent.Agent.{
  active_state, standby_state, unavailable_state, normal_mode, orphan_mode, flip_state,
}
use election_agent.Zone.{ZoneStatus, decide}

-- An agent is in orphan mode exactly when it reaches neither the coordinator nor its peers.
pub decide-orphan_iff :
    (zone : String) (s : ZoneStatus)
    → ((decide zone s).new_mode ≡ orphan_mode)
      ↔ ((s.zc_connected ≡ false) × (s.peer_connected ≡ false))
unfolding decide
decide-orphan_iff zone s = (
  λ h. ground (arith, eq_iff normal_mode orphan_mode),
  λ h. ground (arith, eq_iff normal_mode orphan_mode),
)

-- Of two connected agents of different zones that are not unavailable and see the same active zone,
-- if one becomes active then the active zone is its own and the other becomes standby.
pub decide-one_active :
    (zone other : String) (s t : ZoneStatus)
    → zone ≢ other
    → s.active_zone ≡ t.active_zone
    → s.state ≢ unavailable_state
    → t.state ≢ unavailable_state
    → (s.zc_connected || s.peer_connected) ≡ true
    → (t.zc_connected || t.peer_connected) ≡ true
    → ((decide zone s).new_state ≡ active_state)
    → (s.active_zone ≡ zone) × ((decide other t).new_state ≡ standby_state)
unfolding decide
decide-one_active zone other s t ne same a b c d h = ground (
  arith,
  eq_iff zone s.active_zone,
  eq_iff other t.active_zone,
  eq_iff s.state unavailable_state,
  eq_iff t.state unavailable_state,
  eq_iff unavailable_state active_state,
  eq_iff standby_state active_state,
)

-- The decided state is "unavailable" exactly when the state before is.
pub decide-unavailable_iff :
    (zone : String) (s : ZoneStatus)
    → ((decide zone s).new_state ≡ unavailable_state) ↔ (s.state ≡ unavailable_state)
unfolding decide flip_state
decide-unavailable_iff zone s = (
  λ h. ground (
    arith,
    eq_iff s.state unavailable_state,
    eq_iff active_state unavailable_state,
    eq_iff standby_state unavailable_state,
  ),
  λ h. ground (arith, eq_iff s.state unavailable_state),
)
