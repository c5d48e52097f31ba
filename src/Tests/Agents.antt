-- ===== src/Tests/Agents.antt =====
-- The agent's state in the store.
use election_agent.Prelude.{◌≡◌, refl, true, false, none, [], ◌∷◌, is_some}
use election_agent.Agent.{active_state, unavailable_state, normal_mode, Status}
use election_agent.Driver.AgentState.{get_agent_status, set_agent_status}
use election_agent.Driver.AgentState.Rounds.{get_agent_status-set_agent_status}
use election_agent.Driver.Start.{start_state}
use election_agent.Driver.Start.Restarts.{
  IsKept, starts, sets, asks, text_after_all, fails_start, after_events, start_fails_iff,
}
use election_agent.Tests.Fixtures.{config}
use election_agent.Tests.Stores.{World, text_store, keys}

abbrev unavailable_world : World
unavailable_world = λ k. unavailable_state

abbrev status : Status
status = record {
  state = active_state;
  mode = normal_mode;
  active_zone = "east";
  zc_connected = true;
  peer_connected = true;
}

text_store-IsKept : IsKept text_store keys
text_store-IsKept = record {
  written = λ w v. refl;
  written_all = λ w v mode zone. refl;
  kept-get = λ w. refl;
  kept-mode = λ w v. refl;
  mode_written = λ w v. refl;
}

start_fails_iff_example :
    is_some
      (start_state text_store keys config (
        after_events text_store keys config (sets status ∷ starts ∷ asks ∷ []) unavailable_world)).1
    ≡ false
start_fails_iff_example =
    start_fails_iff text_store keys config text_store-IsKept refl (sets status ∷ starts ∷ asks ∷ [])
      unavailable_world unavailable_state refl

fails_again : fails_start (text_after_all (starts ∷ []) unavailable_state) ≡ true
fails_again = refl

get_agent_status-set_agent_status_example :
    (get_agent_status text_store keys config
      (set_agent_status text_store keys status unavailable_world).0).1
    ≡ (record status { zc_connected = false; peer_connected = false }, none)
get_agent_status-set_agent_status_example =
    get_agent_status-set_agent_status text_store keys config status unavailable_world
      (λ w a b c. refl) refl refl refl
