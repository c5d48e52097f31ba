-- ===== src/Driver/Start/Restarts.antt =====
-- Starts of drivers between other reads and writes of the agent's state in one store.
use election_agent.Prelude.{
  String, ◌≡◌, refl, ◌∙◌, true, not, ◌&&◌, Option, none, List, [], ◌∷◌, ◌==◌, if◌then◌else◌,
  is_some, Bool-cases, Bool, inl, inr, ap, sym, eq_iff,
}
use election_agent.Errors.{Error}
use election_agent.Config.{Config}
use election_agent.Agent.{
  unavailable_state, empty_state, normal_mode, valid_states, contains, Status,
}
use election_agent.Driver.AgentState.{
  KvStore, InfoKeys, get_agent_state, set_agent_mode, set_agent_status,
}
use election_agent.Driver.Start.{start_state}

module _ (K : KvStore) (keys : InfoKeys) where
  open K use {World, get, set, mset}

  -- What a read of the state shows.
  abbrev pub shows : World → String × Option Error
  shows w = (get w keys.state_key).1

  -- A store that answers: it shows the state that was written last, by itself or with the mode and
  -- the zone, and neither a read of it nor a write of the mode changes it; the mode can be written.
  pub record IsKept : Type 0 where
    pub written : (w : World) (v : String) → shows (set w keys.state_key v).0 ≡ (v, none)
    pub written_all :
        (w : World) (v mode zone : String)
        → shows
            (mset w
              ((keys.state_key, v) ∷ (keys.mode_key, mode) ∷ (keys.active_zone_key, zone) ∷ [])).0
          ≡ (v, none)
    pub kept-get : (w : World) → shows (get w keys.state_key).0 ≡ shows w
    pub kept-mode : (w : World) (v : String) → shows (set w keys.mode_key v).0 ≡ shows w
    pub mode_written : (w : World) (v : String) → (set w keys.mode_key v).1 ≡ none

-- What happens to the store: a driver starts, SetAgentStatus, GetAgentState.
pub data Event : Type 0 where
  starts : Event
  sets : Status → Event
  asks : Event

-- The text under the state key after an event: a read replaces "unavailable", which is never written.
abbrev pub text_after : Event → String → String
text_after starts text = if text == unavailable_state then empty_state else text
text_after asks text = if text == unavailable_state then empty_state else text
text_after (sets status) text = if status.state == unavailable_state then text else status.state

abbrev pub text_after_all : List Event → String → String
text_after_all [] text = text
text_after_all (e ∷ events) text = text_after_all events (text_after e text)

-- A text that makes a start fail.
abbrev pub fails_start : String → Bool
fails_start text = not (text == "") && not (contains valid_states text)

module _ (K : KvStore) (keys : InfoKeys) (cfg : Config) where
  open K use {World, get, set}

  abbrev pub after_event : Event → World → World
  after_event starts w = (start_state K keys cfg w).0
  after_event (sets status) w = (set_agent_status K keys status w).0
  after_event asks w = (get_agent_state K keys w).0

  abbrev pub after_events : List Event → World → World
  after_events [] w = w
  after_events (e ∷ events) w = after_events events (after_event e w)

  module _ (k : IsKept K keys) (on : cfg.zone_enable ≡ true) where
    asked-shows :
        (w : World) (text : String)
        → shows K keys w ≡ (text, none)
        → shows K keys (get_agent_state K keys w).0 ≡ (text_after asks text, none)
    unfolding get_agent_state
    asked-shows w text e = elim (Bool-cases (text == unavailable_state)) [
      | inl u ↦ rw (get_agent_state, e, u) (k.written _ empty_state)
      | inr u ↦ rw (get_agent_state, e, u) (k.kept-get w ∙ e)
    ]

    -- A start shows what GetAgentState does, and fails if that fails.
    started :
        (w : World) (text : String)
        → shows K keys w ≡ (text, none)
        → (shows K keys (start_state K keys cfg w).0 ≡ (text_after starts text, none))
          × (is_some (start_state K keys cfg w).1 ≡ fails_start text)
    unfolding start_state set_agent_mode get_agent_state
    started w text e = elim (Bool-cases (text == unavailable_state)) [
      | inl u ↦ (
        rw (start_state, on, get_agent_state, e, u)
            (k.kept-mode _ normal_mode ∙ k.written _ empty_state),
        rw (start_state, on, get_agent_state, e, u)
            (ap is_some (k.mode_written _ normal_mode)
              ∙ sym (ap fails_start ((eq_iff text unavailable_state).0 u))),
      )
      | inr u ↦ elim (Bool-cases (text == "")) [
        | inl d ↦ (
          rw (start_state, on, get_agent_state, e, u, d)
              (k.kept-mode _ normal_mode ∙ k.kept-get w ∙ e),
          rw (start_state, on, get_agent_state, e, u, d)
              (ap is_some (k.mode_written _ normal_mode)),
        )
        | inr d ↦ elim (Bool-cases (contains valid_states text)) [
          | inl v ↦ (
            rw (start_state, on, get_agent_state, e, u, d, v, u)
                (k.kept-mode _ normal_mode ∙ k.kept-get w ∙ e),
            rw (start_state, on, get_agent_state, e, u, d, v, u)
                (ap is_some (k.mode_written _ normal_mode)),
          )
          | inr v ↦ (
            rw (start_state, on, get_agent_state, e, u, d, v) (k.kept-get w ∙ e),
            rw (start_state, on, get_agent_state, e, u, d, v) refl,
          )
        ]
      ]
    ]

    set-shows :
        (status : Status) (w : World) (text : String)
        → shows K keys w ≡ (text, none)
        → shows K keys (set_agent_status K keys status w).0 ≡ (text_after (sets status) text, none)
    unfolding set_agent_status
    set-shows status w text e = elim (Bool-cases (status.state == unavailable_state)) [
      | inl u ↦ rw (set_agent_status, u) e
      | inr u ↦
          rw (set_agent_status, u) (k.written_all w status.state status.mode status.active_zone)
    ]

    after_events-shows :
        (events : List Event) (w : World) (text : String)
        → shows K keys w ≡ (text, none)
        → shows K keys (after_events events w) ≡ (text_after_all events text, none)
    after_events-shows [] w text e = e
    after_events-shows (starts ∷ events) w text e =
        after_events-shows events _ _ (started w text e).0
    after_events-shows (asks ∷ events) w text e =
        after_events-shows events _ _ (asked-shows w text e)
    after_events-shows (sets status ∷ events) w text e =
        after_events-shows events _ _ (set-shows status w text e)

  -- With the zone feature on, in a store that answers and shows the state written last: after any
  -- sequence of starts, GetAgentState and SetAgentStatus, a start returns an error exactly if the
  -- text that the sequence leaves under the state key is neither empty nor a valid state. A start
  -- and GetAgentState leave "empty" for "unavailable", SetAgentStatus leaves its state unless that
  -- is "unavailable", and nothing else changes the text.
  pub start_fails_iff :
      IsKept K keys
      → cfg.zone_enable ≡ true
      → (events : List Event) (w : World) (text : String) → shows K keys w ≡ (text, none)
      → is_some (start_state K keys cfg (after_events events w)).1
        ≡ fails_start (text_after_all events text)
  start_fails_iff k on events w text e =
      (started k on (after_events events w) _ (after_events-shows k on events w text e)).1
