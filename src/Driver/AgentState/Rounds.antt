-- ===== src/Driver/AgentState/Rounds.antt =====
-- What the driver reads after its own writes.
use election_agent.Prelude.{
  String, ◌≡◌, refl, ap, ◌∙◌, inl, inr, true, false, none, some, [], ◌∷◌, arith, ◌==◌, eq_iff,
  Bool-cases, ◌||◌,
}
use mathlib.Core.Path.{subst}
use election_agent.Config.{Config}
use election_agent.Agent.{
  active_state, standby_state, unavailable_state, empty_state, valid_states, valid_modes, contains,
  Status,
}
use election_agent.Driver.AgentState.{
  KvStore, InfoKeys, invalid_state, status_of, get_agent_state, get_agent_status, set_agent_status,
}

abbrev Facts : String → Type 0
Facts state =
    ((state == unavailable_state) ≡ false)
    × ((state == "") ≡ false)
    × ((contains valid_states state || state == empty_state) ≡ true)

written-Facts :
    (state : String)
    → contains (active_state ∷ standby_state ∷ empty_state ∷ []) state ≡ true
    → Facts state
written-Facts state h = elim (Bool-cases (active_state == state)) [
  | inl t ↦ subst Facts ((eq_iff active_state state).0 t) (refl, refl, refl)
  | inr t ↦ elim (Bool-cases (standby_state == state)) [
    | inl s ↦ subst Facts ((eq_iff standby_state state).0 s) (refl, refl, refl)
    | inr s ↦ subst Facts ((eq_iff empty_state state).0 (ground arith)) (refl, refl, refl)
  ]
]

mode_fact : (mode : String) → contains valid_modes mode ≡ true → (mode == "") ≡ false
mode_fact mode h = elim (Bool-cases (mode == "")) [
  | inl e ↦ absurd (ground (arith, ap (contains valid_modes) ((eq_iff mode "").0 e)))
  | inr e ↦ e
]

module _ (K : KvStore) (keys : InfoKeys) where
  open K use {World, get, set, mget, mset}

  -- In a store that returns what was written: a stored "unavailable" is replaced by "empty" and
  -- reported as "empty", and the next GetAgentState rejects that "empty" as invalid.
  pub empty_state_rejected :
      (w : World)
      → ((w1 : World)
          → (get (set w1 keys.state_key empty_state).0 keys.state_key).1 ≡ (empty_state, none))
      → (get w keys.state_key).1 ≡ (unavailable_state, none)
      → let (w1, first) = get_agent_state K keys w in
        (first ≡ (empty_state, none))
        × ((get_agent_state K keys w1).1 ≡ (empty_state, some invalid_state))
  unfolding get_agent_state
  empty_state_rejected w back old = (rw old refl, rw old (rw (back (get w keys.state_key).0) refl))

  status_of-written :
      (state mode zone : String)
      → (contains valid_states state || state == empty_state) ≡ true
      → (state == unavailable_state) ≡ false
      → (state == "") ≡ false
      → (mode == "") ≡ false
      → contains valid_modes mode ≡ true
      → status_of (state ∷ mode ∷ zone ∷ [], none) ≡ (
        record {
          state = state;
          mode = mode;
          active_zone = zone;
          zc_connected = false;
          peer_connected = false;
        },
        none,
      )
  status_of-written state mode zone s u e m v = rw (u, e, m, v) (ground arith)

  -- With the zone feature on, in a store that returns to MGET what MSET wrote: for the states
  -- "active", "standby" and "empty" and each valid mode, what SetAgentStatus writes GetAgentStatus
  -- reads, with the two connection flags false.
  pub get_agent_status-set_agent_status :
      (cfg : Config) (status : Status) (w : World)
      → ((w1 : World) (a b c : String)
          → (mget
              (mset w1
                ((keys.state_key, a) ∷ (keys.mode_key, b) ∷ (keys.active_zone_key, c) ∷ [])).0
              (keys.state_key ∷ keys.mode_key ∷ keys.active_zone_key ∷ [])).1
            ≡ (a ∷ b ∷ c ∷ [], none))
      → cfg.zone_enable ≡ true
      → contains (active_state ∷ standby_state ∷ empty_state ∷ []) status.state ≡ true
      → contains valid_modes status.mode ≡ true
      → (get_agent_status K keys cfg (set_agent_status K keys status w).0).1
        ≡ (record status { zc_connected = false; peer_connected = false }, none)
  unfolding get_agent_status set_agent_status
  get_agent_status-set_agent_status cfg status w back on s m =
      let facts = written-Facts status.state s in
      rw (on, facts.0)
        (ap status_of (back w status.state status.mode status.active_zone)
          ∙ status_of-written status.state status.mode status.active_zone facts.2 facts.0 facts.1
              (mode_fact status.mode m) m)
