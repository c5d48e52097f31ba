-- ===== src/Driver/AgentState/States.antt =====
-- Which states the driver reports.
use election_agent.Prelude.{
  String, ◌≡◌, ap, ◌↔◌, ◌⊎◌, inl, inr, true, false, none, arith, ◌==◌, eq_iff, is_some, Bool-cases,
  ◌||◌,
}
use election_agent.Agent.{unavailable_state, valid_states, contains}
use election_agent.Driver.AgentState.{KvStore, InfoKeys, state_result, get_agent_state}

contains-unavailable :
    (text : String) → (text == unavailable_state) ≡ true → contains valid_states text ≡ true
contains-unavailable text h = ap (contains valid_states) ((eq_iff text unavailable_state).0 h)

state_result_lem :
    (text : String)
    → (text == unavailable_state) ≡ false
    → let (state, failure) = state_result text in
      ((failure ≡ none) ↔ ((false ≡ true) ⊎ ((text == "" || contains valid_states text) ≡ true)))
      × (failure ≡ none → (state == unavailable_state) ≡ false)
state_result_lem text u = elim (Bool-cases (text == "")) [
  | inl e ↦ rw e (ground arith)
  | inr e ↦ elim (Bool-cases (contains valid_states text)) [
    | inl c ↦ rw (e, c) (ground arith)
    | inr c ↦ rw (e, c) (ground arith)
  ]
]

module _ (K : KvStore) (keys : InfoKeys) where
  open K use {World, get, set}

  -- GetAgentState succeeds exactly when the read failed or its text is empty or a valid state; and
  -- when it succeeds it reports "unavailable" exactly when the read failed.
  pub get_agent_state_lem :
      (w : World)
      → let (w1, (text, err)) = get w keys.state_key in
        let (w2, (state, failure)) = get_agent_state K keys w in
        ((failure ≡ none)
          ↔ ((is_some err ≡ true) ⊎ ((text == "" || contains valid_states text) ≡ true)))
        × (failure ≡ none → (state == unavailable_state) ≡ is_some err)
  unfolding get_agent_state
  get_agent_state_lem w =
      let text = (get w keys.state_key).1.0 in
      elim (Bool-cases (is_some (get w keys.state_key).1.1)) [
        | inl e ↦ rw e (ground arith)
        | inr e ↦ elim (Bool-cases (text == unavailable_state)) [
          | inl u ↦ rw (e, u) (ground (arith, contains-unavailable text u))
          | inr u ↦ rw (e, u) (state_result_lem text u)
        ]
      ]
