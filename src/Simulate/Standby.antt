-- ===== src/Simulate/Standby.antt =====
-- What the simulation makes of the answers of a standby agent.
use election_agent.Prelude.{
  ℕ, String, ◌≡◌, refl, ap, ◌∙◌, inl, inr, Bool, true, false, Option, none, some, List, ◌==◌,
  eq_iff, arith, if◌then◌else◌, Bool-cases,
}
use mathlib.Core.Path.{subst}
use election_agent.Agent.{active_state, standby_state, unavailable_state, valid_states, contains}
use election_agent.Api.Grpc.{
  Code, CampaignResult, LeaseService, Request, campaign, extend_elected_term, handover,
}
use election_agent.Api.Grpc.Replies.{retried}
use election_agent.Api.Grpc.Standby.{IsStandby, standby_answers}
use election_agent.Simulate.{
  CallCode, replied, Answer, leader_extend_error, candidate_camp_error, Candidate, expected,
  handover_action, extend_action, campaign_action,
}

abbrev on_wire : Option Code → Option CallCode
on_wire none = none
on_wire (some code) = some (replied code)

-- What a client of the service gets.
abbrev pub answered : Bool × Option Code → Answer
answered (value, code) = (value, on_wire code)

abbrev pub elected : CampaignResult × Option Code → Answer
elected (result, code) = (result.elected, on_wire code)

-- What each step makes of a negative answer without an error.
abbrev Negative : String → Type 0
Negative s =
    (expected s (false, none) ≡ (s == standby_state))
    × ((j : ℕ) (fin : Bool) (peers : List Candidate)
        → campaign_action s fin j (false, none) peers
          ≡ ((peers, 0), if s == unavailable_state then some candidate_camp_error else none))

valid-Negative : (s : String) → contains valid_states s ≡ true → Negative s
unfolding campaign_action
valid-Negative s h = elim (Bool-cases (active_state == s)) [
  | inl a ↦ subst Negative ((eq_iff active_state s).0 a) (refl, λ j fin peers. refl)
  | inr a ↦ elim (Bool-cases (standby_state == s)) [
    | inl b ↦ subst Negative ((eq_iff standby_state s).0 b) (refl, λ j fin peers. refl)
    | inr b ↦
        subst Negative ((eq_iff unavailable_state s).0 (ground arith)) (refl, λ j fin peers. refl)
  ]
]

module _ (S : LeaseService) where
  open S use {World}

  -- While every operation of the lease manager fails as standby, and for valid requests and a valid
  -- simulated state: the simulation takes the answer to Handover as right exactly if the simulated
  -- state is "standby", reports the answer to a leader's ExtendElectedTerm unless it is, reports
  -- the answer to a candidate's Campaign exactly if it is "unavailable", and changes no leader.
  pub standby_simulated :
      (standby : IsStandby S) (r : Request) (w : World) (s : String) (j : ℕ) (fin : Bool)
      (peers : List Candidate)
      → retried r ≡ true
      → contains valid_states s ≡ true
      → (handover_action s (answered (handover S r w).1) ≡ (s == standby_state))
        × (extend_action s fin (answered (extend_elected_term S r w).1)
            ≡ (if s == standby_state then none else some leader_extend_error))
        × (campaign_action s fin j (elected (campaign S r w).1) peers
            ≡ ((peers, 0), if s == unavailable_state then some candidate_camp_error else none))
  unfolding handover_action extend_action
  standby_simulated standby r w s j fin peers h v =
      let (no_leader, no_code, extended, _, handed, _, _) = standby_answers S standby r w h in
      let (negative, campaigned) = valid-Negative s v in
      let e : elected (campaign S r w).1 ≡ (false, none) = rw (no_leader, no_code) refl in
      (
        ap (λ a. expected s (answered a)) handed ∙ negative,
        ap (λ a. extend_action s fin (answered a)) extended
            ∙ ap (λ b. if b then none else some leader_extend_error) negative,
        ap (λ a. campaign_action s fin j a peers) e ∙ campaigned j fin peers,
      )
