-- ===== src/Tests/Simulations.antt =====
-- The simulation against a standby agent, and a candidate that takes over.
use election_agent.Prelude.{
  ℕ, ◌≡◌, refl, true, false, Option, none, some, List, [], ◌∷◌, ◌==◌, arith, if◌then◌else◌, length,
}
use election_agent.Agent.{active_state, standby_state, unavailable_state}
use election_agent.Api.Grpc.{campaign, extend_elected_term, handover}
use election_agent.Simulate.{
  Answer, Failure, leader_extend_error, candidate_camp_error, Candidate, handover_action,
  extend_action, campaign_action, peer_campaign, sim_delay,
}
use election_agent.Simulate.Standby.{answered, elected, standby_simulated}
use election_agent.Simulate.Leaders.{OneLeader, peer_campaign-OneLeader}
use election_agent.Tests.Api.{idle, request, idle-IsStandby, request_passes}

abbrev candidate : Candidate
candidate = record { leader = false; handovered = false }

abbrev leader : Candidate
leader = record { leader = true; handovered = true }

abbrev peers : List Candidate
peers = candidate ∷ leader ∷ []

standby_simulated_example :
    (handover_action active_state (answered (handover idle request 0).1)
      ≡ (active_state == standby_state))
    × (extend_action active_state false (answered (extend_elected_term idle request 0).1)
        ≡ (if active_state == standby_state then none else some leader_extend_error))
    × (campaign_action active_state false 0 (elected (campaign idle request 0).1) peers ≡ (
      (peers, 0),
      if active_state == unavailable_state then some candidate_camp_error else none,
    ))
standby_simulated_example =
    standby_simulated idle idle-IsStandby request 0 active_state 0 false peers request_passes refl

abbrev taken_over : ℕ → Answer
taken_over i = (true, none)

peer_campaign-OneLeader_example :
    (out : (List Candidate × ℕ) × Option Failure) × (peer_campaign active_state false 0 taken_over
        peers
      ≡ some out)
    × OneLeader (length peers) out.0.0
peer_campaign-OneLeader_example =
    peer_campaign-OneLeader active_state false 0 taken_over peers (omega arith) refl

few_clients : sim_delay 10000000000 9 ≡ none
unfolding sim_delay
few_clients = refl
