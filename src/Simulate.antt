-- ===== src/Simulate.antt =====
-- The simulation of clients in cmd/election-agent-cli/simulate_cmd.go: the candidates of an election,
-- what each step expects of the agent's answers in a simulated state, and the retries. A call that
-- fails returns no result, as the generated clients do.
pub mod Standby
pub mod Leaders
use election_agent.Prelude.{
  ℕ, zero, suc, ◌+◌, ◌/◌, String, Bool, true, false, not, ◌&&◌, ◌||◌, Option, none, some, List, [],
  ◌∷◌, ◌==◌, eqb, if◌then◌else◌, is_some, get_elem?,
}
use election_agent.Agent.{active_state, standby_state, unavailable_state}
use election_agent.Api.Grpc.{Code, failed_precondition}

-- status.Code of an error: a code of the service, or one of the transport's own.
pub data CallCode : Type 0 where
  replied : Code → CallCode
  deadline_exceeded canceled : CallCode

-- An answer: what a test reads of the result, and the code of the error.
abbrev pub Answer : Type 0
Answer = Bool × Option CallCode

-- LeaderExtendError and CandidateCampError
pub data Failure : Type 0 where
  leader_extend_error candidate_camp_error : Failure

-- electionCandidate, without its client
pub record Candidate : Type 0 where
  pub leader : Bool
  pub handovered : Bool

-- candidatePeers.handovered
unfoldable pub peers_handovered : List Candidate → Bool
peers_handovered [] = false
peers_handovered (m ∷ ms) = m.leader && m.handovered || peers_handovered ms

-- The index of the first leader from `i` on, or 0.
unfoldable pub leader_index : ℕ → List Candidate → ℕ
leader_index i [] = 0
leader_index i (m ∷ ms) = let rest = leader_index (suc i) ms in if m.leader then i else rest

unfoldable pub mark_leader : ℕ → ℕ → List Candidate → List Candidate
mark_leader idx i [] = []
mark_leader idx i (m ∷ ms) = record m { leader = eqb i idx } ∷ mark_leader idx (suc i) ms

-- candidatePeers.setLeader, with the index of the leader before
unfoldable pub set_leader : ℕ → List Candidate → List Candidate × ℕ
unfolding leader_index mark_leader
set_leader idx ms = (mark_leader idx 0 ms, leader_index 0 ms)

abbrev pub is_failed_precondition : Option CallCode → Bool
is_failed_precondition (some (replied failed_precondition)) = true
is_failed_precondition _ = false

-- What the states "standby" and "unavailable" expect of any call, and "active" of a leader's.
abbrev pub expected : String → Answer → Bool
expected state (value, err) =
    if state == active_state
    then not (is_some err) && value
    else if state == standby_state
    then not (is_some err) && not value
    else if state == unavailable_state
    then is_failed_precondition err
    else true

-- handoverLeaderAction: whether it returns no error
unfoldable pub handover_action : String → Answer → Bool
handover_action state answer = expected state answer

-- The errors that are dropped once the simulation has finished.
abbrev pub dropped : Bool → Option CallCode → Bool
dropped finished (some deadline_exceeded) = finished
dropped finished (some canceled) = finished
dropped finished _ = false

-- The branch of peerCampaignAction for a leader
unfoldable pub extend_action : String → Bool → Answer → Option Failure
extend_action state finished answer =
    if dropped finished answer.1
    then none
    else if expected state answer
    then none
    else some leader_extend_error

-- Its branch for candidate `j` of the peers, with how many times leaderChangeCount goes up
unfoldable pub campaign_action :
    String → Bool → ℕ → Answer → List Candidate → (List Candidate × ℕ) × Option Failure
unfolding set_leader
campaign_action state finished j answer peers =
    if dropped finished answer.1
    then ((peers, 0), none)
    else if state == active_state
    then (if not (is_some answer.1) && answer.0
        then (let (peers', prev) = set_leader j peers in
            ((peers', if eqb prev j then 0 else 1), some candidate_camp_error))
        else ((peers, 0), none))
    else if expected state answer
    then ((peers, 0), none)
    else ((peers, 0), some candidate_camp_error)

-- peerCampaignAction; an index out of range is a panic
unfoldable pub peer_campaign_action :
    String → Bool → ℕ → Answer → List Candidate → Option ((List Candidate × ℕ) × Option Failure)
unfolding extend_action campaign_action
peer_campaign_action state finished j answer peers = elim (get_elem? peers j) [
  | none ↦ none
  | some c ↦
      if c.leader
      then some ((peers, 0), extend_action state finished answer)
      else some (campaign_action state finished j answer peers)
]

-- The tries of handoverLeader, on their answers: whether one passes, of three at most
unfoldable pub handover_tries : ℕ → String → (ℕ → Answer) → ℕ → Bool
unfolding handover_action
handover_tries zero state answers i = false
handover_tries (suc n) state answers i =
    let rest = handover_tries n state answers (suc i) in
    if handover_action state (answers i) then true else rest

unfoldable pub handover_leader : String → (ℕ → Answer) → Candidate → Candidate × Bool
unfolding handover_tries
handover_leader state answers c =
    if handover_tries 3 state answers 0 then (record c { handovered = true }, true) else (c, false)

-- The tries of peerCampaign
unfoldable pub campaign_tries :
    ℕ
    → String
    → Bool
    → ℕ
    → (ℕ → Answer)
    → ℕ
    → List Candidate
    → Option ((List Candidate × ℕ) × Option Failure)
unfolding peer_campaign_action
campaign_tries zero state finished j answers i peers = some ((peers, 0), none)
campaign_tries (suc n) state finished j answers i peers =
    elim (peer_campaign_action state finished j (answers i) peers) [
      | none ↦ none
      | some ((peers', changes), failure) ↦
          if not (is_some failure) || eqb n 0
          then some ((peers', changes), failure)
          else elim (campaign_tries n state finished j answers (suc i) peers') [
            | none ↦ none
            | some ((peers'', more), last) ↦ some ((peers'', changes + more), last)
          ]
    ]

-- peerCampaign
unfoldable pub peer_campaign :
    String
    → Bool
    → ℕ
    → (ℕ → Answer)
    → List Candidate
    → Option ((List Candidate × ℕ) × Option Failure)
unfolding peers_handovered campaign_tries
peer_campaign state finished j answers peers =
    if not (peers_handovered peers)
    then some ((peers, 0), none)
    else campaign_tries 3 state finished j answers 0 peers

-- warmUpDuration / time.Duration(numClients/10); a division by zero is a panic
unfoldable pub sim_delay : ℕ → ℕ → Option ℕ
sim_delay warm_up num_clients =
    if eqb (num_clients / 10) 0 then none else some (warm_up / (num_clients / 10))
