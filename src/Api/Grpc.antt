-- ===== src/Api/Grpc.antt =====
-- ElectionGRPCService of internal/api/grpc.go: the checks of the requests, the retries, and the
-- codes of the errors, over the operations of the lease manager.
pub mod Replies
pub mod Standby
use election_agent.Prelude.{
  ℕ, zero, suc, String, Bool, true, false, Option, none, some, List, [], ◌==◌, if◌then◌else◌, ◌||◌,
}
use election_agent.Prelude.Int.{ℤ, pos, negsuc, lt_int}
use election_agent.Errors.{Error}
use election_agent.Lease.{
  is_unavailable_error, is_agent_standby_error, is_taken_error, is_nonexist_error,
}

-- The codes of google.golang.org/grpc/codes that the service uses; a nil error is `none`.
pub data Code : Type 0 where
  invalid_argument failed_precondition already_exists not_found unknown : Code

pub record Holder : Type 0 where
  pub election : String
  pub name : String

-- What the handlers call of LeaseManager, on a state of the caller's choice; the arguments are the
-- name, the kind, the holder and the ttl in milliseconds. `sleep` is time.Sleep, in milliseconds.
pub record LeaseService : Type 1 where
  pub World : Type 0
  -- with the holder and the kind of the result
  pub grant_lease :
      String → String → String → ℕ → World → World × ((String × String) × Option Error)
  pub extend_lease : String → String → String → ℕ → World → World × Option Error
  pub revoke_lease : String → String → String → World → World × Option Error
  pub handover_lease : String → String → String → ℕ → World → World × Option Error
  pub get_lease_holder : String → String → World → World × (String × Option Error)
  pub get_lease_holders : String → World → World × (List Holder × Option Error)
  pub sleep : ℕ → World → World

-- The fields of the requests; each handler reads some of them.
pub record Request : Type 0 where
  pub election : String
  pub kind : String
  -- candidate or leader
  pub holder : String
  pub term : ℤ
  pub retries : ℤ
  pub retry_interval : ℤ

pub record CampaignResult : Type 0 where
  pub elected : Bool
  pub leader : String
  pub kind : String

-- A number that the handler has checked not to be negative.
abbrev pub checked : ℤ → ℕ
checked (pos n) = n
checked (negsuc n) = 0

-- The empty fields and the short term, in the order of the code; `none` passes.
abbrev pub check_names : Request → Option Code
check_names r =
    if r.election == ""
    then some invalid_argument
    else if r.holder == ""
    then some invalid_argument
    else none

abbrev pub check_term : Request → Option Code
check_term r = elim (check_names r) [
  | some code ↦ some code
  | none ↦ if lt_int r.term (pos 1000) then some invalid_argument else none
]

abbrev pub check_retries : Request → Option Code
check_retries r = elim (check_term r) [
  | some code ↦ some code
  | none ↦
      if lt_int r.retries (pos 0) || lt_int (pos 10) r.retries
      then some invalid_argument
      else if lt_int r.retry_interval (pos 0) || lt_int (pos 1000) r.retry_interval
      then some invalid_argument
      else none
]

-- What the handlers make of the error of the lease manager.
unfoldable pub campaign_reply : (String × String) × Option Error → CampaignResult × Option Code
campaign_reply ((leader, kind), none) =
    (record { elected = true; leader = leader; kind = kind }, none)
campaign_reply ((leader, kind), some e) = (
  record { elected = false; leader = leader; kind = kind },
  if is_unavailable_error e then some failed_precondition else none,
)

unfoldable pub extend_reply : Option Error → Bool × Option Code
extend_reply none = (true, none)
extend_reply (some e) =
    if is_unavailable_error e
    then (false, some failed_precondition)
    else if is_taken_error e
    then (false, some already_exists)
    else if is_nonexist_error e
    then (false, some not_found)
    else (false, none)

-- Resign, with not_found, and Handover, with unknown, for other errors
unfoldable pub standby_reply : Code → Option Error → Bool × Option Code
standby_reply other none = (true, none)
standby_reply other (some e) =
    if is_unavailable_error e
    then (false, some failed_precondition)
    else if is_agent_standby_error e
    then (false, none)
    else (false, some other)

unfoldable pub leader_reply : String × Option Error → String × Option Code
leader_reply (leader, none) = (leader, none)
leader_reply (leader, some e) =
    if is_unavailable_error e
    then ("", some failed_precondition)
    else if is_agent_standby_error e
    then ("", none)
    else ("", some not_found)

unfoldable pub leaders_reply : List Holder × Option Error → List Holder × Option Code
leaders_reply (holders, none) = (holders, none)
leaders_reply (holders, some e) =
    if is_unavailable_error e then ([], some failed_precondition) else ([], some unknown)

module _ (S : LeaseService) where
  open S use {
    World, grant_lease, extend_lease, revoke_lease, handover_lease, get_lease_holder,
    get_lease_holders, sleep,
  }

  unfoldable pub campaign : Request → World → World × (CampaignResult × Option Code)
  unfolding campaign_reply
  campaign r w = elim (check_term r) [
    | some code ↦ (w, (record { elected = false; leader = ""; kind = "" }, some code))
    | none ↦
        let (w', result) = grant_lease r.election r.kind r.holder (checked r.term) w in
        (w', campaign_reply result)
  ]

  -- The loop of ExtendElectedTerm, with `n` attempts left after this one.
  unfoldable pub extend_retry : ℕ → Request → World → World × Option Error
  extend_retry zero r w =
      let (w', err) = extend_lease r.election r.kind r.holder (checked r.term) w in
      elim err [ none ↦ (w', none) | some e ↦ (sleep (checked r.retry_interval) w', some e) ]
  extend_retry (suc n) r w =
      let (w', err) = extend_lease r.election r.kind r.holder (checked r.term) w in
      elim err [
        | none ↦ (w', none)
        | some e ↦ extend_retry n r (sleep (checked r.retry_interval) w')
      ]

  unfoldable pub extend_elected_term : Request → World → World × (Bool × Option Code)
  unfolding extend_retry extend_reply
  extend_elected_term r w = elim (check_retries r) [
    | some code ↦ (w, (false, some code))
    | none ↦ let (w', err) = extend_retry (checked r.retries) r w in (w', extend_reply err)
  ]

  unfoldable pub resign : Request → World → World × (Bool × Option Code)
  unfolding standby_reply
  resign r w = elim (check_names r) [
    | some code ↦ (w, (false, some code))
    | none ↦
        let (w', err) = revoke_lease r.election r.kind r.holder w in
        (w', standby_reply not_found err)
  ]

  unfoldable pub handover : Request → World → World × (Bool × Option Code)
  unfolding standby_reply
  handover r w = elim (check_term r) [
    | some code ↦ (w, (false, some code))
    | none ↦
        let (w', err) = handover_lease r.election r.kind r.holder (checked r.term) w in
        (w', standby_reply unknown err)
  ]

  unfoldable pub get_leader : Request → World → World × (String × Option Code)
  unfolding leader_reply
  get_leader r w =
      if r.election == ""
      then (w, ("", some invalid_argument))
      else let (w', result) = get_lease_holder r.election r.kind w in (w', leader_reply result)

  unfoldable pub list_leaders : Request → World → World × (List Holder × Option Code)
  unfolding leaders_reply
  list_leaders r w = let (w', result) = get_lease_holders r.kind w in (w', leaders_reply result)
