-- ===== src/Api/Http.antt =====
-- ElectionHTTPService of internal/api/http.go: the handlers of the elections and of the probes over
-- the operations of the lease manager. The JSON decoder and the router are parameters: a body is
-- what was decoded, if it was. The texts of errors are left out of the answers.
pub mod Agrees
use election_agent.Prelude.{
  ℕ, zero, suc, String, Bool, true, false, not, ◌&&◌, Option, none, some, List, [], ◌∷◌, ◌==◌,
  if◌then◌else◌,
}
use election_agent.Prelude.Int.{ℤ, pos, negsuc, lt_int, eq_int}
use election_agent.Errors.{Error}
use election_agent.Lease.{
  is_unavailable_error, is_agent_standby_error, is_taken_error, is_nonexist_error,
}
use election_agent.Api.Grpc.{LeaseService, checked}

-- A member of an answer's gin.H.
pub data Member : Type 0 where
  flag : String → Bool → Member
  label : String → String → Member
  message : Member

pub record Response : Type 0 where
  pub status : ℕ
  pub members : List Member

-- The fields of CampaignRequest, ExtendElectedTermRequest, HandoverRequest and ResignRequest; each
-- of them has some.
pub record Body : Type 0 where
  -- candidate or leader
  pub holder : String
  pub term : ℤ
  pub retries : ℤ
  pub retry_interval : ℤ

-- The parameters name and kind of the path, and the decoded body.
pub record HttpRequest : Type 0 where
  pub name : String
  pub kind : String
  pub body : Option Body

abbrev ok : ℕ
ok = 200

abbrev bad_request : ℕ
bad_request = 400

abbrev not_found : ℕ
not_found = 404

abbrev conflict : ℕ
conflict = 409

abbrev precondition_failed : ℕ
precondition_failed = 412

abbrev teapot : ℕ
teapot = 418

abbrev internal_server_error : ℕ
internal_server_error = 500

abbrev not_implemented : ℕ
not_implemented = 501

-- c.AbortWithStatusJSON with a message
abbrev pub abort : ℕ → Response
abort status = record { status = status; members = message ∷ [] }

-- The binding tags of the fields: required is not the zero value.
abbrev pub has_holder : Body → Bool
has_holder b = not (b.holder == "")

abbrev pub has_term : Body → Bool
has_term b = not (eq_int b.term (pos 0)) && not (lt_int b.term (pos 1000))

abbrev pub has_retries : Body → Bool
has_retries b =
    (not (lt_int b.retries (pos 0)) && not (lt_int (pos 10) b.retries))
    && (not (lt_int b.retry_interval (pos 0)) && not (lt_int (pos 1000) b.retry_interval))

-- ShouldBindJSON with the tags of a struct
abbrev pub bind : (Body → Bool) → Option Body → Option Body
bind valid none = none
bind valid (some b) = if valid b then some b else none

-- What every handler of an election does first: `none` is an answer of 400.
abbrev pub checked_body : (Body → Bool) → HttpRequest → Option Body
checked_body valid r = if r.name == "" then none else bind valid r.body

unfoldable pub leader_response : String × Option Error → Response
leader_response (leader, none) = record { status = ok; members = label "leader" leader ∷ [] }
leader_response (leader, some e) =
    if is_unavailable_error e then abort precondition_failed else abort bad_request

unfoldable pub campaign_response : (String × String) × Option Error → Response
campaign_response ((leader, kind), none) = record {
  status = ok;
  members = flag "elected" true ∷ label "leader" leader ∷ label "kind" kind ∷ [];
}
campaign_response ((leader, kind), some e) =
    if is_unavailable_error e then abort precondition_failed else record {
      status = ok;
      members = flag "elected" false ∷ label "leader" leader ∷ label "kind" kind ∷ message ∷ [];
    }

unfoldable pub extend_response : Option Error → Response
extend_response none = record { status = ok; members = [] }
extend_response (some e) =
    if is_unavailable_error e
    then abort precondition_failed
    else if is_taken_error e
    then abort conflict
    else if is_nonexist_error e
    then abort not_found
    else abort bad_request

unfoldable pub handover_response : Option Error → Response
handover_response none = record { status = ok; members = [] }
handover_response (some e) =
    if is_unavailable_error e
    then abort precondition_failed
    else if is_taken_error e
    then abort conflict
    else abort bad_request

unfoldable pub resign_response : Option Error → Response
resign_response none = record { status = ok; members = [] }
resign_response (some e) =
    if is_unavailable_error e
    then abort precondition_failed
    else if is_agent_standby_error e
    then abort teapot
    else abort not_found

-- livez, and readyz on what the lease manager's Ready returns
unfoldable pub livez : Response
livez = record { status = ok; members = label "status" "ok" ∷ [] }

unfoldable pub readyz : Bool → Response
readyz ready =
    if ready
    then record { status = ok; members = label "status" "ok" ∷ [] }
    else record { status = internal_server_error; members = label "status" "ok" ∷ [] }

module _ (S : LeaseService) where
  open S use {
    World, grant_lease, extend_lease, revoke_lease, handover_lease, get_lease_holder, sleep,
  }

  -- getLeader
  unfoldable pub http_get_leader : HttpRequest → World → World × Response
  unfolding leader_response
  http_get_leader r w =
      if r.name == ""
      then (w, abort bad_request)
      else let (w', result) = get_lease_holder r.name r.kind w in (w', leader_response result)

  -- campaign
  unfoldable pub http_campaign : HttpRequest → World → World × Response
  unfolding campaign_response
  http_campaign r w = elim (checked_body (λ b. has_holder b && has_term b) r) [
    | none ↦ (w, abort bad_request)
    | some b ↦
        let (w', result) = grant_lease r.name r.kind b.holder (checked b.term) w in
        (w', campaign_response result)
  ]

  -- The loop of extendElectedTerm, with `n` attempts left after this one.
  unfoldable pub http_attempts : ℕ → HttpRequest → Body → World → World × Option Error
  http_attempts zero r b w =
      let (w', err) = extend_lease r.name r.kind b.holder (checked b.term) w in
      elim err [ none ↦ (w', none) | some e ↦ (sleep (checked b.retry_interval) w', some e) ]
  http_attempts (suc n) r b w =
      let (w', err) = extend_lease r.name r.kind b.holder (checked b.term) w in
      elim err [
        | none ↦ (w', none)
        | some e ↦ http_attempts n r b (sleep (checked b.retry_interval) w')
      ]

  -- extendElectedTerm
  unfoldable pub http_extend : HttpRequest → World → World × Response
  unfolding http_attempts extend_response
  http_extend r w = elim (checked_body (λ b. (has_holder b && has_term b) && has_retries b) r) [
    | none ↦ (w, abort bad_request)
    | some b ↦ let (w', err) = http_attempts (checked b.retries) r b w in (w', extend_response err)
  ]

  -- handover
  unfoldable pub http_handover : HttpRequest → World → World × Response
  unfolding handover_response
  http_handover r w = elim (checked_body (λ b. has_holder b && has_term b) r) [
    | none ↦ (w, abort bad_request)
    | some b ↦
        let (w', err) = handover_lease r.name r.kind b.holder (checked b.term) w in
        (w', handover_response err)
  ]

  -- resign
  unfoldable pub http_resign : HttpRequest → World → World × Response
  unfolding resign_response
  http_resign r w = elim (checked_body has_holder r) [
    | none ↦ (w, abort bad_request)
    | some b ↦ let (w', err) = revoke_lease r.name r.kind b.holder w in (w', resign_response err)
  ]
