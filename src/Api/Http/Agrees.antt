-- ===== src/Api/Http/Agrees.antt =====
-- The HTTP handlers of internal/api/http.go do what the gRPC service of grpc.go beside it does.
use election_agent.Prelude.{
  ℕ, zero, suc, String, ◌≡◌, refl, inl, inr, Bool, true, false, not, ◌&&◌, Option, none, some, List,
  ◌∷◌, arith, eqb, if◌then◌else◌, is_some, Option-cases,
}
use election_agent.Prelude.Int.{ℤ, pos, negsuc, lt_int, eq_int}
use election_agent.Errors.{Error}
use election_agent.Api.Grpc.{
  Code, failed_precondition, invalid_argument, LeaseService, Request, CampaignResult, checked,
  check_names, check_term, check_retries, campaign_reply, campaign, extend_retry, extend_reply,
  extend_elected_term, standby_reply, resign, handover,
}
use election_agent.Api.Http.{
  Member, flag, Response, Body, HttpRequest, has_holder, has_term, has_retries, checked_body,
  campaign_response, extend_response, handover_response, resign_response, http_campaign,
  http_attempts, http_extend, http_handover, http_resign,
}

abbrev pub body_of : Request → Body
body_of r = record {
  holder = r.holder;
  term = r.term;
  retries = r.retries;
  retry_interval = r.retry_interval;
}

-- The same request over HTTP.
abbrev pub as_http : Request → HttpRequest
as_http r = record { name = r.election; kind = r.kind; body = some (body_of r) }

-- The answer says yes, no, or that the agent is unavailable.
pub data Verdict : Type 0 where
  yes no unavailable_now : Verdict

abbrev pub refuses : List Member → Bool
refuses (flag name value ∷ _) = not value
refuses _ = false

abbrev pub http_verdict : Response → Verdict
http_verdict a =
    if eqb a.status 412
    then unavailable_now
    else if eqb a.status 200 && not (refuses a.members)
    then yes
    else no

abbrev pub grpc_verdict : Bool × Option Code → Verdict
grpc_verdict (_, some failed_precondition) = unavailable_now
grpc_verdict (true, none) = yes
grpc_verdict _ = no

has_term-lt_int : (b : Body) → has_term b ≡ not (lt_int b.term (pos 1000))
has_term-lt_int b = term_cases b.term
  where
    term_cases :
        (t : ℤ) → (not (eq_int t (pos 0)) && not (lt_int t (pos 1000))) ≡ not (lt_int t (pos 1000))
    term_cases (pos n) = ground arith
    term_cases (negsuc n) = refl

-- What the two sides check is the same.
names-checked_body :
    (r : Request)
    → checked_body has_holder (as_http r)
      ≡ (if is_some (check_names r) then none else some (body_of r))
names-checked_body r = ground arith

term-checked_body :
    (r : Request)
    → checked_body (λ b. has_holder b && has_term b) (as_http r)
      ≡ (if is_some (check_term r) then none else some (body_of r))
term-checked_body r = rw (has_term-lt_int (body_of r)) (ground arith)

retries-checked_body :
    (r : Request)
    → checked_body (λ b. (has_holder b && has_term b) && has_retries b) (as_http r)
      ≡ (if is_some (check_retries r) then none else some (body_of r))
retries-checked_body r = rw (has_term-lt_int (body_of r)) (ground arith)

names-invalid : (r : Request) (c : Code) → check_names r ≡ some c → c ≡ invalid_argument
names-invalid r c h = ground arith

term-invalid : (r : Request) (c : Code) → check_term r ≡ some c → c ≡ invalid_argument
term-invalid r c h = ground arith

retries-invalid : (r : Request) (c : Code) → check_retries r ≡ some c → c ≡ invalid_argument
retries-invalid r c h = ground arith

campaign-verdict :
    (result : (String × String) × Option Error)
    → let (out, code) = campaign_reply result in
      http_verdict (campaign_response result) ≡ grpc_verdict (out.elected, code)
unfolding campaign_response campaign_reply
campaign-verdict ((leader, kind), none) = refl
campaign-verdict ((leader, kind), some e) = ground arith

extend-verdict :
    (err : Option Error) → http_verdict (extend_response err) ≡ grpc_verdict (extend_reply err)
unfolding extend_response extend_reply
extend-verdict none = refl
extend-verdict (some e) = ground arith

handover-verdict :
    (code : Code) (err : Option Error)
    → (code ≡ failed_precondition → ⊥)
    → http_verdict (handover_response err) ≡ grpc_verdict (standby_reply code err)
unfolding handover_response standby_reply
handover-verdict code none h = refl
handover-verdict code (some e) h = ground arith

resign-verdict :
    (code : Code) (err : Option Error)
    → (code ≡ failed_precondition → ⊥)
    → http_verdict (resign_response err) ≡ grpc_verdict (standby_reply code err)
unfolding resign_response standby_reply
resign-verdict code none h = refl
resign-verdict code (some e) h = ground arith

module _ (S : LeaseService) where
  attempts-extend_retry :
      (n : ℕ) (r : Request) (w : S.World)
      → http_attempts S n (as_http r) (body_of r) w ≡ extend_retry S n r w
  unfolding http_attempts extend_retry
  attempts-extend_retry zero r w = refl
  attempts-extend_retry (suc n) r w =
      elim (Option-cases (S.extend_lease r.election r.kind r.holder (checked r.term) w).1) [
        | inl e ↦ rw (http_attempts, extend_retry, e) refl
        | inr (d, e) ↦
            rw (http_attempts, extend_retry, e)
              (attempts-extend_retry n r (
                S.sleep (checked r.retry_interval)
                  (S.extend_lease r.election r.kind r.holder (checked r.term) w).0))
      ]

  -- Both sides leave the same state and say the same.
  abbrev pub Agree : S.World × Response → S.World × (Bool × Option Code) → Type 0
  Agree (w, response) (w', reply) = (w ≡ w') × (http_verdict response ≡ grpc_verdict reply)

  abbrev pub elected_of : S.World × (CampaignResult × Option Code) → S.World × (Bool × Option Code)
  elected_of (w, (result, code)) = (w, (result.elected, code))

  campaign-Agree :
      (r : Request) (w : S.World)
      → Agree (http_campaign S (as_http r) w) (elected_of (campaign S r w))
  unfolding http_campaign campaign
  campaign-Agree r w = elim (Option-cases (check_term r)) [
    | inr (code, e) ↦
        rw (http_campaign, term-checked_body r, campaign, e, term-invalid r code e) (refl, refl)
    | inl e ↦ rw (http_campaign, term-checked_body r, campaign, e) (refl, campaign-verdict _)
  ]

  extend-Agree :
      (r : Request) (w : S.World) → Agree (http_extend S (as_http r) w) (extend_elected_term S r w)
  unfolding http_extend extend_elected_term
  extend-Agree r w = elim (Option-cases (check_retries r)) [
    | inr (code, e) ↦
        rw (http_extend, retries-checked_body r, extend_elected_term, e, retries-invalid r code e)
          (refl, refl)
    | inl e ↦
        rw
          (
            http_extend,
            retries-checked_body r,
            extend_elected_term,
            e,
            attempts-extend_retry (checked r.retries) r w,
          )
          (refl, extend-verdict _)
  ]

  handover-Agree :
      (r : Request) (w : S.World) → Agree (http_handover S (as_http r) w) (handover S r w)
  unfolding http_handover handover
  handover-Agree r w = elim (Option-cases (check_term r)) [
    | inr (code, e) ↦
        rw (http_handover, term-checked_body r, handover, e, term-invalid r code e) (refl, refl)
    | inl e ↦
        rw (http_handover, term-checked_body r, handover, e)
          (refl, handover-verdict _ _ (λ h. ground arith))
  ]

  resign-Agree : (r : Request) (w : S.World) → Agree (http_resign S (as_http r) w) (resign S r w)
  unfolding http_resign resign
  resign-Agree r w = elim (Option-cases (check_names r)) [
    | inr (code, e) ↦
        rw (http_resign, names-checked_body r, resign, e, names-invalid r code e) (refl, refl)
    | inl e ↦
        rw (http_resign, names-checked_body r, resign, e)
          (refl, resign-verdict _ _ (λ h. ground arith))
  ]

  -- The HTTP handlers of campaign, extendElectedTerm, handover and resign, given the fields of a
  -- gRPC request as a decoded body, leave the same state as the gRPC methods and give the same
  -- verdict: yes, unavailable (412 or FailedPrecondition), or no.
  pub http_agrees :
      (r : Request) (w : S.World)
      → Agree (http_campaign S (as_http r) w) (elected_of (campaign S r w))
        × Agree (http_extend S (as_http r) w) (extend_elected_term S r w)
        × Agree (http_handover S (as_http r) w) (handover S r w)
        × Agree (http_resign S (as_http r) w) (resign S r w)
  http_agrees r w = (campaign-Agree r w, extend-Agree r w, handover-Agree r w, resign-Agree r w)
