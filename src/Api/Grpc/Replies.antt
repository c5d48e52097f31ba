-- ===== src/Api/Grpc/Replies.antt =====
-- What the service answers.
use election_agent.Prelude.{
  ℕ, zero, suc, String, ◌≡◌, refl, ap, ◌∙◌, inl, inr, Bool, true, false, not, ◌&&◌, Option, none,
  some, arith, ◌==◌, if◌then◌else◌, is_some, Bool-cases, Option-cases, ◌||◌,
}
use election_agent.Prelude.Int.{pos, lt_int}
use election_agent.Errors.{Error}
use election_agent.Api.Grpc.{
  Code, invalid_argument, not_found, unknown, LeaseService, Request, checked, check_names,
  check_term, check_retries, campaign_reply, extend_reply, standby_reply, campaign, extend_retry,
  extend_elected_term, resign, handover,
}

abbrev pub is_invalid : Option Code → Bool
is_invalid (some invalid_argument) = true
is_invalid _ = false

-- The requests that the handlers accept.
abbrev pub named : Request → Bool
named r = not (r.election == "") && not (r.holder == "")

abbrev pub termed : Request → Bool
termed r = named r && not (lt_int r.term (pos 1000))

abbrev pub retried : Request → Bool
retried r =
    termed r
    && not (lt_int r.retries (pos 0) || lt_int (pos 10) r.retries)
    && not (lt_int r.retry_interval (pos 0) || lt_int (pos 1000) r.retry_interval)

pub check_names_lem :
    (r : Request) → check_names r ≡ (if named r then none else some invalid_argument)
check_names_lem r = ground arith

pub check_term_lem :
    (r : Request) → check_term r ≡ (if termed r then none else some invalid_argument)
check_term_lem r = ground arith

pub check_retries_lem :
    (r : Request) → check_retries r ≡ (if retried r then none else some invalid_argument)
check_retries_lem r = ground (arith, check_term_lem r)

not-not : (b : Bool) → not (not b) ≡ b
not-not true = refl
not-not false = refl

extend_reply-value : (e : Option Error) → (extend_reply e).0 ≡ not (is_some e)
unfolding extend_reply
extend_reply-value none = refl
extend_reply-value (some e) = ground arith

extend_reply-valid : (e : Option Error) → is_invalid (extend_reply e).1 ≡ false
unfolding extend_reply
extend_reply-valid none = refl
extend_reply-valid (some e) = ground arith

campaign_reply-valid :
    (r : (String × String) × Option Error) → is_invalid (campaign_reply r).1 ≡ false
unfolding campaign_reply
campaign_reply-valid (_, none) = refl
campaign_reply-valid (_, some e) = ground arith

standby_reply-valid :
    (other : Code)
    → is_invalid (some other) ≡ false
    → (e : Option Error) → is_invalid (standby_reply other e).1 ≡ false
unfolding standby_reply
standby_reply-valid other h none = refl
standby_reply-valid other h (some e) = ground arith

module _ (S : LeaseService) where
  open S use {World, extend_lease, sleep}

  -- The n-th attempt, whatever the attempts before gave.
  abbrev pub after : ℕ → Request → World → World
  after zero r w = w
  after (suc n) r w = after n r (
      sleep (checked r.retry_interval)
        (extend_lease r.election r.kind r.holder (checked r.term) w).0)

  abbrev pub succeeds : Request → World → Bool
  succeeds r w = not (is_some (extend_lease r.election r.kind r.holder (checked r.term) w).1)

  abbrev pub some_attempt : ℕ → Request → World → Bool
  some_attempt zero r w = succeeds r w
  some_attempt (suc n) r w = succeeds r w || some_attempt n r (after 1 r w)

  extend_retry-some_attempt :
      (n : ℕ) (r : Request) (w : World)
      → is_some (extend_retry S n r w).1 ≡ not (some_attempt n r w)
  unfolding extend_retry
  extend_retry-some_attempt zero r w =
      elim (Option-cases (extend_lease r.election r.kind r.holder (checked r.term) w).1) [
        | inl e ↦ rw (extend_retry, e) refl
        | inr (x, e) ↦ rw (extend_retry, e) refl
      ]
  extend_retry-some_attempt (suc n) r w =
      elim (Option-cases (extend_lease r.election r.kind r.holder (checked r.term) w).1) [
        | inl e ↦ rw (extend_retry, e) refl
        | inr (x, e) ↦ rw (extend_retry, e) (extend_retry-some_attempt n r (after 1 r w))
      ]

  -- ExtendElectedTerm returns true exactly when its fields are valid and one of its first attempt
  -- and its retries succeeds, each made in the state that the one before and the sleep left.
  pub extend_elected_term-some_attempt :
      (r : Request) (w : World)
      → (extend_elected_term S r w).1.0 ≡ (retried r && some_attempt (checked r.retries) r w)
  unfolding extend_elected_term
  extend_elected_term-some_attempt r w = elim (Bool-cases (retried r)) [
    | inl h ↦
        rw (extend_elected_term, check_retries_lem r, h)
          (extend_reply-value (extend_retry S (checked r.retries) r w).1
            ∙ ap not (extend_retry-some_attempt (checked r.retries) r w)
            ∙ not-not _)
    | inr h ↦ rw (extend_elected_term, check_retries_lem r, h) refl
  ]

  -- Campaign, ExtendElectedTerm, Resign and Handover each answer InvalidArgument exactly when a
  -- field that they check is invalid, whatever the lease manager returns.
  pub invalid_iff :
      (r : Request) (w : World)
      → (is_invalid (campaign S r w).1.1 ≡ not (termed r))
        × (is_invalid (extend_elected_term S r w).1.1 ≡ not (retried r))
        × (is_invalid (resign S r w).1.1 ≡ not (named r))
        × (is_invalid (handover S r w).1.1 ≡ not (termed r))
  unfolding campaign extend_elected_term resign handover
  invalid_iff r w = (
    elim (Bool-cases (termed r)) [
      | inl h ↦ rw (campaign, check_term_lem r, h) (campaign_reply-valid _)
      | inr h ↦ rw (campaign, check_term_lem r, h) refl
    ],
    elim (Bool-cases (retried r)) [
      | inl h ↦ rw (extend_elected_term, check_retries_lem r, h) (extend_reply-valid _)
      | inr h ↦ rw (extend_elected_term, check_retries_lem r, h) refl
    ],
    elim (Bool-cases (named r)) [
      | inl h ↦ rw (resign, check_names_lem r, h) (standby_reply-valid not_found refl _)
      | inr h ↦ rw (resign, check_names_lem r, h) refl
    ],
    elim (Bool-cases (termed r)) [
      | inl h ↦ rw (handover, check_term_lem r, h) (standby_reply-valid unknown refl _)
      | inr h ↦ rw (handover, check_term_lem r, h) refl
    ],
  )
