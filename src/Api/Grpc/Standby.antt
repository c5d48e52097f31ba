-- ===== src/Api/Grpc/Standby.antt =====
-- What the service answers while its agent is standby.
use election_agent.Prelude.{
  ℕ, zero, suc, String, ◌≡◌, refl, ap, ◌∙◌, true, false, Option, none, some, List, [], arith, ◌==◌,
}
use election_agent.Errors.{Error}
use election_agent.Lease.{
  is_unavailable_error, is_agent_standby_error, is_taken_error, is_nonexist_error,
}
use election_agent.Lease.Manager.{standby_error}
use election_agent.Api.Grpc.{
  Code, unknown, Holder, LeaseService, Request, checked, campaign_reply, extend_reply,
  standby_reply, leader_reply, leaders_reply, campaign, extend_retry, extend_elected_term, resign,
  handover, get_leader, list_leaders,
}
use election_agent.Api.Grpc.Replies.{
  named, termed, retried, check_names_lem, check_term_lem, check_retries_lem,
}

-- Every operation of the lease manager fails with ErrAgentStandby.
pub record IsStandby (S : LeaseService) : Type 0 where
  pub grant :
      (a b c : String) (t : ℕ) (w : S.World) → (S.grant_lease a b c t w).1.1 ≡ some standby_error
  pub extend :
      (a b c : String) (t : ℕ) (w : S.World) → (S.extend_lease a b c t w).1 ≡ some standby_error
  pub revoke : (a b c : String) (w : S.World) → (S.revoke_lease a b c w).1 ≡ some standby_error
  pub hand_over :
      (a b c : String) (t : ℕ) (w : S.World) → (S.handover_lease a b c t w).1 ≡ some standby_error
  pub holder : (a b : String) (w : S.World) → (S.get_lease_holder a b w).1.1 ≡ some standby_error
  pub holders : (a : String) (w : S.World) → (S.get_lease_holders a w).1.1 ≡ some standby_error

retried-termed : (r : Request) → retried r ≡ true → termed r ≡ true
retried-termed r h = ground arith

retried-named : (r : Request) → retried r ≡ true → named r ≡ true
retried-named r h = ground arith

named-election : (r : Request) → named r ≡ true → (r.election == "") ≡ false
named-election r h = ground arith

campaign_reply-standby :
    (r : (String × String) × Option Error)
    → r.1 ≡ some standby_error
    → ((campaign_reply r).0.elected ≡ false) × ((campaign_reply r).1 ≡ none)
unfolding campaign_reply is_unavailable_error
campaign_reply-standby ((l, k), e) h = rw h (refl, refl)

leader_reply-standby :
    (r : String × Option Error) → r.1 ≡ some standby_error → leader_reply r ≡ ("", none)
unfolding leader_reply is_unavailable_error is_agent_standby_error
leader_reply-standby (l, e) h = rw h refl

extend_reply-standby : extend_reply (some standby_error) ≡ (false, none)
unfolding extend_reply is_unavailable_error is_taken_error is_nonexist_error
extend_reply-standby = refl

standby_reply-standby : (other : Code) → standby_reply other (some standby_error) ≡ (false, none)
unfolding standby_reply is_unavailable_error is_agent_standby_error
standby_reply-standby other = refl

leaders_reply-standby :
    (r : List Holder × Option Error)
    → r.1 ≡ some standby_error
    → leaders_reply r ≡ ([], some unknown)
unfolding leaders_reply is_unavailable_error
leaders_reply-standby (hs, e) h = rw h refl

module _ (S : LeaseService) (standby : IsStandby S) where
  open S use {World, sleep}

  extend_retry-standby :
      (n : ℕ) (r : Request) (w : World) → (extend_retry S n r w).1 ≡ some standby_error
  unfolding extend_retry
  extend_retry-standby zero r w =
      rw (extend_retry, standby.extend r.election r.kind r.holder (checked r.term) w) refl
  extend_retry-standby (suc n) r w =
      rw (extend_retry, standby.extend r.election r.kind r.holder (checked r.term) w)
        (extend_retry-standby n r _)

  -- To valid requests, while every operation of the lease manager fails as standby: Campaign,
  -- ExtendElectedTerm, Resign, Handover and GetLeader answer in the negative without an error, and
  -- only ListLeaders answers with the code Unknown.
  pub standby_answers :
      (r : Request) (w : World)
      → retried r ≡ true
      → ((campaign S r w).1.0.elected ≡ false)
        × ((campaign S r w).1.1 ≡ none)
        × ((extend_elected_term S r w).1 ≡ (false, none))
        × ((resign S r w).1 ≡ (false, none))
        × ((handover S r w).1 ≡ (false, none))
        × ((get_leader S r w).1 ≡ ("", none))
        × ((list_leaders S r w).1 ≡ ([], some unknown))
  unfolding campaign extend_elected_term resign handover get_leader list_leaders
  standby_answers r w h =
      let t = retried-termed r h in
      let n = retried-named r h in
      let c =
        campaign_reply-standby _ (standby.grant r.election r.kind r.holder (checked r.term) w) in
      (
        rw (campaign, check_term_lem r, t) c.0,
        rw (campaign, check_term_lem r, t) c.1,
        rw (extend_elected_term, check_retries_lem r, h)
            (ap extend_reply (extend_retry-standby (checked r.retries) r w) ∙ extend_reply-standby),
        rw (resign, check_names_lem r, n)
            (ap (standby_reply _) (standby.revoke r.election r.kind r.holder w)
              ∙ standby_reply-standby _),
        rw (handover, check_term_lem r, t)
            (ap (standby_reply _) (standby.hand_over r.election r.kind r.holder (checked r.term) w)
              ∙ standby_reply-standby _),
        rw (get_leader, named-election r n)
            (leader_reply-standby _ (standby.holder r.election r.kind w)),
        leaders_reply-standby _ (standby.holders r.kind w),
      )
