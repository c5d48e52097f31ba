-- ===== src/Tests/Api.antt =====
-- The service of elections, and the watch over the coordinator and the peers.
use election_agent.Prelude.{
  ℕ, ◌+◌, ◌-◌, String, ◌≡◌, refl, ◌≢◌, true, false, ◌&&◌, Option, none, some, [], ◌∷◌, arith,
  eq_iff, ltb, if◌then◌else◌,
}
use election_agent.Prelude.Int.{pos}
use election_agent.Errors.{Error, failed}
use election_agent.Lease.Manager.{standby_error}
use election_agent.Api.Grpc.{
  unknown, LeaseService, Request, campaign, extend_elected_term, resign, handover, get_leader,
  list_leaders,
}
use election_agent.Api.Grpc.Replies.{retried, some_attempt, extend_elected_term-some_attempt}
use election_agent.Api.Grpc.Standby.{IsStandby, standby_answers}
use election_agent.Zone.Watch.{Watcher, Ttls, check_active_zone, check_peer_connected}
use election_agent.Zone.Watch.Grace.{unanswered, zone_grace, peers_fail, all_within, peer_grace}

-- An extension that succeeds from the third attempt.
abbrev third_time : ℕ → Option Error
third_time n = if ltb n 2 then some failed else none

abbrev counting : LeaseService
counting = record {
  World = ℕ;
  grant_lease = λ name kind holder ttl w. (w, ((holder, kind), none));
  extend_lease = λ name kind holder ttl w. (w + 1, third_time w);
  revoke_lease = λ name kind holder w. (w, none);
  handover_lease = λ name kind holder ttl w. (w, none);
  get_lease_holder = λ name kind w. (w, ("ann", none));
  get_lease_holders = λ kind w. (w, ([], none));
  sleep = λ ms w. w;
}

abbrev pub request : Request
request = record {
  election = "shop";
  kind = "";
  holder = "ann";
  term = pos 3000;
  retries = pos 3;
  retry_interval = pos 10;
}

extend_elected_term-some_attempt_example :
    (extend_elected_term counting request 0).1.0
    ≡ (retried request && some_attempt counting 3 request 0)
extend_elected_term-some_attempt_example = extend_elected_term-some_attempt counting request 0

abbrev pub idle : LeaseService
idle = record {
  World = ℕ;
  grant_lease = λ name kind holder ttl w. (w, (("", kind), some standby_error));
  extend_lease = λ name kind holder ttl w. (w, some standby_error);
  revoke_lease = λ name kind holder w. (w, some standby_error);
  handover_lease = λ name kind holder ttl w. (w, some standby_error);
  get_lease_holder = λ name kind w. (w, ("", some standby_error));
  get_lease_holders = λ kind w. (w, ([], some standby_error));
  sleep = λ ms w. w + ms;
}

pub idle-IsStandby : IsStandby idle
idle-IsStandby = record {
  grant = λ a b c t w. refl;
  extend = λ a b c t w. refl;
  revoke = λ a b c w. refl;
  hand_over = λ a b c t w. refl;
  holder = λ a b w. refl;
  holders = λ a w. refl;
}

pub request_passes : retried request ≡ true
request_passes = refl

standby_answers_example :
    ((campaign idle request 0).1.0.elected ≡ false)
    × ((campaign idle request 0).1.1 ≡ none)
    × ((extend_elected_term idle request 0).1 ≡ (false, none))
    × ((resign idle request 0).1 ≡ (false, none))
    × ((handover idle request 0).1 ≡ (false, none))
    × ((get_leader idle request 0).1 ≡ ("", none))
    × ((list_leaders idle request 0).1 ≡ ([], some unknown))
standby_answers_example = standby_answers idle idle-IsStandby request 0 request_passes

abbrev watcher : Watcher
watcher = record {
  active_zone = "";
  zc_last_updated = 0;
  peer_connected = false;
  peer_last_updated = 0;
  reconnected = false;
}

abbrev ttls : Ttls
ttls = record { coordinator_ttl = 50; peer_ttl = 30 }

abbrev east : String
east = "east"

east-ne-empty : east ≢ ""
east-ne-empty e = ground (arith, eq_iff east "")

zone_grace_example :
    let answered = (check_active_zone ttls 100 (some east) "west" watcher).0 in
    let out =
      check_active_zone ttls 140 none "west" (unanswered ttls (110 ∷ 120 ∷ []) "west" answered) in
    (out.1.0 ≡ east) × (out.1.1 ≡ ltb (140 - 100) 50)
zone_grace_example = zone_grace ttls 100 140 (110 ∷ 120 ∷ []) east "west" watcher east-ne-empty

peer_grace_example :
    let answered = (check_peer_connected ttls 100 false 2 watcher).0 in
    (check_peer_connected ttls 140 true 0 (peers_fail ttls (110 ∷ 120 ∷ []) answered)).1.0
    ≡ all_within 30 100 (140 ∷ 110 ∷ 120 ∷ [])
peer_grace_example = peer_grace ttls 100 1 140 (110 ∷ 120 ∷ []) watcher
