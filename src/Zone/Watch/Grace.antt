-- ===== src/Zone/Watch/Grace.antt =====
-- How long a lost coordinator and lost peers count as connected.
use election_agent.Prelude.{
  ℕ, suc, ◌-◌, String, ◌≡◌, refl, ap, ◌∙◌, ◌≢◌, Bool, true, false, ◌&&◌, none, some, List, [], ◌∷◌,
  arith, ◌==◌, eq_iff, ltb, if◌then◌else◌,
}
use election_agent.Zone.Watch.{Watcher, Ttls, remembered, check_active_zone, check_peer_connected}

-- Rounds at these times without an answer from the coordinator; the store is read each time.
unfoldable pub unanswered : Ttls → List ℕ → String → Watcher → Watcher
unfolding check_active_zone
unanswered ttls [] stored z = z
unanswered ttls (t ∷ ts) stored z =
    unanswered ttls ts stored (check_active_zone ttls t none stored z).0

remembered-same :
    (stored : String) (z : Watcher) → (z.active_zone == "") ≡ false → remembered stored z ≡ z
remembered-same stored z h = ap (λ b. if b then record z { active_zone = stored } else z) h

unanswered-same :
    (ttls : Ttls) (ts : List ℕ) (stored : String) (z : Watcher)
    → (z.active_zone == "") ≡ false
    → unanswered ttls ts stored z ≡ z
unfolding unanswered check_active_zone
unanswered-same ttls [] stored z h = refl
unanswered-same ttls (t ∷ ts) stored z h =
    ap (unanswered ttls ts stored) (remembered-same stored z h) ∙ unanswered-same ttls ts stored z h

not_empty : (zone : String) → zone ≢ "" → (zone == "") ≡ false
not_empty zone ne = ground (arith, eq_iff zone "")

-- After a coordinator answer with a zone that is not empty, and any rounds without an answer, the
-- next round without one still reports that zone, and reports the coordinator as connected exactly
-- while its time to live since the answer has not passed.
pub zone_grace :
    (ttls : Ttls) (t now : ℕ) (ts : List ℕ) (zone stored : String) (z : Watcher)
    → zone ≢ ""
    → let answered = (check_active_zone ttls t (some zone) stored z).0 in
      let out = check_active_zone ttls now none stored (unanswered ttls ts stored answered) in
      (out.1.0 ≡ zone) × (out.1.1 ≡ ltb (now - t) ttls.coordinator_ttl)
unfolding check_active_zone
zone_grace ttls t now ts zone stored z ne =
    let answered = record z { active_zone = zone; zc_last_updated = t } in
    let h = not_empty zone ne in
    let e =
      ap (remembered stored) (unanswered-same ttls ts stored answered h)
      ∙ remembered-same stored answered h in
    (ap (λ w. w.active_zone) e, ap (λ w. ltb (now - w.zc_last_updated) ttls.coordinator_ttl) e)

-- Rounds at these times in which the peers failed; they return no status.
unfoldable pub peers_fail : Ttls → List ℕ → Watcher → Watcher
unfolding check_peer_connected
peers_fail ttls [] z = z
peers_fail ttls (t ∷ ts) z = peers_fail ttls ts (check_peer_connected ttls t true 0 z).0

-- Whether all the times are within the time to live.
abbrev pub all_within : ℕ → ℕ → List ℕ → Bool
all_within ttl last [] = true
all_within ttl last (t ∷ ts) = ltb (t - last) ttl && all_within ttl last ts

check_peer_connected-failed :
    (ttls : Ttls) (now : ℕ) (z : Watcher)
    → let out = check_peer_connected ttls now true 0 z in
      (out.0.peer_last_updated ≡ z.peer_last_updated)
      × (out.0.peer_connected ≡ (ltb (now - z.peer_last_updated) ttls.peer_ttl && z.peer_connected))
      × (out.1.0 ≡ out.0.peer_connected)
unfolding check_peer_connected
check_peer_connected-failed ttls now z = (ground arith, ground arith, ground arith)

and_swap : (a b c : Bool) → (a && (b && c)) ≡ ((b && a) && c)
and_swap true b c = ground arith
and_swap false b c = ground arith

peers_fail-last :
    (ttls : Ttls) (ts : List ℕ) (z : Watcher)
    → (peers_fail ttls ts z).peer_last_updated ≡ z.peer_last_updated
unfolding peers_fail
peers_fail-last ttls [] z = refl
peers_fail-last ttls (t ∷ ts) z =
    peers_fail-last ttls ts (check_peer_connected ttls t true 0 z).0
    ∙ (check_peer_connected-failed ttls t z).0

peers_fail-connected :
    (ttls : Ttls) (ts : List ℕ) (z : Watcher)
    → (peers_fail ttls ts z).peer_connected
      ≡ (all_within ttls.peer_ttl z.peer_last_updated ts && z.peer_connected)
unfolding peers_fail
peers_fail-connected ttls [] z = refl
peers_fail-connected ttls (t ∷ ts) z =
    let z' = (check_peer_connected ttls t true 0 z).0 in
    let (last, connected, same) = check_peer_connected-failed ttls t z in
    peers_fail-connected ttls ts z'
    ∙ ap (λ n. all_within ttls.peer_ttl n ts && z'.peer_connected) last
    ∙ ap (λ b. all_within ttls.peer_ttl z.peer_last_updated ts && b) connected
    ∙ and_swap _ _ z.peer_connected

and_true : (a : Bool) → (a && true) ≡ a
and_true true = refl
and_true false = refl

check_peer_connected-answered :
    (ttls : Ttls) (t count : ℕ) (z : Watcher)
    → let answered = (check_peer_connected ttls t false (suc count) z).0 in
      (answered.peer_last_updated ≡ t) × (answered.peer_connected ≡ true)
unfolding check_peer_connected
check_peer_connected-answered ttls t count z = (ground arith, ground arith)

-- After a round in which peers answered, and rounds in which they failed, the peers count as
-- connected exactly if every one of the failed rounds is within their time to live since the
-- answer.
pub peer_grace :
    (ttls : Ttls) (t count now : ℕ) (ts : List ℕ) (z : Watcher)
    → let answered = (check_peer_connected ttls t false (suc count) z).0 in
      (check_peer_connected ttls now true 0 (peers_fail ttls ts answered)).1.0
      ≡ all_within ttls.peer_ttl t (now ∷ ts)
peer_grace ttls t count now ts z =
    let answered = (check_peer_connected ttls t false (suc count) z).0 in
    let w = peers_fail ttls ts answered in
    let (at_t, up) = check_peer_connected-answered ttls t count z in
    let (last, connected, same) = check_peer_connected-failed ttls now w in
    same
    ∙ connected
    ∙ ap (λ n. ltb (now - n) ttls.peer_ttl && w.peer_connected)
        (peers_fail-last ttls ts answered ∙ at_t)
    ∙ ap (λ b. ltb (now - t) ttls.peer_ttl && b)
        (peers_fail-connected ttls ts answered
          ∙ ap (λ n. all_within ttls.peer_ttl n ts && answered.peer_connected) at_t
          ∙ ap (λ b. all_within ttls.peer_ttl t ts && b) up
          ∙ and_true _)
