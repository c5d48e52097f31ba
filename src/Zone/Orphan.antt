-- ===== src/Zone/Orphan.antt =====
-- Orphan mode: an agent that has lost the coordinator and its peers flips its state once.
use mathlib.Core.Path.{subst}
use election_agent.Prelude.{
  ℕ, String, Bool, List, [], ◌∷◌, ◌==◌, ◌≡◌, refl, sym, ap, ◌∙◌, ◌≢◌, ◌⊎◌, inl, inr, false, arith,
  eq_iff,
}
use election_agent.Agent.{
  active_state, standby_state, unavailable_state, empty_state, orphan_mode, flip_state, Status,
}
use election_agent.Zone.{ZoneStatus, ZoneManager, agent_status, check, decide}
use election_agent.Zone.Watch.{watched_state, get_zone_status, check_status}

abbrev IsCutOff : ZoneStatus → Type 0
IsCutOff s = (s.zc_connected ≡ false) × (s.peer_connected ≡ false)

-- Active or standby.
abbrev pub IsServing : String → Type 0
IsServing state = (state ≡ active_state) ⊎ (state ≡ standby_state)

flip-IsServing : (state : String) → IsServing state → IsServing (flip_state state)
unfolding flip_state
flip-IsServing state (inl e) = rw e (inr refl)
flip-IsServing state (inr e) = rw e (inl refl)

decide-flips :
    (zone : String) (s : ZoneStatus)
    → IsCutOff s
    → IsServing s.state
    → s.mode ≢ orphan_mode
    → ((decide zone s).new_state ≡ flip_state s.state) × ((decide zone s).new_mode ≡ orphan_mode)
unfolding decide flip_state
decide-flips zone s c v m = ground (
  arith,
  eq_iff s.mode orphan_mode,
  eq_iff s.state unavailable_state,
  eq_iff s.state empty_state,
  eq_iff s.state active_state,
  eq_iff s.state standby_state,
  eq_iff active_state unavailable_state,
  eq_iff active_state empty_state,
  eq_iff standby_state unavailable_state,
  eq_iff standby_state empty_state,
)

decide-keeps :
    (zone : String) (s : ZoneStatus)
    → IsCutOff s
    → IsServing s.state
    → s.mode ≡ orphan_mode
    → ((decide zone s).new_state ≡ s.state) × ((decide zone s).new_mode ≡ orphan_mode)
unfolding decide
decide-keeps zone s c v m = ground (
  arith,
  eq_iff s.mode orphan_mode,
  eq_iff s.state unavailable_state,
  eq_iff s.state empty_state,
  eq_iff active_state unavailable_state,
  eq_iff active_state empty_state,
  eq_iff standby_state unavailable_state,
  eq_iff standby_state empty_state,
)

-- What one check of an agent that is cut off sees: the store, the zone in memory, whether the
-- coordinator answered too late, and the peers that answered.
pub record Seen : Type 0 where
  pub kv : Status
  pub zone : String
  pub raw : Bool
  pub peers : ℕ

-- The store can be read.
abbrev pub IsReadable : Seen → Type 0
IsReadable x = (x.kv.state == unavailable_state) ≡ false

abbrev pub AllReadable : List Seen → Type 0
AllReadable [] = Unit
AllReadable (x ∷ xs) = IsReadable x × AllReadable xs

-- The local status that an agent of the zone has after a check.
abbrev after_check : String → Seen → Status → Status
after_check zone x local =
    agent_status (decide zone (get_zone_status x.kv local (x.zone, false, x.raw) (false, x.peers)))

watched_local :
    (kv local : Status)
    → (kv.state == unavailable_state) ≡ false
    → IsServing local.state
    → watched_state kv local ≡ local.state
watched_local kv local r (inl e) = rw (r, e) refl
watched_local kv local r (inr e) = rw (r, e) refl

after_check-flips :
    (zone : String) (x : Seen) (local : Status)
    → IsReadable x
    → IsServing local.state
    → local.mode ≢ orphan_mode
    → ((after_check zone x local).state ≡ flip_state local.state)
      × ((after_check zone x local).mode ≡ orphan_mode)
unfolding get_zone_status
after_check-flips zone x local r v m =
    let s : ZoneStatus = get_zone_status x.kv local (x.zone, false, x.raw) (false, x.peers) in
    let same = watched_local x.kv local r v in
    let (state, mode) = decide-flips zone s (refl, refl) (subst IsServing (sym same) v) m in
    (state ∙ ap flip_state same, mode)

after_check-keeps :
    (zone : String) (x : Seen) (local : Status)
    → IsReadable x
    → IsServing local.state
    → local.mode ≡ orphan_mode
    → ((after_check zone x local).state ≡ local.state)
      × ((after_check zone x local).mode ≡ orphan_mode)
unfolding get_zone_status
after_check-keeps zone x local r v m =
    let s : ZoneStatus = get_zone_status x.kv local (x.zone, false, x.raw) (false, x.peers) in
    let same = watched_local x.kv local r v in
    let (state, mode) = decide-keeps zone s (refl, refl) (subst IsServing (sym same) v) m in
    (state ∙ same, mode)

-- A zone manager whose SetAgentStatus sets the local status of the process.
pub record HasLocal (Z : ZoneManager) : Type 0 where
  pub local : Z.World → Status
  pub local-set_agent_status :
      (status : Status) (w : Z.World) → local (Z.set_agent_status status w).0 ≡ status

module _ (Z : ZoneManager) (P : HasLocal Z) (zone : String) where
  open P use {local}

  -- Checks one after the other, each with the local status that the one before left.
  unfoldable pub rounds : List Seen → Z.World → Z.World
  unfolding check_status
  rounds [] w = w
  rounds (x ∷ xs) w =
      rounds xs (check_status Z zone x.kv (local w) (x.zone, false, x.raw) (false, x.peers) w).1

  local-check_status :
      (x : Seen) (w : Z.World)
      → local (check_status Z zone x.kv (local w) (x.zone, false, x.raw) (false, x.peers) w).1
        ≡ after_check zone x (local w)
  unfolding check_status check
  local-check_status x w = P.local-set_agent_status _ _

  rounds-keeps :
      (xs : List Seen) (w : Z.World)
      → AllReadable xs
      → IsServing (local w).state
      → (local w).mode ≡ orphan_mode
      → (local (rounds xs w)).state ≡ (local w).state
  unfolding rounds
  rounds-keeps [] w r v m = refl
  rounds-keeps (x ∷ xs) w (r, rs) v m =
      let (state, mode) = after_check-keeps zone x (local w) r v m in
      let e = local-check_status x w in
      let state' = ap (λ (l : Status). l.state) e ∙ state in
      rounds-keeps xs _ rs (subst IsServing (sym state') v) (ap (λ (l : Status). l.mode) e ∙ mode)
      ∙ state'

  -- However many checks an active or standby agent is cut off, its state ends up flipped once, if
  -- its mode was not orphan before and its store can be read in each.
  pub rounds_flip_once :
      (x : Seen) (xs : List Seen) (w : Z.World)
      → AllReadable (x ∷ xs)
      → IsServing (local w).state
      → (local w).mode ≢ orphan_mode
      → (local (rounds (x ∷ xs) w)).state ≡ flip_state (local w).state
  unfolding rounds
  rounds_flip_once x xs w (r, rs) v m =
      let (state, mode) = after_check-flips zone x (local w) r v m in
      let e = local-check_status x w in
      let state' = ap (λ (l : Status). l.state) e ∙ state in
      rounds-keeps xs _ rs (subst IsServing (sym state') (flip-IsServing (local w).state v))
        (ap (λ (l : Status). l.mode) e ∙ mode)
      ∙ state'

-- Two agents, one active and one standby, neither in orphan mode yet, that both reach neither the
-- coordinator nor a peer, and whose stores can be read at each of their checks, have opposite
-- states after any numbers of checks, at least one each. A check takes the state from the store or
-- the process as getZoneStatus does, and SetAgentStatus sets the status of the process.
pub rounds_opposite :
    (Y Z : ZoneManager) (P : HasLocal Y) (Q : HasLocal Z) (zone other : String) (x y : Seen)
    (xs ys : List Seen) (v : Y.World) (w : Z.World)
    → AllReadable (x ∷ xs)
    → AllReadable (y ∷ ys)
    → (P.local v).mode ≢ orphan_mode
    → (Q.local w).mode ≢ orphan_mode
    → ((P.local v).state ≡ active_state) ⊎ ((P.local v).state ≡ standby_state)
    → (Q.local w).state ≡ flip_state (P.local v).state
    → (Q.local (rounds Z Q other (y ∷ ys) w)).state
      ≡ flip_state (P.local (rounds Y P zone (x ∷ xs) v)).state
rounds_opposite Y Z P Q zone other x y xs ys v w r s m n serving opposite =
    rounds_flip_once Z Q other y ys w s
      (subst IsServing (sym opposite) (flip-IsServing (P.local v).state serving)) n
    ∙ ap flip_state opposite
    ∙ ap flip_state (sym (rounds_flip_once Y P zone x xs v r serving m))
