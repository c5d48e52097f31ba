-- ===== src/Lease/Manager/Refusal.antt =====
-- Which operations on leases the agent's state refuses, and what they leave.
use election_agent.Prelude.{
  ℕ, String, ◌≡◌, ◌≢◌, eq_iff, refl, sym, ap, ◌∙◌, inl, inr, Bool, true, false, not, ◌&&◌, ◌||◌,
  ◌==◌, Option-cases, Option, none, some, List, map, arith, if◌then◌else◌, Bool-cases,
}
use mathlib.Core.Path.{subst}
use election_agent.Config.{Config}
use election_agent.Errors.{Error, Multierror}
use election_agent.Agent.{
  empty_state, active_state, standby_state, unavailable_state, load, store, expired,
}
use election_agent.Redis.{RedisServer}
use election_agent.Redlock.Mutex.{Float64, Call, Conn}
use election_agent.Driver.AgentState.{KvStore, InfoKeys, get_agent_state, state_result}
use election_agent.Lease.{done, RedisLease}
use election_agent.Lease.Cache.{TwoQueueCache, LeaseArgs, Hasher, LeaseManager}
use election_agent.Lease.Manager.{
  service_unavailable, standby_error, Clock, gate, Managed, set_state_cache, refresh, get_state,
  pre_hook, grant_lease, revoke_lease, extend_lease_of, handover_lease_of,
}
use election_agent.Lease.Manager.Gate.{get_state-cases}

-- Why an operation is refused by a state, and by what a read of the store says: a failed read and a
-- text that is no state count as "unavailable", but a stored "unavailable" does not.
abbrev pub state_refusal : String → Option Error
state_refusal state =
    if state == unavailable_state
    then some service_unavailable
    else if state == standby_state
    then some standby_error
    else none

abbrev pub text_refusal : String × Option Error → Option Error
text_refusal (text, some e) = some service_unavailable
text_refusal (text, none) =
    if text == standby_state
    then some standby_error
    else if text == "" || (text == active_state || text == unavailable_state)
    then none
    else some service_unavailable

-- By the configuration, whether the cached state has expired, the cached state and the read.
abbrev pub refusal : Config → Bool → String → String × Option Error → Option Error
refusal cfg old cached read =
    if not cfg.zone_enable
    then state_refusal cfg.default_state
    else if old
    then text_refusal read
    else state_refusal cached

eq_sym : (a b : String) → (a == b) ≡ (b == a)
eq_sym a b = ground (arith, eq_iff a b, eq_iff b a)

open_text :
    (text : String) (e : Error)
    → (text == unavailable_state) ≡ true
    → text_refusal (text, none) ≢ some e
open_text text e u h =
    closed (subst (λ t. text_refusal (t, none) ≡ some e) ((eq_iff text unavailable_state).0 u) h)
  where
    closed : text_refusal (unavailable_state, none) ≢ some e
    closed k = ground (arith, k)

refusal-on :
    (cfg : Config) (old : Bool) (cached : String) (read : String × Option Error)
    → cfg.zone_enable ≡ true
    → refusal cfg old cached read ≡ (if old then text_refusal read else state_refusal cached)
refusal-on cfg old cached read on = rw on refl

module _ (F : Float64) (H : Hasher) (C : TwoQueueCache (RedisLease F)) (K : KvStore)
    (keys : InfoKeys) where
  -- What is done with the answer `text`.
  abbrev TextGate : ℕ → LeaseManager F H C → K.World → K.World → String → Type 0
  TextGate now lm w w1 text =
      gate
        (refresh F H C K keys now lm (
          if text == unavailable_state
          then (w1, (empty_state, none))
          else (w, state_result text))).1
      ≡ text_refusal (text, none)

  text-gate :
      (now : ℕ) (lm : LeaseManager F H C) (w w1 : K.World) (text : String)
      → TextGate now lm w w1 text
  unfolding refresh set_state_cache load store gate
  text-gate now lm w w1 text = elim (Bool-cases (text == unavailable_state)) [
    | inl a ↦ subst (TextGate now lm w w1) (sym ((eq_iff text unavailable_state).0 a)) refl
    | inr a ↦ elim (Bool-cases (text == active_state)) [
      | inl b ↦ subst (TextGate now lm w w1) (sym ((eq_iff text active_state).0 b)) refl
      | inr b ↦ elim (Bool-cases (text == standby_state)) [
        | inl c ↦ subst (TextGate now lm w w1) (sym ((eq_iff text standby_state).0 c)) refl
        | inr c ↦ elim (Bool-cases (text == "")) [
          | inl d ↦ subst (TextGate now lm w w1) (sym ((eq_iff text "").0 d)) refl
          | inr d ↦
              rw
                (
                  a,
                  b,
                  c,
                  d,
                  eq_sym active_state text,
                  eq_sym standby_state text,
                  eq_sym unavailable_state text,
                  a,
                  b,
                  c,
                )
                refl
        ]
      ]
    ]
  ]

  unread-gate :
      (now : ℕ) (lm : LeaseManager F H C) (w : K.World)
      → gate (refresh F H C K keys now lm (w, (unavailable_state, none))).1
        ≡ some service_unavailable
  unfolding refresh set_state_cache load store gate
  unread-gate now lm w = refl

  asked-gate :
      (now : ℕ) (lm : LeaseManager F H C) (w : K.World)
      → gate (refresh F H C K keys now lm (get_agent_state K keys w)).1
        ≡ text_refusal (K.get w keys.state_key).1
  unfolding get_agent_state
  asked-gate now lm w = elim (Option-cases (K.get w keys.state_key).1.1) [
    | inr (x, f) ↦ rw (get_agent_state, f) (unread-gate now lm (K.get w keys.state_key).0)
    | inl f ↦ rw (get_agent_state, f) (text-gate now lm _ _ (K.get w keys.state_key).1.0)
  ]

  asked-world :
      (w : K.World) (e : Error)
      → text_refusal (K.get w keys.state_key).1 ≡ some e
      → (get_agent_state K keys w).0 ≡ (K.get w keys.state_key).0
  unfolding get_agent_state
  asked-world w e h = elim (Option-cases (K.get w keys.state_key).1.1) [
    | inr (x, f) ↦ rw (get_agent_state, f) refl
    | inl f ↦ elim (Bool-cases ((K.get w keys.state_key).1.0 == unavailable_state)) [
      | inr u ↦ rw (get_agent_state, f, u) refl
      | inl u ↦ absurd (open_text (K.get w keys.state_key).1.0 e u (rw f at h))
    ]
  ]

  -- The store after an operation that is refused: one read, if the cached state has expired.
  abbrev pub left_store : Bool → Bool → K.World → K.World
  left_store zone_enable old w = if zone_enable && old then (K.get w keys.state_key).0 else w

  left-fresh : (on : Bool) (w : K.World) → left_store on false w ≡ w
  left-fresh true w = refl
  left-fresh false w = refl

  pre_hook-refusal :
      (t : Clock) (lm : LeaseManager F H C) (w : K.World)
      → (pre_hook F H C K keys t (lm, w)).1
        ≡ refusal lm.cfg (expired t.checked lm.state) lm.state.val (K.get w keys.state_key).1
  unfolding pre_hook get_state load gate
  pre_hook-refusal t lm w = elim (Bool-cases lm.cfg.zone_enable) [
    | inr z ↦ rw (pre_hook, get_state, z) refl
    | inl z ↦
        ap (λ (x : Managed F H C K keys × String). gate x.1) (get_state-cases F H C K keys t lm w z)
        ∙ (elim (Bool-cases (expired t.checked lm.state)) [
          | inr x ↦ rw x refl
          | inl x ↦ rw x (asked-gate t.stored lm w)
        ])
        ∙ sym (
            refusal-on lm.cfg (expired t.checked lm.state) lm.state.val (K.get w keys.state_key).1
              z)
  ]

  refresh-world :
      (now : ℕ) (lm : LeaseManager F H C) (r : K.World × (String × Option Error))
      → (refresh F H C K keys now lm r).0.1 ≡ r.0
  unfolding refresh
  refresh-world now lm (w, (state, some e)) = refl
  refresh-world now lm (w, (state, none)) = refl

  pre_hook-world :
      (t : Clock) (lm : LeaseManager F H C) (w : K.World) (e : Error)
      → refusal lm.cfg (expired t.checked lm.state) lm.state.val (K.get w keys.state_key).1 ≡ some e
      → (pre_hook F H C K keys t (lm, w)).0.1
        ≡ left_store lm.cfg.zone_enable (expired t.checked lm.state) w
  unfolding pre_hook get_state
  pre_hook-world t lm w e h = elim (Bool-cases lm.cfg.zone_enable) [
    | inr z ↦ rw (pre_hook, get_state, z) refl
    | inl z ↦
        ap (λ (x : Managed F H C K keys × String). x.0.1) (get_state-cases F H C K keys t lm w z)
        ∙ (elim (Bool-cases (expired t.checked lm.state)) [
          | inr x ↦ rw x (sym (left-fresh lm.cfg.zone_enable w))
          | inl x ↦ rw x (
              refresh-world t.stored lm (get_agent_state K keys w)
              ∙ asked-world w e (
                  sym (refusal-on lm.cfg true lm.state.val (K.get w keys.state_key).1 z)
                  ∙ rw x at h)
              ∙ ap (λ on. left_store on true w) (sym z))
        ])
  ]

  module _ (R : RedisServer) ⦃lib : Multierror⦄ where
    -- By what the configuration, the cached state and its age, and a read of the store say, an
    -- operation is refused: GrantLease, RevokeLease, ExtendLease and HandoverLease then make no
    -- request to a lock server, whose states stay as they were, fail with the error for the state,
    -- and leave the store with exactly one GET of the state key if the zone feature is on and the
    -- cached state has expired, and else untouched. Refused are the states "standby" and
    -- "unavailable", a failed read and a text that is no state; a stored text "unavailable" is not.
    pub refused-untouched :
        (e : Error) (t later : Clock) (holder : String × Option Error) (a : LeaseArgs) (quorum : ℕ)
        (c : Call) (conns : List (Conn R)) (lm : LeaseManager F H C) (w : K.World)
        → refusal lm.cfg (expired t.checked lm.state) lm.state.val (K.get w keys.state_key).1
          ≡ some e
        → let granted = grant_lease F H C K keys R t later holder a quorum c conns (lm, w) in
          let revoked = revoke_lease F H C K keys R t a quorum c conns (lm, w) in
          let extended = extend_lease_of F H C K keys R t a quorum c conns (lm, w) in
          let handed = handover_lease_of F H C K keys R t a quorum c conns (lm, w) in
          let same = map (λ (x : Conn R). x.1) conns in
          let left = left_store lm.cfg.zone_enable (expired t.checked lm.state) w in
          ((granted.0.1 ≡ same) × (granted.0.0.1 ≡ left) × (granted.1.1 ≡ some e))
          × ((revoked.0.1 ≡ same) × (revoked.0.0.1 ≡ left) × (revoked.1 ≡ some e))
          × ((extended.0.1 ≡ same) × (extended.0.0.1 ≡ left) × (extended.1 ≡ done (some e)))
          × ((handed.0.1 ≡ same) × (handed.0.0.1 ≡ left) × (handed.1 ≡ done (some e)))
    unfolding grant_lease revoke_lease extend_lease_of handover_lease_of
    refused-untouched e t later holder a quorum c conns lm w h =
        let closed = pre_hook-refusal t lm w ∙ h in
        let left = pre_hook-world t lm w e h in
        rw (grant_lease, revoke_lease, extend_lease_of, handover_lease_of, closed)
          ((refl, left, refl), (refl, left, refl), (refl, left, refl), (refl, left, refl))
