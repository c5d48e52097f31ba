-- ===== src/Zone/Manager/Control.antt =====
-- What an operator's SetStatus does to the leases.
use election_agent.Prelude.{
  ℕ, ◌+◌, ◌≤◌, ◌<◌, String, ◌≡◌, refl, inl, inr, Bool, true, false, not, ◌&&◌, ◌||◌, arith,
  Bool-cases,
}
use election_agent.Agent.{State, valid_states, valid_modes, contains, load, store, expired}
use election_agent.Redlock.Mutex.{Float64}
use election_agent.Driver.AgentState.{KvStore, InfoKeys}
use election_agent.Lease.{RedisLease}
use election_agent.Lease.Cache.{TwoQueueCache, Hasher, LeaseManager}
use election_agent.Lease.Manager.{Clock, gate, Managed, set_state_cache, get_state, pre_hook}
use election_agent.Zone.Manager.{
  Process, invalid_argument, set_process_status, get_status, set_status,
}

expired_within :
    (state : String) (now then_ ttl : ℕ)
    → 0 < ttl
    → then_ ≤ now + ttl
    → (s : State) → s.ttl ≡ ttl
    → expired then_ (store state now s) ≡ false
unfolding expired store
expired_within state now then_ ttl pos le s e = ground arith

module _ (F : Float64) (H : Hasher) (C : TwoQueueCache (RedisLease F)) (K : KvStore)
    (keys : InfoKeys) where
  -- A state that was cached is the one that gates, until its time to live has passed.
  pre_hook-set_state_cache :
      (state : String) (now : ℕ) (t : Clock) (lm : LeaseManager F H C) (w : K.World)
      → lm.cfg.zone_enable ≡ true
      → 0 < lm.state.ttl
      → t.checked ≤ now + lm.state.ttl
      → let m : Managed F H C K keys = (set_state_cache F H C K keys state now lm, w) in
        pre_hook F H C K keys t m ≡ (m, gate state)
  unfolding pre_hook get_state set_state_cache load store
  pre_hook-set_state_cache state now t lm w on pos le =
      let fresh = expired_within state now t.checked lm.state.ttl pos le lm.state refl in
      rw (pre_hook, get_state, on, fresh) refl

  abbrev is_invalid : String → String → Bool
  is_invalid state mode = not (contains valid_states state) || not (contains valid_modes mode)

  -- With the zone feature on, a positive ttl, and a reading of the clock not after the request plus
  -- that ttl: a SetStatus with an invalid state or mode changes nothing and answers
  -- InvalidArgument; one with a valid state and mode makes that state decide whether operations on
  -- leases pass, with no request to the store, even if the write to the store failed, and GetStatus
  -- then reports both.
  pub set_status-gates :
      (state mode : String) (now : ℕ) (p : Process F H C K keys) (t : Clock)
      → p.managed.0.cfg.zone_enable ≡ true
      → 0 < p.managed.0.state.ttl
      → t.checked ≤ now + p.managed.0.state.ttl
      → let (p', reply) = set_status F H C K keys state mode now p in
        (contains valid_states state && contains valid_modes mode ≡ false
          → (p' ≡ p) × (reply ≡ invalid_argument))
        × (contains valid_states state && contains valid_modes mode ≡ true
            → (pre_hook F H C K keys t p'.managed ≡ (p'.managed, gate state))
              × ((get_status F H C K keys p').state ≡ state)
              × ((get_status F H C K keys p').mode ≡ mode))
  unfolding set_status set_process_status get_status
  set_status-gates state mode now p t on pos le = elim (Bool-cases (contains valid_states state)) [
    | inr e ↦ rw (set_status, e) (λ h. (refl, refl), λ h. absurd (ground arith))
    | inl e ↦ elim (Bool-cases (contains valid_modes mode)) [
      | inr f ↦ rw (set_status, e, f) (λ h. (refl, refl), λ h. absurd (ground arith))
      | inl f ↦
          rw (set_status, e, f)
            (
              λ h. absurd (ground arith),
              λ h. (pre_hook-set_state_cache state now t p.managed.0 _ on pos le, refl, refl),
            )
    ]
  ]
