-- ===== src/Lease/Manager/Gate.antt =====
-- The state that gates the operations on leases: what a read of it stores, and how fresh it is.
use election_agent.Prelude.{
  ℕ, ◌+◌, ◌≤◌, ◌<◌, String, ◌≡◌, refl, sym, ap, inl, inr, true, false, not, Option, none, some,
  arith, if◌then◌else◌, Bool-cases,
}
use mathlib.Core.Path.{subst}
use election_agent.Errors.{Error}
use election_agent.Agent.{State, load, store, expired}
use election_agent.Redlock.Mutex.{Float64}
use election_agent.Driver.AgentState.{KvStore, InfoKeys, get_agent_state}
use election_agent.Lease.{RedisLease}
use election_agent.Lease.Cache.{TwoQueueCache, Hasher, LeaseManager}
use election_agent.Lease.Manager.{Clock, Managed, set_state_cache, refresh, get_state}

not_expired : (now : ℕ) (s : State) → 0 < s.ttl → expired now s ≡ false → now ≤ s.last + s.ttl
unfolding expired
not_expired now s pos h = ground arith

module _ (F : Float64) (H : Hasher) (C : TwoQueueCache (RedisLease F)) (K : KvStore)
    (keys : InfoKeys) where
  refresh-fresh :
      (now : ℕ) (lm : LeaseManager F H C) (r : K.World × (String × Option Error))
      → let ((lm', w), state) = refresh F H C K keys now lm r in
        (state ≡ lm'.state.val) × (lm'.state.last ≡ now)
  unfolding refresh set_state_cache load store
  refresh-fresh now lm (w, (state, some e)) = (refl, refl)
  refresh-fresh now lm (w, (state, none)) = (refl, refl)

  pub get_state-cases :
      (t : Clock) (lm : LeaseManager F H C) (w : K.World)
      → lm.cfg.zone_enable ≡ true
      → get_state F H C K keys t (lm, w) ≡ (
          if expired t.checked lm.state
          then refresh F H C K keys t.stored lm (get_agent_state K keys w)
          else ((lm, w), lm.state.val))
  unfolding get_state load
  get_state-cases t lm w on =
      ap
        (λ b.
          if not b
          then ((lm, w), lm.cfg.default_state)
          else if expired t.checked lm.state
          then refresh F H C K keys t.stored lm (get_agent_state K keys w)
          else ((lm, w), lm.state.val))
        on

  IsFresh : ℕ → ℕ → Managed F H C K keys × String → Type 0
  IsFresh now ttl ((lm, w), state) = (state ≡ lm.state.val) × (now ≤ lm.state.last + ttl)

  refresh-IsFresh :
      (t : Clock) (lm : LeaseManager F H C) (r : K.World × (String × Option Error))
      → t.checked ≤ t.stored
      → IsFresh t.checked lm.state.ttl (refresh F H C K keys t.stored lm r)
  unfolding IsFresh
  refresh-IsFresh t lm r le =
      let (same, last) = refresh-fresh t.stored lm r in (same, omega (arith, last))

  -- With the zone feature on and a positive ttl, and if the clock does not run backwards, the state
  -- that gates a request is the cached one, and it was stored no longer than the ttl before the
  -- clock was read.
  pub get_state-IsFresh :
      (t : Clock) (lm : LeaseManager F H C) (w : K.World)
      → lm.cfg.zone_enable ≡ true
      → 0 < lm.state.ttl
      → t.checked ≤ t.stored
      → let ((lm', w'), state) = get_state F H C K keys t (lm, w) in
        (state ≡ lm'.state.val) × (t.checked ≤ lm'.state.last + lm.state.ttl)
  unfolding IsFresh
  get_state-IsFresh t lm w on pos le =
      subst (IsFresh t.checked lm.state.ttl) (sym (get_state-cases t lm w on))
        (elim (Bool-cases (expired t.checked lm.state)) [
          | inl e ↦
              subst
                (λ b. IsFresh t.checked lm.state.ttl (
                  if b
                  then refresh F H C K keys t.stored lm (get_agent_state K keys w)
                  else ((lm, w), lm.state.val)))
                (sym e) (refresh-IsFresh t lm (get_agent_state K keys w) le)
          | inr e ↦
              subst
                (λ b. IsFresh t.checked lm.state.ttl (
                  if b
                  then refresh F H C K keys t.stored lm (get_agent_state K keys w)
                  else ((lm, w), lm.state.val)))
                (sym e) (refl, not_expired t.checked lm.state pos e)
        ])
