-- ===== src/Agent/Laws.antt =====
-- The state cache and the flip of states.
use election_agent.Prelude.{
  ℕ, ◌+◌, ◌≤◌, ◌<◌, String, ◌≡◌, refl, ◌↔◌, inl, inr, false, arith, ◌==◌, eq_iff, Bool-cases,
}
use election_agent.Agent.{active_state, standby_state, State, flip_state, load, store, expired}

-- Flipping a state twice gives it back, whatever the state.
pub flip_state_involutive : (s : String) → flip_state (flip_state s) ≡ s
unfolding flip_state
flip_state_involutive s = elim (Bool-cases (s == active_state)) [
  | inl a ↦ rw ((eq_iff s active_state).0 a)
  | inr a ↦ elim (Bool-cases (s == standby_state)) [
    | inl b ↦ rw ((eq_iff s standby_state).0 b)
    | inr b ↦ rw (a, b) (rw (a, b))
  ]
]

-- A stored state is the one loaded, and is unexpired exactly while a positive ttl has not passed
-- since it was stored.
pub load-store :
    (val : String) (t u : ℕ) (s : State)
    → (load (store val t s) ≡ val)
      × ((expired u (store val t s) ≡ false) ↔ ((0 < s.ttl) × (u ≤ t + s.ttl)))
unfolding load store expired
load-store val t u s = (refl, (λ h. ground arith, λ h. ground arith))
