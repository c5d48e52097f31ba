-- ===== src/Redlock/Mutex/Retry.antt =====
-- LockContext and lockContext of internal/driver/redlock/mutex.go: tries with a delay between them,
-- until the context is done.
pub mod Tries
use election_agent.Prelude.{
  ℕ, zero, suc, String, ◌⊎◌, inl, inr, Bool, true, not, ◌&&◌, Option, none, some, List, [], ◌∷◌,
  leb, eqb, if◌then◌else◌, is_some,
}
use election_agent.Errors.{Error, failed, Multierror}
use election_agent.Redis.{RedisServer}
use election_agent.Redlock.Quorum.{Reply, act_status_op}
use election_agent.Redlock.Script.{Request}
use election_agent.Redlock.Mutex.{
  Float64, Mutex, Call, Conn, act_nodes, acquire_accepted, still_valid, expiry_ms,
}

-- One try: its call, what becomes of the requests, and whether the context was done in the delay
-- before it; the delay before the first try is skipped.
pub record Try : Type 0 where
  pub call : Call
  pub requests : List Request
  pub context_done : Bool

-- The connections of a try: its requests to the servers as they are.
abbrev pub connect : {A : Type 0} → List Request → List A → List (Request × A)
connect (r ∷ rs) (s ∷ servers) = (r, s) ∷ connect rs servers
connect _ _ = []

module _ (F : Float64) (R : RedisServer) ⦃lib : Multierror⦄ where
  open R use {Server}

  -- The test at the end of a try: n >= quorum && now.Before(until)
  unfoldable pub locked : Mutex F → ℕ → Call → ℕ → Bool
  unfolding still_valid
  locked m quorum c n = leb quorum n && still_valid F m c

  -- The requests of one try.
  unfoldable pub attempt :
      Mutex F → String → ℕ → Try → List Server → List Server × (ℕ × Option Error)
  unfolding act_nodes acquire_accepted
  attempt m value quorum t servers =
      let (servers', replies) =
        act_nodes R (acquire_accepted R m.name value (expiry_ms F m)) 0
          (connect t.requests servers) in
      (servers', act_status_op true quorum (t.call.arrival replies))

  -- The loop from try `i` on; `left` tries are left, of `i + left`.
  unfoldable pub lock_loop :
      Mutex F
      → String
      → ℕ
      → (ℕ → Try)
      → ℕ
      → ℕ
      → List Server
      → (Mutex F × List Server) × Option Error
  unfolding attempt locked
  lock_loop m value quorum tries i zero servers = ((m, servers), some failed)
  lock_loop m value quorum tries i (suc left) servers =
      let t = tries i in
      let (servers', (n, err)) = attempt m value quorum t servers in
      let rest = lock_loop m value quorum tries (suc i) left servers' in
      if not (eqb i 0) && t.context_done
      then ((m, servers), some failed)
      else if locked m quorum t.call n
      then ((record m { value = value }, servers'), none)
      else if eqb left 0 && is_some err
      then ((m, servers'), err)
      else rest

  -- The value that lockContext chooses first; `generated` is what genValue returns.
  unfoldable pub lock_value : Mutex F → String ⊎ Error → String ⊎ Error
  lock_value m generated = if m.random_value then generated else inl m.value

  -- lockContext
  unfoldable pub lock_context :
      Mutex F
      → ℕ
      → (ℕ → Try)
      → ℕ
      → String ⊎ Error
      → List Server
      → (Mutex F × List Server) × Option Error
  unfolding lock_loop lock_value
  lock_context m quorum tries count generated servers = elim (lock_value m generated) [
    | inl value ↦ lock_loop m value quorum tries 0 count servers
    | inr e ↦ ((m, servers), some e)
  ]

  -- LockContext
  unfoldable pub lock :
      Mutex F
      → ℕ
      → (ℕ → Try)
      → String ⊎ Error
      → List Server
      → (Mutex F × List Server) × Option Error
  unfolding lock_context
  lock m quorum tries generated servers = lock_context m quorum tries m.tries generated servers
