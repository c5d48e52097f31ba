-- ===== src/Redlock/Mutex/Exclusion/Leader.antt =====
-- One leader at a time.
use election_agent.Prelude.{
  ℕ, ◌+◌, ◌*◌, ◌≤◌, ◌<◌, String, ◌≡◌, sym, ap, ◌∙◌, ◌≢◌, inl, inr, false, none, List, [], ◌∷◌,
  arith, ◌==◌, eq_iff, Bool-cases, length,
}
use native.Mathlib.Nat.{le_refl, le_trans}
use mathlib.Core.Path.{subst}
use election_agent.Errors.{Multierror}
use election_agent.Redis.{RedisServer, ns_per_ms}
use election_agent.Redlock.Quorum.{quorum_of}
use election_agent.Redlock.Mutex.{Float64, Mutex, Call, Conn, try_lock, try_lock_value, expiry_ms}
use election_agent.Redlock.Mutex.Exclusion.{
  ArrivesAll, held, Within, servers_of, length-servers_of, same_iff,
}
use election_agent.Redlock.Mutex.Exclusion.Grant.{
  try_lock_value-held, try_lock_value-refused, length-try_lock_value,
}
use election_agent.Redlock.Mutex.Exclusion.Rivals.{Steps, Steps-held, Steps-length}

module _ (R : RedisServer) where
  open R use {Server, get}

  held-add-le :
      (u : ℕ) (key a b : String) (ss : List Server)
      → a ≢ b
      → held R u key a ss + held R u key b ss ≤ length ss
  held-add-le u key a b [] ne = omega arith
  held-add-le u key a b (s ∷ ss) ne =
      ground
        (arith, held-add-le u key a b ss ne, same_iff (get s u key) a, same_iff (get s u key) b)

  -- Two holders that a majority of the same servers shows for one key at one time are the same.
  pub one_majority :
      (u : ℕ) (key a b : String) (ss : List Server)
      → quorum_of (length ss) ≤ held R u key a ss
      → quorum_of (length ss) ≤ held R u key b ss
      → a ≡ b
  one_majority u key a b ss h k = elim (Bool-cases (a == b)) [
    | inl e ↦ (eq_iff a b).0 e
    | inr e ↦ absurd (omega (arith, held-add-le u key a b ss (λ p. ground (arith, eq_iff a b))))
  ]

module _ (F : Float64) (R : RedisServer) ⦃lib : Multierror⦄ where
  open R use {Server}

  try_lock-eq :
      (m : Mutex F) (quorum : ℕ) (c : Call) (conns : List (Conn R))
      → m.random_value ≡ false
      → try_lock F R m quorum c conns ≡ try_lock_value F R m m.value quorum c conns
  unfolding try_lock
  try_lock-eq m quorum c conns h = rw h

  -- One leader at a time: once TryLockContext has granted a key to a holder without an error,
  -- another holder's TryLockContext for the same key ends with an error, if it ends no earlier than
  -- the first call and before the first call's start plus the expiry in whole milliseconds. Both
  -- use a fixed value and a positive expiry, every connection of a call makes its request, which is
  -- executed between the call's start and its end if at all, and the replies arrive in any order.
  -- In between rivals may acquire, touch and delete any key, a key other than this one may be
  -- handed over, the holder may extend the lock for longer, servers may be listed in another order
  -- and requests may be lost; nobody hands over or releases the lock itself.
  pub no_second_leader :
      (mine theirs : Mutex F) (c d : Call) (conns : List (Conn R)) (rivals : List (Conn R))
      → mine.random_value ≡ false
      → theirs.random_value ≡ false
      → theirs.name ≡ mine.name
      → theirs.value ≢ mine.value
      → 0 < expiry_ms F mine
      → 0 < expiry_ms F theirs
      → ArrivesAll c.arrival
      → ArrivesAll d.arrival
      → Within R c.start c.now conns
      → Within R d.start d.now rivals
      → c.now ≤ d.now
      → d.now < c.start + expiry_ms F mine * ns_per_ms
      → (try_lock F R mine (quorum_of (length conns)) c conns).1 ≡ none
      → Steps R mine.name mine.value d.now
          (try_lock F R mine (quorum_of (length conns)) c conns).0
          (servers_of R rivals)
      → (try_lock F R theirs (quorum_of (length rivals)) d rivals).1 ≢ none
  no_second_leader mine theirs c d conns rivals fm ft name ne p q ac ad w w' lo hi won steps lost =
      let q_mine = quorum_of (length conns) in
      let e = try_lock-eq mine q_mine c conns fm in
      let granted = ap (λ o. o.1) (sym e) ∙ won in
      let before = try_lock_value-held F R mine mine.value c conns d.now p ac w granted lo hi in
      let after =
        Steps-held R mine.name mine.value d.now
          (subst (λ o. Steps R mine.name mine.value d.now o.0 (servers_of R rivals)) e steps) in
      let size =
        sym (length-try_lock_value F R mine mine.value q_mine c conns)
        ∙ ap (λ o. length o.0) (sym e)
        ∙ Steps-length R mine.name mine.value d.now steps
        ∙ length-servers_of R rivals in
      try_lock_value-refused F R theirs theirs.value mine.value d rivals d.now q ne ad w'
        (le_refl _)
        (subst (λ k. quorum_of (length rivals) ≤ held R d.now k mine.value (servers_of R rivals))
          (sym name)
          (subst (λ n. quorum_of n ≤ held R d.now mine.name mine.value (servers_of R rivals)) size
            (le_trans before after)))
        (ap (λ o. o.1) (sym (try_lock-eq theirs _ d rivals ft)) ∙ lost)
