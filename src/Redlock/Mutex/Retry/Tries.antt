-- ===== src/Redlock/Mutex/Retry/Tries.antt =====
-- A lock that LockContext returns without an error is held by a majority.
use election_agent.Prelude.{
  ℕ, zero, suc, ◌+◌, ◌*◌, ◌≤◌, ◌<◌, String, ◌≡◌, refl, sym, ap, ◌∙◌, ◌⊎◌, inl, inr, true, not, ◌&&◌,
  Option, none, List, [], ◌∷◌, arith, leb, eqb, is_some, Bool-cases, length, count_if-perm,
}
use mathlib.Core.Path.{subst}
use election_agent.Errors.{Error, Multierror}
use election_agent.Redis.{RedisServer, ns_per_ms}
use election_agent.Redlock.Quorum.{quorum_of}
use election_agent.Redlock.Quorum.Verdict.{is_ok, act_status_op-n}
use election_agent.Redlock.Script.{Request, same, is_made}
use election_agent.Redlock.Mutex.{
  Float64, Mutex, act_nodes, acquire_accepted, still_valid, expiry_ms,
}
use election_agent.Redlock.Mutex.Exclusion.{ArrivesAll, held, Within, length-act_nodes, ok-le-after}
use election_agent.Redlock.Mutex.Exclusion.Grant.{acquire_accepted-held}
use election_agent.Redlock.Mutex.Retry.{
  Try, connect, locked, attempt, lock_loop, lock_value, lock_context, lock,
}

abbrev AllWithin : ℕ → ℕ → List Request → Type 0
AllWithin lo hi [] = Unit
AllWithin lo hi (r ∷ rs) = (lo ≤ r.at) × (r.at ≤ hi) × (is_made r ≡ true) × AllWithin lo hi rs

-- A try that sends each of `n` servers one request between its start and its end, and gets the
-- replies in some order.
abbrev pub IsTry : ℕ → Try → Type 0
IsTry n t =
    (length t.requests ≡ n)
    × AllWithin t.call.start t.call.now t.requests
    × ArrivesAll t.call.arrival

length-connect :
    {A : Type 0} (rs : List Request) (xs : List A)
    → length rs ≡ length xs
    → length (connect rs xs) ≡ length xs
length-connect [] [] e = refl
length-connect [] (x ∷ xs) e = e
length-connect (r ∷ rs) [] e = refl
length-connect (r ∷ rs) (x ∷ xs) e = ap suc (length-connect rs xs (omega (arith, e)))

module _ (F : Float64) (R : RedisServer) ⦃lib : Multierror⦄ where
  open R use {Server, get}

  Within-connect :
      (lo hi : ℕ) (rs : List Request) (servers : List Server)
      → AllWithin lo hi rs
      → Within R lo hi (connect rs servers)
  Within-connect lo hi [] servers w = tt
  Within-connect lo hi (r ∷ rs) [] w = tt
  Within-connect lo hi (r ∷ rs) (s ∷ servers) (p, q, k, w) =
      (p, q, k, Within-connect lo hi rs servers w)

  attempt-length :
      (m : Mutex F) (value : String) (quorum : ℕ) (t : Try) (servers : List Server)
      → IsTry (length servers) t
      → length (attempt F R m value quorum t servers).0 ≡ length servers
  unfolding attempt
  attempt-length m value quorum t servers (e, _, _) =
      (length-act_nodes R (acquire_accepted R m.name value (expiry_ms F m)) 0
        (connect t.requests servers)).0
      ∙ length-connect t.requests servers e

  -- A try that counts a quorum leaves a majority that shows the caller.
  attempt-held :
      (size quorum : ℕ) (m : Mutex F) (value : String) (t : Try) (servers : List Server) (u : ℕ)
      → 0 < expiry_ms F m
      → IsTry size t
      → let (servers', (n, err)) = attempt F R m value quorum t servers in
        quorum ≤ n
        → t.call.now ≤ u
        → u < t.call.start + expiry_ms F m * ns_per_ms
        → quorum ≤ held R u m.name value servers'
  unfolding attempt
  attempt-held size quorum m value t servers u p (_, w, arr) many lo hi =
      let act = acquire_accepted R m.name value (expiry_ms F m) in
      let conns = connect t.requests servers in
      let rs = (act_nodes R act 0 conns).1 in
      omega (
        arith,
        many,
        (act_status_op-n true quorum (t.call.arrival rs)).0,
        count_if-perm is_ok (arr rs),
        ok-le-after R act t.call.start t.call.now (λ s. same (get s u m.name) value)
            (acquire_accepted-held R m.name value (expiry_ms F m) t.call.start t.call.now u p lo hi)
            0 conns (Within-connect t.call.start t.call.now t.requests servers w),
      )

  -- A majority of `n` servers shows the caller from the end of a try until its start plus the
  -- expiry.
  abbrev pub HeldFrom : ℕ → Mutex F → String → Try → List Server → Type 0
  HeldFrom n m value t servers =
      (u : ℕ)
      → t.call.now ≤ u
      → u < t.call.start + expiry_ms F m * ns_per_ms
      → quorum_of n ≤ held R u m.name value servers

  -- The end of a loop without an error: the try that took the lock.
  abbrev pub Taken :
      ℕ → Mutex F → String → (ℕ → Try) → ℕ → ℕ → (Mutex F × List Server) × Option Error → Type 0
  Taken n m value tries i left out =
      (j : ℕ) × (i ≤ j)
      × (j < i + left)
      × (out.0.0.value ≡ value)
      × (still_valid F m (tries j).call ≡ true)
      × HeldFrom n m value (tries j) out.0.1

  later :
      (n : ℕ) (m : Mutex F) (value : String) (tries : ℕ → Try) (i left : ℕ)
      (out : (Mutex F × List Server) × Option Error)
      → Taken n m value tries (suc i) left out
      → Taken n m value tries i (suc left) out
  later n m value tries i left out (j, lo, hi, v, valid, from) =
      (j, omega (arith, lo), omega (arith, hi), v, valid, from)

  lock_loop-Taken :
      (n : ℕ) (m : Mutex F) (value : String) (tries : ℕ → Try) (i left : ℕ) (servers : List Server)
      → 0 < expiry_ms F m
      → ((k : ℕ) → IsTry n (tries k))
      → length servers ≡ n
      → let out = lock_loop F R m value (quorum_of n) tries i left servers in
        out.1 ≡ none → Taken n m value tries i left out
  unfolding lock_loop locked
  lock_loop-Taken n m value tries i zero servers p each size h = absurd (ground arith)
  lock_loop-Taken n m value tries i (suc left) servers p each size h =
      let t = tries i in
      let servers' = (attempt F R m value (quorum_of n) t servers).0 in
      let count = (attempt F R m value (quorum_of n) t servers).1.0 in
      let err = (attempt F R m value (quorum_of n) t servers).1.1 in
      elim (Bool-cases (not (eqb i 0) && t.context_done)) [
        | inl e ↦ absurd (ground (arith, rw (lock_loop, e) at h))
        | inr e ↦ elim (Bool-cases (leb (quorum_of n) count && still_valid F m t.call)) [
          | inl f ↦
              rw (lock_loop, e, locked, f)
                (
                  i,
                  omega arith,
                  omega arith,
                  refl,
                  ground arith,
                  λ u lo hi.
                      attempt-held n (quorum_of n) m value t servers u p (each i) (ground arith) lo
                        hi,
                )
          | inr f ↦ elim (Bool-cases (eqb left 0 && is_some err)) [
            | inl g ↦ absurd (ground (arith, rw (lock_loop, e, locked, f, g) at h))
            | inr g ↦
                rw (lock_loop, e, locked, f, g)
                  (later n m value tries i left
                    (lock_loop F R m value (quorum_of n) tries (suc i) left servers')
                    (lock_loop-Taken n m value tries (suc i) left servers' p each
                      (attempt-length m value (quorum_of n) t servers
                          (subst (λ k. IsTry k t) (sym size) (each i))
                        ∙ size)
                      (rw (lock_loop, e, locked, f, g) at h)))
          ]
        ]
      ]

  value_cases : (v : String ⊎ Error) → ((s : String) × (v ≡ inl s)) ⊎ ((e : Error) × (v ≡ inr e))
  value_cases (inl s) = inl (s, refl)
  value_cases (inr e) = inr (e, refl)

  -- If LockContext returns without an error, one of its tries took the lock: the mutex keeps the
  -- value that was fixed or generated, the validity test of that try held, and a majority of the
  -- servers shows that value from the end of the try until before its start plus the expiry in
  -- whole milliseconds. The expiry is positive, and every try sends each server one request between
  -- its start and its end and gets the replies in some order.
  pub lock-Taken :
      (n : ℕ) (m : Mutex F) (tries : ℕ → Try) (generated : String ⊎ Error) (servers : List Server)
      → 0 < expiry_ms F m
      → ((k : ℕ) → IsTry n (tries k))
      → length servers ≡ n
      → let out = lock F R m (quorum_of n) tries generated servers in
        out.1 ≡ none
        → (value : String) × (lock_value F R m generated ≡ inl value)
          × Taken n m value tries 0 m.tries out
  unfolding lock lock_context
  lock-Taken n m tries generated servers p each size h =
      elim (value_cases (lock_value F R m generated)) [
        | inr (e, f) ↦ absurd (ground (arith, rw (lock, lock_context, f) at h))
        | inl (value, f) ↦
            rw (lock, lock_context, f)
              (
                value,
                refl,
                lock_loop-Taken n m value tries 0 m.tries servers p each size
                    (rw (lock, lock_context, f) at h),
              )
      ]
