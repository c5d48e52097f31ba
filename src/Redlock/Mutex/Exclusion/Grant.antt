-- ===== src/Redlock/Mutex/Exclusion/Grant.antt =====
-- A granted lock is in a majority of the servers until its expiry.
use native.Mathlib.Nat.{le_trans, le_of_eq}
use mathlib.Core.Path.{subst}
use election_agent.Prelude.{
  ℕ, ◌+◌, ◌*◌, ◌≤◌, ◌<◌, String, ◌≡◌, refl, sym, ◌∙◌, ◌≢◌, true, false, Option, none, some, List,
  arith, eq_iff, eq_refl, length, count_if, count_if-perm, length-perm,
}
use election_agent.Errors.{Error, Multierror}
use election_agent.Redis.{RedisServer, ns_per_ms}
use election_agent.Redlock.Quorum.{Reply, quorum_of, act_status_op}
use election_agent.Redlock.Quorum.Verdict.{is_ok, act_status_op-none_iff}
use election_agent.Redlock.Script.{Request, same, is_made, acquire, acquire_script}
use election_agent.Redlock.Script.Effect.{free_for, acquire_script-reply, get-acquire_script}
use election_agent.Redlock.Mutex.{
  Float64, Mutex, Call, Conn, act_nodes, acquire_accepted, try_lock_value, expiry_ms, lock_result,
}
use election_agent.Redlock.Mutex.Exclusion.{
  ArrivesAll, held, Within, servers_of, length-act_nodes, ok-le-after, ok-add-before-le, same_iff,
}

module _ (R : RedisServer) where
  open R use {Server, get, get-earlier}

  -- An acquire that is answered with success found the key free for the caller.
  acquire-ok :
      (key value : String) (ms : ℕ) (r : Request) (s : Server)
      → 0 < ms
      → is_made r ≡ true
      → (acquire R key value ms r s).1.0 ≡ true
      → (free_for (get s r.at key) value ≡ true)
        × ((acquire R key value ms r s).0 ≡ (acquire_script R key value ms r.at s).0)
  unfolding acquire
  acquire-ok key value ms r s p k h = ground (arith, acquire_script-reply R key value ms r.at s p)

  -- After it the key is the caller's until it expires.
  pub acquire_accepted-held :
      (key value : String) (ms lo hi u : ℕ)
      → 0 < ms
      → hi ≤ u
      → u < lo + ms * ns_per_ms
      → (r : Request) (s : Server) → lo ≤ r.at
      → r.at ≤ hi
      → is_made r ≡ true
      → (acquire_accepted R key value ms r s).1.0 ≡ true
      → same (get (acquire_accepted R key value ms r s).0 u key) value ≡ true
  unfolding acquire_accepted
  acquire_accepted-held key value ms lo hi u p hu ul r s l h k ok = ground (
    arith,
    acquire-ok key value ms r s p k,
    get-acquire_script R key key value ms r.at u s (le_trans h hu) p,
    eq_refl key,
    eq_refl value,
  )

  -- A server that shows another holder at a later time refuses.
  pub acquire_accepted-refuses :
      (key value holder : String) (ms hi u : ℕ)
      → 0 < ms
      → hi ≤ u
      → value ≢ holder
      → (r : Request) (s : Server) → r.at ≤ hi
      → is_made r ≡ true
      → same (get s u key) holder ≡ true
      → (acquire_accepted R key value ms r s).1.0 ≡ false
  unfolding acquire_accepted
  acquire_accepted-refuses key value holder ms hi u p hu ne r s h k g = ground (
    arith,
    acquire-ok key value ms r s p k,
    get-earlier s r.at u key holder (le_trans h hu),
    eq_iff holder value,
    same_iff (get s u key) holder,
  )

module _ (F : Float64) (R : RedisServer) ⦃lib : Multierror⦄ where
  open R use {Server, get}

  -- An error-free lock has its quorum of successes.
  lock_result-none :
      (m : Mutex F) (c : Call) (rs : List Reply)
      → lock_result F m (quorum_of (length rs)) c (act_status_op true (quorum_of (length rs)) rs)
        ≡ none
      → quorum_of (length rs) ≤ count_if is_ok rs
  lock_result-none m c rs h =
      let q = quorum_of (length rs) in
      (act_status_op-none_iff true rs).0 (result_none (act_status_op true q rs) h)
    where
      result_none :
          (out : ℕ × Option Error)
          → lock_result F m (quorum_of (length rs)) c out ≡ none
          → out.1 ≡ none
      result_none (n, none) e = refl
      result_none (n, some x) e = absurd (ground arith)

  -- A lock that ends without an error, with a positive expiry, connections that make their
  -- requests, executed between start and now if at all, and replies in any order, is shown for its
  -- holder by a majority of the servers at every time from now until before start plus the expiry
  -- in whole milliseconds.
  pub try_lock_value-held :
      (m : Mutex F) (value : String) (c : Call) (conns : List (Conn R)) (u : ℕ)
      → 0 < expiry_ms F m
      → ArrivesAll c.arrival
      → Within R c.start c.now conns
      → (try_lock_value F R m value (quorum_of (length conns)) c conns).1 ≡ none
      → c.now ≤ u
      → u < c.start + expiry_ms F m * ns_per_ms
      → quorum_of (length conns)
        ≤ held R u m.name value (try_lock_value F R m value (quorum_of (length conns)) c conns).0
  unfolding try_lock_value
  try_lock_value-held m value c conns u p arr w h lo hi =
      let act = acquire_accepted R m.name value (expiry_ms F m) in
      let out = act_nodes R act 0 conns in
      let size = length-perm (arr out.1) ∙ (length-act_nodes R act 0 conns).1 in
      let granted = lock_result-none m c (c.arrival out.1) (
        subst
          (λ n.
            lock_result F m (quorum_of n) c (act_status_op true (quorum_of n) (c.arrival out.1))
            ≡ none)
          (sym size) h) in
      let after =
        ok-le-after R act c.start c.now (λ s. same (get s u m.name) value)
          (acquire_accepted-held R m.name value (expiry_ms F m) c.start c.now u p lo hi) 0 conns
          w in
      le_trans (subst (λ n. quorum_of n ≤ count_if is_ok (c.arrival out.1)) size granted)
        (le_trans (le_of_eq (count_if-perm is_ok (arr out.1))) after)

  -- While a majority shows another holder at a time not before the call's last request, the call
  -- ends with an error.
  pub try_lock_value-refused :
      (m : Mutex F) (value holder : String) (c : Call) (conns : List (Conn R)) (u : ℕ)
      → 0 < expiry_ms F m
      → value ≢ holder
      → ArrivesAll c.arrival
      → Within R c.start c.now conns
      → c.now ≤ u
      → quorum_of (length conns) ≤ held R u m.name holder (servers_of R conns)
      → (try_lock_value F R m value (quorum_of (length conns)) c conns).1 ≢ none
  unfolding try_lock_value
  try_lock_value-refused m value holder c conns u p ne arr w hu q h =
      let act = acquire_accepted R m.name value (expiry_ms F m) in
      let out = act_nodes R act 0 conns in
      let size = length-perm (arr out.1) ∙ (length-act_nodes R act 0 conns).1 in
      let granted = lock_result-none m c (c.arrival out.1) (
        subst
          (λ n.
            lock_result F m (quorum_of n) c (act_status_op true (quorum_of n) (c.arrival out.1))
            ≡ none)
          (sym size) h) in
      let before =
        ok-add-before-le R act c.start c.now (λ s. same (get s u m.name) holder)
          (λ r s _ r_hi made.
            acquire_accepted-refuses R m.name value holder (expiry_ms F m) c.now u p hu ne r s r_hi
              made)
          0 conns w in
      no_room (length conns) _ _ q
        (le_trans (subst (λ n. quorum_of n ≤ count_if is_ok (c.arrival out.1)) size granted)
          (le_of_eq (count_if-perm is_ok (arr out.1))))
        before
    where
      no_room : (n a b : ℕ) → quorum_of n ≤ b → quorum_of n ≤ a → a + b ≤ n → ⊥
      no_room n a b x y z = omega arith

  pub length-try_lock_value :
      (m : Mutex F) (value : String) (quorum : ℕ) (c : Call) (conns : List (Conn R))
      → length (try_lock_value F R m value quorum c conns).0 ≡ length conns
  unfolding try_lock_value
  length-try_lock_value m value quorum c conns =
      (length-act_nodes R (acquire_accepted R m.name value (expiry_ms F m)) 0 conns).0
