-- ===== src/Redlock/Quorum.antt =====
-- actStatusOpAsync of internal/driver/redlock/redlock.go: one reply from each connection, counted
-- in the order in which the replies arrive on the channel.
pub mod Verdict
pub mod Content
use election_agent.Prelude.{
  ℕ, String, ◌+◌, ◌/◌, List, [], ◌∷◌, ◌++◌, Bool, ◌&&◌, Option, none, some, ltb, leb, length,
  if◌then◌else◌,
}
use election_agent.Errors.{
  Error, lock_already_expired, redlock_taken, node_taken, redis_error, errorf, Multierror,
}
use election_agent.Errors.Walk.{as_any, is_expired}

-- The struct `result`.
pub record Reply : Type 0 where
  pub node : ℕ
  pub status_ok : Bool
  pub err : Option Error

-- The loop's variables n, taken and err.
pub record Tally : Type 0 where
  pub n : ℕ
  pub taken : List ℕ
  pub err : Option Error

abbrev pub no_replies : Tally
no_replies = record { n = 0; taken = []; err = none }

-- r.quorum = len(r.connShards[0])/2 + 1
abbrev pub quorum_of : ℕ → ℕ
quorum_of conn_size = conn_size / 2 + 1

abbrev pub short_message : String
short_message = "The number of success operations < quorum,"

module _ ⦃lib : Multierror⦄ where
  count_failure : ℕ → Error → Tally → Tally
  unfolding as_any
  count_failure node e t =
      if as_any is_expired e
      then record t { err = some (lib.append t.err lock_already_expired) }
      else record t { err = some (lib.append t.err (redis_error node e)) }

  count_taken : ℕ → Tally → Tally
  count_taken node t = record t {
    taken = t.taken ++ node ∷ [];
    err = some (lib.append t.err (node_taken node));
  }

  refused : ℕ → Option Error → Tally → Tally
  unfolding count_failure count_taken
  refused node (some e) t = count_failure node e t
  refused node none t = count_taken node t

  -- The body of the collecting loop, up to the test of failFast.
  unfoldable pub count_reply : Tally → Reply → Tally
  unfolding refused
  count_reply t r = if r.status_ok then record t { n = t.n + 1 } else refused r.node r.err t

  -- What follows the loop.
  unfoldable pub conclude : ℕ → Tally → ℕ × Option Error
  conclude quorum t =
      if leb quorum (length t.taken)
      then (t.n, some (redlock_taken t.taken))
      else if ltb t.n quorum
      then (t.n, some (errorf short_message t.err))
      else (t.n, none)

  -- The test of failFast inside the loop, and the rest of the loop.
  unfoldable pub stop_or_go : Bool → ℕ → Tally → ℕ × Option Error → ℕ × Option Error
  stop_or_go fail_fast quorum t rest =
      if fail_fast && leb quorum (length t.taken) then (t.n, some (redlock_taken t.taken)) else rest

  unfoldable pub collect : Bool → ℕ → Tally → List Reply → ℕ × Option Error
  unfolding count_reply conclude stop_or_go
  collect fail_fast quorum t [] = conclude quorum t
  collect fail_fast quorum t (r ∷ rs) =
      let t' = count_reply t r in stop_or_go fail_fast quorum t' (collect fail_fast quorum t' rs)

  unfoldable pub act_status_op : Bool → ℕ → List Reply → ℕ × Option Error
  unfolding collect
  act_status_op fail_fast quorum replies = collect fail_fast quorum no_replies replies
