-- ===== src/Redlock/Script.antt =====
-- internal/driver/redlock/mutex_op.go: the four Lua scripts, which a server runs as one step, and
-- the methods of Mutex that evaluate them on one connection.
pub mod Effect
use election_agent.Prelude.{
  ℕ, String, ◌⊎◌, inl, inr, Bool, true, false, not, Option, none, some, ◌==◌, if◌then◌else◌,
  is_some,
}
use election_agent.Prelude.Int.{ℤ, pos, negsuc, eq_int}
use election_agent.Errors.{Error, lock_already_expired}
use election_agent.Redis.{RedisServer}

-- The `any` that Eval returns: an int64 or a status text of a server, or the int that rueidisConn
-- returns without a client.
pub data Value : Type 0 where
  int64 : ℤ → Value
  int : ℤ → Value
  status : String → Value

-- The comparison with an int64, which no int is equal to.
abbrev pub is_int : Value → ℤ → Bool
is_int (int64 a) b = eq_int a b
is_int (int a) b = false
is_int (status s) b = false

abbrev pub is_status : Value → String → Bool
is_status (int64 a) t = false
is_status (int a) t = false
is_status (status s) t = s == t

-- The comparison `redis.call("GET", KEYS[1]) == ARGV[1]`, where a missing key is false.
abbrev pub same : Option String → String → Bool
same none v = false
same (some w) v = w == v

abbrev pub one_or_zero : Bool → Value
one_or_zero true = int64 (pos 1)
one_or_zero false = int64 (pos 0)

-- What becomes of one request: it is answered, it never reaches the server, or it is executed and
-- its answer is lost. Or it is not made: Eval of a rueidisConn that finds no client returns the int 0
-- and lastErr, which is nil if the goroutine has made a client by then. `at` is the server's time
-- at which it is executed.
pub data Fate : Type 0 where
  answered not_made : Fate
  dropped lost : Error → Fate

pub record Request : Type 0 where
  pub fate : Fate
  pub at : ℕ
  -- what the connection's NotAcceptLock says when it is asked
  pub not_accept_lock : Bool

-- The connection had a client, or an error without one.
abbrev pub is_made : Request → Bool
is_made r = elim r.fate [ not_made ↦ false | answered ↦ true | dropped e ↦ true | lost e ↦ true ]

module _ (R : RedisServer) where
  open R use {Server, get, set_px, set_px_nx, pexpire, del}

  -- acquireScript, and touchScript, whose body is the same
  unfoldable pub acquire_script : String → String → ℕ → ℕ → Server → Server × Value
  acquire_script key value ms t s =
      if same (get s t key) value
      then ((pexpire s t key ms).0, one_or_zero (pexpire s t key ms).1)
      else ((set_px_nx s t key value ms).0, one_or_zero (set_px_nx s t key value ms).1)

  unfoldable pub touch_script : String → String → ℕ → ℕ → Server → Server × Value
  touch_script key value ms t s =
      if same (get s t key) value
      then ((pexpire s t key ms).0, one_or_zero (pexpire s t key ms).1)
      else ((set_px_nx s t key value ms).0, one_or_zero (set_px_nx s t key value ms).1)

  unfoldable pub delete_script : String → String → ℕ → Server → Server × Value
  delete_script key value t s =
      if same (get s t key) value
      then ((del s t key).0, one_or_zero (del s t key).1)
      else if is_some (get s t key)
      then (s, int64 (pos 0))
      else (s, int64 (negsuc 0))

  unfoldable pub handover_script : String → String → ℕ → ℕ → Server → Server × Value
  handover_script key value ms t s = (set_px s t key value ms, status "OK")

  -- conn.Eval: the server after the request, and the answer or the error.
  eval : Request → (ℕ → Server → Server × Value) → Server → Server × (Value ⊎ Error)
  eval r script s = elim r.fate [
    | answered ↦ ((script r.at s).0, inl (script r.at s).1)
    | not_made ↦ (s, inl (int (pos 0)))
    | dropped e ↦ (s, inr e)
    | lost e ↦ ((script r.at s).0, inr e)
  ]

  abbrev not_zero : Value ⊎ Error → Bool × Option Error
  not_zero (inr e) = (false, some e)
  not_zero (inl v) = (not (is_int v (pos 0)), none)

  abbrev released : Value ⊎ Error → Bool × Option Error
  released (inr e) = (false, some e)
  released (inl v) =
      if is_int v (negsuc 0)
      then (false, some lock_already_expired)
      else (not (is_int v (pos 0)), none)

  abbrev is_ok_status : Value ⊎ Error → Bool × Option Error
  is_ok_status (inr e) = (false, some e)
  is_ok_status (inl v) = (is_status v "OK", none)

  unfoldable pub acquire : String → String → ℕ → Request → Server → Server × (Bool × Option Error)
  unfolding eval
  acquire key value ms r s =
      let (s', out) = eval r (acquire_script key value ms) s in (s', not_zero out)

  unfoldable pub release : String → String → Request → Server → Server × (Bool × Option Error)
  unfolding eval
  release key value r s = let (s', out) = eval r (delete_script key value) s in (s', released out)

  unfoldable pub touch : String → String → ℕ → Request → Server → Server × (Bool × Option Error)
  unfolding eval
  touch key value ms r s =
      let (s', out) = eval r (touch_script key value ms) s in (s', not_zero out)

  unfoldable pub handover : String → String → ℕ → Request → Server → Server × (Bool × Option Error)
  unfolding eval
  handover key value ms r s =
      let (s', out) = eval r (handover_script key value ms) s in (s', is_ok_status out)
