-- ===== src/Driver/Store.antt =====
-- The key-value operations of RedisKVDriver in internal/driver/redis_driver.go, each of which calls
-- the one of RedLock; the timeout of the context is part of what becomes of the requests.
pub mod Status
pub mod Default
use election_agent.Prelude.{
  ℕ, suc, String, Bool, true, false, Option, none, some, List, [], ◌∷◌, ◌==◌,
}
use election_agent.Errors.{Error, text, Multierror}
use election_agent.Config.{Config, lease_key}
use election_agent.Redlock.Shards.{RedLock}
use election_agent.Redlock.Store.{
  Clients, Turn, get_val, set_val, set_bool, mget_vals, mset_vals, ping_all, is_bool_str_true,
}
use election_agent.Driver.AgentState.{KvStore}

-- pairs ...any
abbrev pub flatten_pairs : List (String × String) → List String
flatten_pairs [] = []
flatten_pairs ((k, v) ∷ kvs) = k ∷ v ∷ flatten_pairs kvs

-- Nothing is answered once the process has ended by a panic.
abbrev pub panicked : Error
panicked = text "panic"

module _ (K : Clients) ⦃lib : Multierror⦄ where
  open K use {Conn, World}

  -- GetHolder
  unfoldable pub get_holder :
      Turn
      → RedLock Conn
      → Config
      → String
      → String
      → World
      → Option (World × (String × Option Error))
  get_holder t r cfg name kind w = get_val K t r (lease_key cfg name kind) w

  -- What GetSetBool makes of the second call.
  abbrev pub default_result : Bool → String × Option Error → ℕ × Option Error → Bool × Option Error
  default_result def_val (val, err) (n, some e) = (def_val, some e)
  default_result def_val (val, err) (n, none) = (is_bool_str_true val, err)

  -- GetSetBool, at the turns of its two calls
  unfoldable pub get_set_bool :
      Turn → Turn → RedLock Conn → String → Bool → World → Option (World × (Bool × Option Error))
  unfolding is_bool_str_true
  get_set_bool t u r key def_val w = elim (get_val K t r key w) [
    | none ↦ none
    | some (w1, (val, err)) ↦ elim (val == "") [
      | false ↦ some (w1, (is_bool_str_true val, err))
      | true ↦ elim (set_bool K u r key def_val w1) [
        | none ↦ none
        | some (w2, out) ↦ some (w2, default_result def_val (val, err) out)
      ]
    ]
  ]

  -- The driver's operations on the quorum store, for what keeps the agent's state in it. Call
  -- number `i` takes the turn `turns i`; the world after a panic is `none`.
  abbrev StoreWorld : Type 0
  StoreWorld = Option (World × ℕ)

  abbrev ended :
      {A : Type 0} → A → ℕ → Option (World × (A × Option Error)) → StoreWorld × (A × Option Error)
  ended a i none = (none, (a, some panicked))
  ended a i (some (w, out)) = (some (w, suc i), out)

  abbrev written : ℕ → Option (World × (ℕ × Option Error)) → StoreWorld × Option Error
  written i none = (none, some panicked)
  written i (some (w, (n, err))) = (some (w, suc i), err)

  -- Get, Set, MGet and MSet
  unfoldable pub store_get :
      (ℕ → Turn) → RedLock Conn → StoreWorld → String → StoreWorld × (String × Option Error)
  store_get turns r none k = (none, ("", some panicked))
  store_get turns r (some (w, i)) k = ended "" i (get_val K (turns i) r k w)

  unfoldable pub store_set :
      (ℕ → Turn) → RedLock Conn → StoreWorld → String → String → StoreWorld × Option Error
  store_set turns r none k v = (none, some panicked)
  store_set turns r (some (w, i)) k v = written i (set_val K (turns i) r k v w)

  unfoldable pub store_mget :
      (ℕ → Turn)
      → RedLock Conn
      → StoreWorld
      → List String
      → StoreWorld × (List String × Option Error)
  store_mget turns r none ks = (none, ([], some panicked))
  store_mget turns r (some (w, i)) ks = ended [] i (mget_vals K (turns i) r ks w)

  unfoldable pub store_mset :
      (ℕ → Turn) → RedLock Conn → StoreWorld → List (String × String) → StoreWorld × Option Error
  store_mset turns r none kvs = (none, some panicked)
  store_mset turns r (some (w, i)) kvs = written i (mset_vals K (turns i) r (flatten_pairs kvs) w)

  abbrev pub quorum_store : (ℕ → Turn) → RedLock Conn → KvStore
  quorum_store turns r = record {
    World = StoreWorld;
    get = store_get turns r;
    set = store_set turns r;
    mget = store_mget turns r;
    mset = store_mset turns r;
  }
