-- ===== src/Lease/Cache.antt =====
-- The lease cache of internal/lease/lease_mgr.go, with NewLease of internal/lease/redis_lease.go
-- and LeaseID and NewMutex of internal/driver/redis_driver.go.
pub mod Sharing
use election_agent.Prelude.{
  ℕ, zero, suc, ◌/◌, ◌%◌, String, ◌<>◌, ◌≡◌, ◌⊎◌, Option, none, some, List, [], ◌∷◌, ltb, eqb,
  if◌then◌else◌, get_elem?,
}
use election_agent.Config.{Config, lease_key, kind_or_default}
use election_agent.Agent.{State, new_state, store}
use election_agent.Redlock.Mutex.{
  Float64, Mutex, MutexOption, with_expiry, with_tries, with_timeout_factor, new_mutex,
}
use election_agent.Lease.{RedisLease}

-- lru.TwoQueueCache of hashicorp/golang-lru: Get moves an entry, and Add may evict others.
pub record TwoQueueCache (L : Type 0) : Type 1 where
  pub Cache : Type 0
  pub peek : Cache → ℕ → Option L
  pub touch : Cache → ℕ → Cache
  pub add : Cache → ℕ → L → Cache
  pub remove : Cache → ℕ → Cache
  pub peek-touch : (c : Cache) (i j : ℕ) → peek (touch c i) j ≡ peek c j
  pub peek-add : (c : Cache) (i : ℕ) (l : L) → peek (add c i l) i ≡ some l
  pub peek-add-other :
      (c : Cache) (i j : ℕ) (l m : L)
      → peek (add c i l) j ≡ some m
      → ((i ≡ j) × (l ≡ m)) ⊎ (peek c j ≡ some m)
  pub peek-remove : (c : Cache) (i j : ℕ) (m : L) → peek (remove c i) j ≡ some m → peek c j ≡ some m

-- The parameters of a lease.
pub record LeaseArgs : Type 0 where
  pub name : String
  pub kind : String
  pub holder : String
  pub ttl : ℕ

-- strconv.FormatInt(n, 16) of a duration that is not negative: an int64 has at most 16 digits.
abbrev hex_names : List String
hex_names =
    "0" ∷ "1" ∷ "2" ∷ "3" ∷ "4" ∷ "5" ∷ "6" ∷ "7" ∷ "8" ∷ "9" ∷ "a" ∷ "b" ∷ "c" ∷ "d" ∷ "e" ∷ "f"
    ∷ []

abbrev hex_digit : ℕ → String
hex_digit n = elim (get_elem? hex_names n) [ none ↦ "" | some d ↦ d ]

hex_digits : ℕ → ℕ → String → String
hex_digits zero n acc = acc
hex_digits (suc fuel) n acc =
    let rest = hex_digits fuel (n / 16) (hex_digit (n % 16) <> acc) in
    if ltb n 16 then hex_digit n <> acc else rest

pub format_hex : ℕ → String
unfolding hex_digits
format_hex n = hex_digits 16 n ""

-- The hasher of dolthub/maphash.
pub record Hasher : Type 0 where
  pub hash : String → ℕ

module _ (F : Float64) (H : Hasher) (C : TwoQueueCache (RedisLease F)) where
  -- LeaseManager; the driver is in the parameters of the operations
  pub record LeaseManager : Type 0 where
    pub cfg : Config
    pub state : State
    pub cache : C.Cache

  -- NewLeaseManager, at a time; `new_2q` is lru.New2Q. Without lease.cache nothing is made, and the
  -- cache is never looked at.
  unfoldable pub new_lease_manager : Config → ℕ → (ℕ → C.Cache) → ℕ → LeaseManager
  unfolding new_state store
  new_lease_manager cfg cache_size new_2q now = record {
    cfg = cfg;
    state = store cfg.default_state now (new_state cfg.default_state cfg.state_cache_ttl now);
    cache = new_2q (if eqb cache_size 0 then 4192 else cache_size);
  }

  -- RedisKVDriver.LeaseID
  unfoldable pub lease_id : Config → LeaseArgs → ℕ
  unfolding format_hex
  lease_id cfg a = H.hash (lease_key cfg a.name a.kind <> a.holder <> format_hex a.ttl)

  -- RedisKVDriver.NewMutex
  unfoldable pub driver_mutex : Config → LeaseArgs → Mutex F
  driver_mutex cfg a =
      new_mutex F (lease_key cfg a.name a.kind) a.holder
        (with_expiry a.ttl ∷ with_tries 1 ∷ with_timeout_factor F.f_0_2 ∷ [])

  unfoldable pub new_lease : Config → LeaseArgs → RedisLease F
  unfolding driver_mutex lease_id
  new_lease cfg a =
      let kind = kind_or_default a.kind in
      record {
        mutex = driver_mutex cfg (record a { kind = kind });
        kind = kind;
        id = lease_id cfg (record a { kind = kind });
      }

  -- The two ways out of getLease with the cache on.
  unfoldable pub cached_or_new :
      ℕ → LeaseArgs → LeaseManager → Option (RedisLease F) → LeaseManager × RedisLease F
  unfolding new_lease
  cached_or_new id a lm (some l) = (record lm { cache = C.touch lm.cache id }, l)
  cached_or_new id a lm none =
      let l = new_lease lm.cfg a in (record lm { cache = C.add lm.cache id l }, l)

  unfoldable pub get_lease : LeaseArgs → LeaseManager → LeaseManager × RedisLease F
  unfolding cached_or_new
  get_lease a lm =
      if lm.cfg.lease_cache
      then cached_or_new (lease_id lm.cfg a) a lm (C.peek lm.cache (lease_id lm.cfg a))
      else (lm, new_lease lm.cfg a)
