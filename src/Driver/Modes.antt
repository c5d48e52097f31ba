-- ===== src/Driver/Modes.antt =====
-- The connections of RedisKVDriver in internal/driver/redis_driver.go under its operation modes,
-- and how CreateRueidisConnections and CreateGoredisConnections group them. An index out of range
-- is a panic, `none`.
pub mod Primary
pub mod Urls
use election_agent.Prelude.{
  ℕ, String, Bool, true, false, Option, none, some, List, [], ◌∷◌, ◌++◌, map, ◌==◌, leb,
  if◌then◌else◌, length, get_elem?,
}
use election_agent.Agent.{normal_mode, orphan_mode}
use election_agent.Redlock.Shards.{ConnGroup, ConnShards, RedLock, set_conn_shards}

-- A result that may be an error, or a panic.
pub data Created (A : Type 0) : Type 0 where
  created : A → Created A
  invalid : String → Created A
  index_panic : Created A

module _ (C : Type 0) where
  -- connShards[idx] = append(connShards[idx], conn) for each connection of one URL
  add_url : ConnShards C → List C → Option (ConnShards C)
  add_url shards [] = some shards
  add_url [] (c ∷ cs) = none
  add_url (g ∷ gs) (c ∷ cs) = elim (add_url gs cs) [
    | none ↦ none
    | some gs' ↦ some ((g ++ c ∷ []) ∷ gs')
  ]

  add_urls : ConnShards C → List (List C) → Option (ConnShards C)
  unfolding add_url
  add_urls shards [] = some shards
  add_urls shards (u ∷ us) = elim (add_url shards u) [
    | none ↦ none
    | some shards' ↦ add_urls shards' us
  ]

  -- Each URL comes with the connections to its addresses.
  unfoldable pub create_connections : ℕ → List (List C) → Created (ConnShards C)
  unfolding add_urls
  create_connections primary [] = invalid "Needs at least one redis URL"
  create_connections primary (u ∷ us) =
      if leb (length (u ∷ us)) primary
      then invalid "The value of redis.primary is out of range"
      else elim (add_urls (map (λ _. []) u) (u ∷ us)) [
        | none ↦ index_panic
        | some shards ↦ created shards
      ]

  pub record RedisKvDriver : Type 0 where
    pub conn_shards : ConnShards C
    pub mode : String
    pub rlock : RedLock C
    pub primary : ℕ

  locked : RedisKvDriver → Option (RedLock C) → Option RedisKvDriver
  locked d none = none
  locked d (some r) = some (record d { rlock = r })

  -- rd.rlock.SetConnShards with the primary's shard, or with all
  use_shards : List (ConnGroup C → ConnGroup C) → RedisKvDriver → Option RedisKvDriver
  unfolding locked
  use_shards shuffles d =
      if d.mode == orphan_mode
      then elim (get_elem? d.conn_shards d.primary) [
        | none ↦ none
        | some g ↦ locked d (set_conn_shards C shuffles (g ∷ []))
      ]
      else locked d (set_conn_shards C shuffles d.conn_shards)

  -- NewRedisKVDriver, up to the lock
  unfoldable pub new_driver :
      List (ConnGroup C → ConnGroup C) → ℕ → List (List C) → Created RedisKvDriver
  unfolding create_connections
  new_driver shuffles primary urls = elim (create_connections primary urls) [
    | invalid m ↦ invalid m
    | index_panic ↦ index_panic
    | created [] ↦ index_panic
    | created (g ∷ gs) ↦
        if leb (length g) primary
        then invalid "The primary index is out of range"
        else elim (set_conn_shards C shuffles (g ∷ gs)) [
          | none ↦ index_panic
          | some r ↦
              created
                (record { conn_shards = g ∷ gs; mode = normal_mode; rlock = r; primary = primary })
        ]
  ]

  -- SetOperationMode
  unfoldable pub set_operation_mode :
      List (ConnGroup C → ConnGroup C) → String → RedisKvDriver → Option RedisKvDriver
  unfolding use_shards
  set_operation_mode shuffles mode d =
      if d.mode == mode then some d else use_shards shuffles (record d { mode = mode })

  -- RebuildConnections, with the new connections if they can be made
  unfoldable pub rebuild_connections :
      List (ConnGroup C → ConnGroup C)
      → Created (ConnShards C)
      → RedisKvDriver
      → Option (RedisKvDriver × Bool)
  unfolding use_shards
  rebuild_connections shuffles (invalid m) d = some (d, false)
  rebuild_connections shuffles index_panic d = none
  rebuild_connections shuffles (created shards) d =
      elim (use_shards shuffles (record d { conn_shards = shards })) [
        | none ↦ none
        | some d' ↦ some (d', true)
      ]
