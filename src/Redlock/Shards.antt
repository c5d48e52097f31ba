-- ===== src/Redlock/Shards.antt =====
-- The connections of RedLock in internal/driver/redlock/redlock.go and conn.go: shards of groups of
-- connections, and a pool of shuffled copies. An index out of range is a panic, `none`.
pub mod Majority
use election_agent.Prelude.{
  ℕ, ◌+◌, String, Option, none, some, List, [], ◌∷◌, map, ◌==◌, eqb, if◌then◌else◌, length,
  get_elem?,
}
use mathlib.Core.Option
use mathlib.Core.List.{flatten}
use election_agent.Redlock.Quorum.{quorum_of}
use election_agent.Redlock.Crc.{conn_idx}

module _ (C : Type 0) where
  abbrev pub ConnGroup : Type 0
  ConnGroup = List C

  abbrev pub ConnShards : Type 0
  ConnShards = List ConnGroup

  pub record RedLock : Type 0 where
    pub shuffle_conn_pool : List ConnShards
    pub conn_shards : ConnShards
    pub quorum : ℕ

  -- ConnShards.Conns
  unfoldable pub conns_of : ConnShards → String → Option ConnGroup
  conns_of s key = if eqb (length s) 1 then get_elem? s 0 else get_elem? s (conn_idx key (length s))

  -- SetConnShards. Each of the ten shuffles swaps the same positions in every group.
  unfoldable pub set_conn_shards : List (ConnGroup → ConnGroup) → ConnShards → Option RedLock
  set_conn_shards shuffles [] = none
  set_conn_shards shuffles (g ∷ gs) = some (record {
    shuffle_conn_pool = map (λ shuffle. map shuffle (g ∷ gs)) shuffles;
    conn_shards = g ∷ gs;
    quorum = quorum_of (length g);
  })

  -- getConns, at the random index `idx` into the pool
  unfoldable pub get_conns : ℕ → RedLock → String → Option (ConnGroup × ℕ)
  unfolding conns_of
  get_conns idx r key = elim (get_elem? r.shuffle_conn_pool idx) [
    | none ↦ none
    | some shards ↦ elim (if key == "" then get_elem? shards 0 else conns_of shards key) [
      | none ↦ none
      | some conns ↦ some (conns, r.quorum)
    ]
  ]

  -- getMasterConns
  unfoldable pub get_master_conns : ℕ → RedLock → Option (ConnGroup × ℕ)
  get_master_conns idx r = elim (get_elem? r.shuffle_conn_pool idx) [
    | none ↦ none
    | some shards ↦ elim (get_elem? shards 0) [ none ↦ none | some conns ↦ some (conns, r.quorum) ]
  ]

  -- GetAllConnCount
  unfoldable pub conn_count : ConnShards → ℕ
  conn_count [] = 0
  conn_count (g ∷ gs) = length g + conn_count gs

  -- getAllConns, at the random index
  unfoldable pub get_all_conns : ℕ → RedLock → Option ConnGroup
  get_all_conns idx r = Option.map flatten (get_elem? r.shuffle_conn_pool idx)
