-- ===== src/Driver/Modes/Urls.antt =====
-- The setting redis.urls: parseRueidisURLs of internal/driver/redlock/rueidis.go and
-- parseRedisURLs of goredis.go beside it, and the connections that are made of what they return. The
-- parser of one URL is the client library's; that of goredis depends on the mode.
pub mod Panics
use election_agent.Prelude.{
  ℕ, ◌%◌, String, Bool, not, ◌&&◌, ◌||◌, Option, none, some, List, [], ◌∷◌, ◌==◌, ltb, eqb,
  if◌then◌else◌, length,
}
use mathlib.Core.Path.{subst}
use election_agent.Redlock.Shards.{ConnShards}
use election_agent.Driver.Modes.{
  Created, created, invalid, index_panic, add_url, add_urls, create_connections,
}

-- The options of one URL, and those of each of its addresses.
pub record UrlParser : Type 1 where
  pub Options : Type 0
  pub parse : String → Option Options
  pub addresses : Options → List Options

abbrev pub url_error : {A : Type 0} → Created A
url_error = invalid "invalid redis URL"

-- The tests of the number of URLs.
abbrev pub enough_urls : List String → Bool
enough_urls urls = not (ltb (length urls) 3) && eqb (length urls % 3) 0

abbrev pub put_group : {C : Type 0} → List C → Created (List (List C)) → Created (List (List C))
put_group g (created gs) = created (g ∷ gs)
put_group g (invalid m) = invalid m
put_group g index_panic = index_panic

module _ (U : UrlParser) where
  open U use {Options, parse, addresses}

  -- The loop of the modes single and cluster.
  unfoldable pub one_client_each : List String → Created (List (List Options))
  one_client_each [] = created []
  one_client_each (url ∷ urls) =
      let rest = one_client_each urls in
      elim (parse url) [ none ↦ url_error | some o ↦ put_group (o ∷ []) rest ]

  -- The loop of the mode sharding in parseRueidisURLs.
  unfoldable pub rueidis_shards : List String → Created (List (List Options))
  rueidis_shards [] = created []
  rueidis_shards (url ∷ urls) =
      let rest = rueidis_shards urls in
      elim (parse url) [ none ↦ url_error | some o ↦ put_group (addresses o) rest ]

  -- The loop of the mode sharding in parseRedisURLs, with uoptssCount.
  unfoldable pub goredis_shards : ℕ → List String → Created (List (List Options))
  goredis_shards count [] = created []
  goredis_shards count (url ∷ urls) = elim (parse url) [
    | none ↦ url_error
    | some o ↦
        let size = length (addresses o) in
        let rest = goredis_shards size urls in
        if not (eqb count 0) && not (eqb count size)
        then invalid "The number of redis shard nodes must be the same"
        else if ltb size 2
        then invalid "the number of each redis group must be at least 2"
        else put_group (addresses o) rest
  ]

  unfoldable pub parse_rueidis : String → List String → Created (List (List Options))
  unfolding one_client_each rueidis_shards
  parse_rueidis mode urls =
      if mode == "single" || mode == "cluster"
      then (if enough_urls urls then one_client_each urls else invalid "the number of redis urls")
      else if mode == "sharding"
      then (if enough_urls urls then rueidis_shards urls else invalid "the number of redis urls")
      else created []

  unfoldable pub parse_goredis : String → List String → Created (List (List Options))
  unfolding one_client_each goredis_shards
  parse_goredis mode urls =
      if mode == "single" || mode == "cluster"
      then (if enough_urls urls then one_client_each urls else invalid "the number of redis urls")
      else if mode == "sharding"
      then (if enough_urls urls then goredis_shards 0 urls else invalid "the number of redis urls")
      else created []
