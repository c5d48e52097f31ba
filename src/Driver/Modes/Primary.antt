-- ===== src/Driver/Modes/Primary.antt =====
-- The setting redis.primary, which is checked as an index of the URLs, and used as an index of the
-- shards.
use election_agent.Prelude.{
  ℕ, zero, suc, ◌<◌, ◌≡◌, refl, sym, ◌∙◌, false, none, some, List, [], ◌∷◌, ◌++◌, map, arith, leb,
  lt→leb, length, get_elem?, length-map,
}
use mathlib.Core.Path.{subst}
use mathlib.Core.List.{append-nil, append_assoc}
use election_agent.Agent.{normal_mode, orphan_mode}
use election_agent.Redlock.Quorum.{quorum_of}
use election_agent.Redlock.Shards.{ConnGroup, set_conn_shards}
use election_agent.Driver.Modes.{
  created, RedisKvDriver, add_urls, create_connections, new_driver, set_operation_mode,
}

get_elem?-past : {A : Type 0} (x : A) (i : ℕ) → 0 < i → get_elem? (x ∷ []) i ≡ none
get_elem?-past x zero h = absurd (omega arith)
get_elem?-past x (suc i) h = refl

module _ (C : Type 0) where
  -- The URLs of the modes `single` and `cluster`: one client for each.
  abbrev pub one_each : List C → List (List C)
  one_each = map (λ c. c ∷ [])

  add_urls-one_each : (g cs : List C) → add_urls C (g ∷ []) (one_each cs) ≡ some ((g ++ cs) ∷ [])
  unfolding add_urls
  add_urls-one_each g [] = rw append-nil
  add_urls-one_each g (c ∷ cs) = add_urls-one_each (g ++ c ∷ []) cs ∙ rw append_assoc

  length-one_each :
      (primary : ℕ) (cs : List C) → primary < length cs → leb (length (one_each cs)) primary ≡ false
  length-one_each primary cs h =
      subst (λ n. leb n primary ≡ false) (sym (length-map cs (λ c. c ∷ [])))
        (lt→leb primary (length cs) h)

  create_connections-one_each :
      (primary : ℕ) (cs : List C)
      → primary < length cs
      → create_connections C primary (one_each cs) ≡ created (cs ∷ [])
  unfolding create_connections
  create_connections-one_each primary [] h = absurd (omega arith)
  create_connections-one_each primary (c ∷ cs) h =
      rw (length-one_each primary (c ∷ cs) h) (rw (add_urls-one_each [] (c ∷ cs)))

  pub new_driver-one_each :
      (shuffles : List (ConnGroup C → ConnGroup C)) (primary : ℕ) (cs : List C)
      → primary < length cs
      → (d : RedisKvDriver C) × (new_driver C shuffles primary (one_each cs) ≡ created d)
        × (d.conn_shards ≡ cs ∷ [])
        × (d.primary ≡ primary)
        × (d.mode ≡ normal_mode)
  unfolding new_driver set_conn_shards
  new_driver-one_each shuffles primary cs h = (
    record {
      conn_shards = cs ∷ [];
      mode = normal_mode;
      rlock = record {
        shuffle_conn_pool = map (λ f. map f (cs ∷ [])) shuffles;
        conn_shards = cs ∷ [];
        quorum = quorum_of (length cs);
      };
      primary = primary;
    },
    rw (new_driver, create_connections-one_each primary cs h) (rw (lt→leb primary (length cs) h)),
    refl,
    refl,
    refl,
  )

  out_of_range :
      (shuffles : List (ConnGroup C → ConnGroup C)) (d : RedisKvDriver C) (cs : List C)
      → d.conn_shards ≡ cs ∷ []
      → d.mode ≡ normal_mode
      → 0 < d.primary
      → set_operation_mode C shuffles orphan_mode d ≡ none
  unfolding set_operation_mode
  out_of_range shuffles d cs shards mode pos =
      rw (mode, shards) (rw (get_elem?-past cs d.primary pos))

  -- With one client for each URL, as in the modes single and cluster, and a primary that is in
  -- range but not the first: the driver is built, and setting orphan mode indexes the shards out of
  -- range.
  pub orphan_panics :
      (shuffles : List (ConnGroup C → ConnGroup C)) (primary : ℕ) (cs : List C)
      → 0 < primary
      → primary < length cs
      → (d : RedisKvDriver C) × (new_driver C shuffles primary (one_each cs) ≡ created d)
        × (set_operation_mode C shuffles orphan_mode d ≡ none)
  orphan_panics shuffles primary cs pos lt =
      let (d, built, shards, prim, mode) = new_driver-one_each shuffles primary cs lt in
      (d, built, out_of_range shuffles d cs shards mode (subst (λ p. 0 < p) (sym prim) pos))
