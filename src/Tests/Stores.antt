-- ===== src/Tests/Stores.antt =====
-- Test data: a store of texts and a cache of leases that never evicts.
use election_agent.Prelude.{
  ℕ, String, ◌≡◌, refl, ◌⊎◌, Option, none, some, List, [], ◌∷◌, map, arith, ◌==◌, eqb,
  if◌then◌else◌,
}
use election_agent.Driver.AgentState.{KvStore, InfoKeys}
use election_agent.Lease.Cache.{TwoQueueCache}

abbrev pub World : Type 0
World = String → String

abbrev pub write : World → String → String → World
write w k v j = if k == j then v else w j

abbrev pub write_all : World → List (String × String) → World
write_all w [] = w
write_all w ((k, v) ∷ kvs) = write_all (write w k v) kvs

abbrev pub text_store : KvStore
text_store = record {
  World = World;
  get = λ w k. (w, (w k, none));
  set = λ w k v. (write w k v, none);
  mget = λ w ks. (w, (map w ks, none));
  mset = λ w kvs. (write_all w kvs, none);
}

abbrev pub keys : InfoKeys
keys = record { state_key = "state"; mode_key = "mode"; active_zone_key = "zone" }

module _ (L : Type 0) where
  abbrev pub Cached : Type 0
  Cached = ℕ → Option L

  abbrev add : Cached → ℕ → L → Cached
  add c i l j = if eqb i j then some l else c j

  abbrev remove : Cached → ℕ → Cached
  remove c i j = if eqb i j then none else c j

  pub peek-add : (c : Cached) (i : ℕ) (l : L) → add c i l i ≡ some l
  peek-add c i l = ground arith

  pub peek-add-other :
      (c : Cached) (i j : ℕ) (l m : L) → add c i l j ≡ some m → ((i ≡ j) × (l ≡ m)) ⊎ (c j ≡ some m)
  peek-add-other c i j l m h = ground arith

  pub peek-remove : (c : Cached) (i j : ℕ) (m : L) → remove c i j ≡ some m → c j ≡ some m
  peek-remove c i j m h = ground arith

  abbrev pub full_cache : TwoQueueCache L
  full_cache = record {
    Cache = Cached;
    peek = λ c i. c i;
    touch = λ c i. c;
    add = add;
    remove = remove;
    peek-touch = λ c i j. refl;
    peek-add = peek-add;
    peek-add-other = peek-add-other;
    peek-remove = peek-remove;
  }
