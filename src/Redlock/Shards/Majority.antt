-- ===== src/Redlock/Shards/Majority.antt =====
-- Whatever the key and the random choice, a quorum is a majority of the connections that it is
-- asked of.
use election_agent.Prelude.{
  ℕ, zero, suc, ◌<◌, String, ◌≡◌, refl, sym, ap, ◌∙◌, inl, inr, some, List, [], ◌∷◌, map, arith,
  ◌==◌, eqb, if◌then◌else◌, Bool-cases, length, get_elem?, length-map, length-perm,
}
use mathlib.Core.Option
use mathlib.Core.Option.{some-injective}
use mathlib.Core.List.{Perm}
use election_agent.Redlock.Quorum.{quorum_of}
use election_agent.Redlock.Crc.{conn_idx, conn_idx-lt}
use election_agent.Redlock.Shards.{
  ConnGroup, ConnShards, RedLock, conns_of, set_conn_shards, get_conns,
}

get_elem?-in_range :
    {A : Type 0} (xs : List A) (i : ℕ) → i < length xs → (x : A) × (get_elem? xs i ≡ some x)
get_elem?-in_range [] i h = absurd (omega arith)
get_elem?-in_range (x ∷ xs) zero h = (x, refl)
get_elem?-in_range (x ∷ xs) (suc i) h = get_elem?-in_range xs i (omega arith)

pub get_elem?-map :
    {A B : Type 0} (f : A → B) (xs : List A) (i : ℕ)
    → get_elem? (map f xs) i ≡ Option.map f (get_elem? xs i)
get_elem?-map f [] i = refl
get_elem?-map f (x ∷ xs) zero = refl
get_elem?-map f (x ∷ xs) (suc i) = get_elem?-map f xs i

module _ {C : Type 0} where
  -- Every group has `n` connections.
  abbrev pub AllOfSize : ℕ → ConnShards C → Type 0
  AllOfSize n [] = Unit
  AllOfSize n (g ∷ gs) = (length g ≡ n) × AllOfSize n gs

  AllOfSize-get_elem? :
      (n : ℕ) (gs : ConnShards C) (i : ℕ) (g : ConnGroup C)
      → AllOfSize n gs
      → get_elem? gs i ≡ some g
      → length g ≡ n
  AllOfSize-get_elem? n [] i g h e = absurd (ground arith)
  AllOfSize-get_elem? n (x ∷ xs) zero g h e = ground arith
  AllOfSize-get_elem? n (x ∷ xs) (suc i) g h e = AllOfSize-get_elem? n xs i g h.1 e

  -- The shard that a key is mapped to.
  abbrev pub shard_of : ConnShards C → String → ℕ
  shard_of shards key =
      if key == "" then 0 else if eqb (length shards) 1 then 0 else conn_idx key (length shards)

  shard_of-lt :
      (g : ConnGroup C) (gs : ConnShards C) (key : String) → shard_of (g ∷ gs) key < length (g ∷ gs)
  shard_of-lt g gs key = ground (arith, conn_idx-lt key (length (g ∷ gs)) (omega arith))

  conns_of-eq :
      (shards : ConnShards C) (key : String)
      → (if key == "" then get_elem? shards 0 else conns_of C shards key)
        ≡ get_elem? shards (shard_of shards key)
  unfolding conns_of
  conns_of-eq shards key = elim (Bool-cases (key == "")) [
    | inl e ↦ rw e
    | inr e ↦ elim (Bool-cases (eqb (length shards) 1)) [ inl f ↦ rw (e, f) | inr f ↦ rw (e, f) ]
  ]

  shard_of-map :
      (f : ConnGroup C → ConnGroup C) (shards : ConnShards C) (key : String)
      → shard_of (map f shards) key ≡ shard_of shards key
  shard_of-map f shards key = rw (length-map shards f)

  get_conns-at :
      (idx : ℕ) (r : RedLock C) (key : String) (shards : ConnShards C) (conns : ConnGroup C)
      → get_elem? r.shuffle_conn_pool idx ≡ some shards
      → get_elem? shards (shard_of shards key) ≡ some conns
      → get_conns C idx r key ≡ some (conns, r.quorum)
  unfolding get_conns
  get_conns-at idx r key shards conns e f = rw (e, get_conns) (rw (conns_of-eq shards key ∙ f))

  -- With shards of one size, shuffles that permute and an index into the pool, the connections that
  -- getConns picks for a key are the whole shard of the key in some order, and the quorum is their
  -- majority.
  pub get_conns-majority :
      (shuffles : List (ConnGroup C → ConnGroup C)) (g : ConnGroup C) (gs : ConnShards C)
      (r : RedLock C) (idx : ℕ) (key : String)
      → ((f : ConnGroup C → ConnGroup C) (i : ℕ) (c : ConnGroup C)
          → get_elem? shuffles i ≡ some f
          → Perm (f c) c)
      → AllOfSize (length g) gs
      → idx < length shuffles
      → set_conn_shards C shuffles (g ∷ gs) ≡ some r
      → (shard conns : ConnGroup C) × (get_elem? (g ∷ gs) (shard_of (g ∷ gs) key) ≡ some shard)
        × Perm conns shard
        × (get_conns C idx r key ≡ some (conns, quorum_of (length conns)))
  unfolding set_conn_shards
  get_conns-majority shuffles g gs r idx key perms sizes lt h =
      let (f, at_f) = get_elem?-in_range shuffles idx lt in
      let (shard, at_shard) =
        get_elem?-in_range (g ∷ gs) (shard_of (g ∷ gs) key) (shard_of-lt g gs key) in
      let built = some-injective _ _ h in
      let pool =
        ap (λ q. get_elem? q.shuffle_conn_pool idx) (sym built)
        ∙ get_elem?-map (λ k. map k (g ∷ gs)) shuffles idx
        ∙ ap (Option.map (λ k. map k (g ∷ gs))) at_f in
      let conns =
        ap (get_elem? (map f (g ∷ gs))) (shard_of-map f (g ∷ gs) key)
        ∙ get_elem?-map f (g ∷ gs) (shard_of (g ∷ gs) key)
        ∙ ap (Option.map f) at_shard in
      let size =
        length-perm (perms f idx shard at_f)
        ∙ AllOfSize-get_elem? (length g) (g ∷ gs) (shard_of (g ∷ gs) key) shard (refl, sizes)
            at_shard in
      (
        shard,
        f shard,
        at_shard,
        perms f idx shard at_f,
        get_conns-at idx r key (map f (g ∷ gs)) (f shard) pool conns
            ∙ ap (λ n. some (f shard, n))
                (ap (λ q. q.quorum) (sym built) ∙ ap quorum_of (sym size)),
      )
