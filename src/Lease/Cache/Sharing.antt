-- ===== src/Lease/Cache/Sharing.antt =====
-- Which lease the cache hands out.
use election_agent.Prelude.{
  ℕ, String, ◌<>◌, ◌≡◌, refl, sym, ap, ◌∙◌, inl, inr, true, false, Option, none, some, ◌==◌,
  if◌then◌else◌, Bool-cases,
}
use mathlib.Core.Path.{subst}
use text.Mathlib.TextLemmas.{append_assoc}
use election_agent.Config.{Config, lease_key, kind_or_default}
use election_agent.Redlock.Mutex.{Float64, new_mutex}
use election_agent.Lease.{RedisLease}
use election_agent.Lease.Cache.{
  TwoQueueCache, LeaseArgs, Hasher, LeaseManager, lease_id, driver_mutex, new_lease, cached_or_new,
  get_lease,
}

abbrev pub args : String → String → String → ℕ → LeaseArgs
args name kind holder ttl = record { name = name; kind = kind; holder = holder; ttl = ttl }

kind_or_default-twice :
    (kind : String) → kind_or_default (kind_or_default kind) ≡ kind_or_default kind
kind_or_default-twice kind = elim (Bool-cases (kind == "")) [
  | inl e ↦ rw e refl
  | inr e ↦ rw (e, e) refl
]

module _ (F : Float64) (H : Hasher) (C : TwoQueueCache (RedisLease F)) where
  -- Made by NewLease, from parameters of this identifier.
  abbrev pub MadeFor : Config → ℕ → RedisLease F → Type 0
  MadeFor cfg id l = (a : LeaseArgs) × (l ≡ new_lease F H C cfg a) × (lease_id F H C cfg a ≡ id)

  -- Every cached lease was made from parameters of the identifier that it is cached under.
  abbrev pub IsSound : LeaseManager F H C → Type 0
  IsSound lm = (id : ℕ) (l : RedisLease F) → C.peek lm.cache id ≡ some l → MadeFor lm.cfg id l

  cached_or_new-IsSound :
      (id : ℕ) (a : LeaseArgs) (lm : LeaseManager F H C) (o : Option (RedisLease F))
      → IsSound lm
      → lease_id F H C lm.cfg a ≡ id
      → C.peek lm.cache id ≡ o
      → let (lm', l) = cached_or_new F H C id a lm o in IsSound lm' × MadeFor lm.cfg id l
  unfolding cached_or_new
  cached_or_new-IsSound id a lm (some l) sound e p =
      (λ j m q. sound j m (sym (C.peek-touch lm.cache id j) ∙ q), sound id l p)
  cached_or_new-IsSound id a lm none sound e p = (
    λ j m q. elim (C.peek-add-other lm.cache id j (new_lease F H C lm.cfg a) m q) [
      | inl (i, l) ↦ (a, sym l, e ∙ i)
      | inr r ↦ sound j m r
    ],
    (a, refl, e),
  )

  get_lease-on :
      (a : LeaseArgs) (lm : LeaseManager F H C)
      → lm.cfg.lease_cache ≡ true
      → get_lease F H C a lm
        ≡ cached_or_new F H C
            (lease_id F H C lm.cfg a)
            a
            lm
            (C.peek lm.cache (lease_id F H C lm.cfg a))
  unfolding get_lease
  get_lease-on a lm on =
      ap
        (λ b.
          if b
          then cached_or_new F H C (lease_id F H C lm.cfg a) a lm
              (C.peek lm.cache (lease_id F H C lm.cfg a))
          else (lm, new_lease F H C lm.cfg a))
        on

  get_lease-off :
      (a : LeaseArgs) (lm : LeaseManager F H C)
      → lm.cfg.lease_cache ≡ false
      → get_lease F H C a lm ≡ (lm, new_lease F H C lm.cfg a)
  unfolding get_lease
  get_lease-off a lm off =
      ap
        (λ b.
          if b
          then cached_or_new F H C (lease_id F H C lm.cfg a) a lm
              (C.peek lm.cache (lease_id F H C lm.cfg a))
          else (lm, new_lease F H C lm.cfg a))
        off

  -- getLease keeps every cached lease one that was made from parameters with the identifier it is
  -- cached under, and returns a lease that was made from parameters with the identifier asked for.
  pub get_lease-IsSound :
      (a : LeaseArgs) (lm : LeaseManager F H C)
      → IsSound lm
      → let (lm', l) = get_lease F H C a lm in
        IsSound lm' × MadeFor lm.cfg (lease_id F H C lm.cfg a) l
  get_lease-IsSound a lm sound = elim (Bool-cases lm.cfg.lease_cache) [
    | inl on ↦
        subst (λ out. IsSound out.0 × MadeFor lm.cfg (lease_id F H C lm.cfg a) out.1)
          (sym (get_lease-on a lm on))
          (cached_or_new-IsSound (lease_id F H C lm.cfg a) a lm _ sound refl refl)
    | inr off ↦
        subst (λ out. IsSound out.0 × MadeFor lm.cfg (lease_id F H C lm.cfg a) out.1)
          (sym (get_lease-off a lm off)) (sound, (a, refl, refl))
  ]

  cached_or_new-again :
      (id : ℕ) (a b : LeaseArgs) (lm : LeaseManager F H C) (o : Option (RedisLease F))
      → C.peek lm.cache id ≡ o
      → let (lm1, l) = cached_or_new F H C id a lm o in
        (cached_or_new F H C id b lm1 (C.peek lm1.cache id)).1 ≡ l
  unfolding cached_or_new
  cached_or_new-again id a b lm (some l) p = rw (C.peek-touch lm.cache id id, p) refl
  cached_or_new-again id a b lm none p = rw (C.peek-add lm.cache id (new_lease F H C lm.cfg a)) refl

  cached_or_new-fresh :
      (id : ℕ) (a : LeaseArgs) (lm : LeaseManager F H C) (o : Option (RedisLease F))
      → o ≡ none
      → (cached_or_new F H C id a lm o).1 ≡ new_lease F H C lm.cfg a
  unfolding cached_or_new
  cached_or_new-fresh id a lm o e = rw e refl

  cached_or_new-cfg :
      (id : ℕ) (a : LeaseArgs) (lm : LeaseManager F H C) (o : Option (RedisLease F))
      → (cached_or_new F H C id a lm o).0.cfg ≡ lm.cfg
  unfolding cached_or_new
  cached_or_new-cfg id a lm (some l) = refl
  cached_or_new-cfg id a lm none = refl

  lease_id-shared :
      (cfg : Config) (name x holder kind : String) (ttl : ℕ)
      → lease_id F H C cfg (args (name <> x) kind holder ttl)
        ≡ lease_id F H C cfg (args name kind (x <> holder) ttl)
  unfolding lease_id lease_key
  lease_id-shared cfg name x holder kind ttl = ap H.hash (simp append_assoc)

  get_lease-shared :
      (name x holder kind : String) (ttl : ℕ) (lm : LeaseManager F H C)
      → lm.cfg.lease_cache ≡ true
      → let (lm1, first) = get_lease F H C (args name kind (x <> holder) ttl) lm in
        (get_lease F H C (args (name <> x) kind holder ttl) lm1).1 ≡ first
  get_lease-shared name x holder kind ttl lm on =
      let one = args name kind (x <> holder) ttl in
      let two = args (name <> x) kind holder ttl in
      let id = lease_id F H C lm.cfg one in
      let out = cached_or_new F H C id one lm (C.peek lm.cache id) in
      let cfg = cached_or_new-cfg id one lm (C.peek lm.cache id) in
      let id' =
        ap (λ c. lease_id F H C c two) cfg ∙ lease_id-shared lm.cfg name x holder kind ttl in
      subst (λ p. (get_lease F H C two p.0).1 ≡ p.1) (sym (get_lease-on one lm on))
        (ap (λ p. p.1) (get_lease-on two out.0 (ap (λ c. c.lease_cache) cfg ∙ on))
          ∙ ap (λ i. (cached_or_new F H C i two out.0 (C.peek out.0.cache i)).1) id'
          ∙ cached_or_new-again id one two lm (C.peek lm.cache id) refl)

  new_lease-mutex :
      (cfg : Config) (name kind holder : String) (ttl : ℕ)
      → let l = new_lease F H C cfg (args name kind holder ttl) in
        (l.mutex.name ≡ lease_key cfg name kind) × (l.mutex.value ≡ holder)
  unfolding new_lease driver_mutex new_mutex lease_key
  new_lease-mutex cfg name kind holder ttl =
      (ap (λ k. cfg.key_prefix <> "/lease/" <> k <> "/" <> name) (kind_or_default-twice kind), refl)

  -- Whatever the hash: with the cache on and no lease of election name and holder x followed by
  -- holder in it, getLease for that pair and then for election name followed by x and holder, with
  -- the same kind and ttl, returns a lease with the key of the first election and the value of the
  -- first holder.
  pub get_lease-other_election :
      (name x holder kind : String) (ttl : ℕ) (lm : LeaseManager F H C)
      → lm.cfg.lease_cache ≡ true
      → C.peek lm.cache (lease_id F H C lm.cfg (args name kind (x <> holder) ttl)) ≡ none
      → let lm1 = (get_lease F H C (args name kind (x <> holder) ttl) lm).0 in
        let l = (get_lease F H C (args (name <> x) kind holder ttl) lm1).1 in
        (l.mutex.name ≡ lease_key lm.cfg name kind) × (l.mutex.value ≡ x <> holder)
  get_lease-other_election name x holder kind ttl lm on empty =
      let one = args name kind (x <> holder) ttl in
      subst (λ l. (l.mutex.name ≡ lease_key lm.cfg name kind) × (l.mutex.value ≡ x <> holder))
        (sym (
          get_lease-shared name x holder kind ttl lm on
          ∙ ap (λ p. p.1) (get_lease-on one lm on)
          ∙ cached_or_new-fresh (lease_id F H C lm.cfg one) one lm _ empty))
        (new_lease-mutex lm.cfg name kind (x <> holder) ttl)
