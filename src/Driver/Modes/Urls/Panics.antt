-- ===== src/Driver/Modes/Urls/Panics.antt =====
-- When the connections that are made of redis.urls index the shards out of range.
use election_agent.Prelude.{
  ℕ, suc, ◌≤◌, ◌<◌, String, ◌≡◌, refl, ap, ◌∙◌, inl, inr, Bool, true, false, not, ◌&&◌, none, some,
  List, [], ◌∷◌, ◌++◌, map, arith, ltb, eqb, is_some, lt→leb, Bool-cases, Option-cases, length,
  count_if, length-map,
}
use mathlib.Core.Path.{subst}
use election_agent.Redlock.Shards.{ConnShards}
use election_agent.Driver.Modes.{
  Created, created, invalid, index_panic, add_url, add_urls, create_connections,
}
use election_agent.Driver.Modes.Urls.{
  UrlParser, enough_urls, put_group, goredis_shards, parse_goredis,
}

-- The groups that are longer than the first.
abbrev pub longer : {C : Type 0} → List C → List (List C) → ℕ
longer g gs = count_if (λ h. ltb (length g) (length h)) gs

module _ (C : Type 0) where
  add_url-length :
      (shards : ConnShards C) (g : List C)
      → (length g ≤ length shards
          → (out : ConnShards C) × (add_url C shards g ≡ some out) × (length out ≡ length shards))
        × (length shards < length g → add_url C shards g ≡ none)
  unfolding add_url
  add_url-length shards [] = (λ h. (shards, refl, refl), λ h. absurd (omega (arith, h)))
  add_url-length [] (c ∷ cs) = (λ h. absurd (omega (arith, h)), λ h. refl)
  add_url-length (s ∷ shards) (c ∷ cs) =
      let (fits, over) = add_url-length shards cs in
      (
        λ h.
            let (out, e, size) = fits (omega (arith, h)) in
            ((s ++ c ∷ []) ∷ out, rw (add_url, e) refl, ap suc size),
        λ h. rw (add_url, over (omega (arith, h))) refl,
      )

  add_urls-none_iff :
      (n : ℕ) (shards : ConnShards C) (gs : List (List C))
      → length shards ≡ n
      → is_some (add_urls C shards gs) ≡ eqb (count_if (λ h. ltb n (length h)) gs) 0
  unfolding add_urls
  add_urls-none_iff n shards [] e = refl
  add_urls-none_iff n shards (g ∷ gs) e =
      let (fits, over) = add_url-length shards g in
      elim (Bool-cases (ltb n (length g))) [
        | inl f ↦ rw (add_urls, over (ground arith), f) (ground arith)
        | inr f ↦
            let (out, h, size) = fits (ground arith) in
            rw (add_urls, h, f) (add_urls-none_iff n out gs (size ∙ e))
      ]

  abbrev no_conns : C → List C
  no_conns _ = []

  abbrev pub panics : {A : Type 0} → Created A → Bool
  panics index_panic = true
  panics _ = false

  -- Connections cannot be made exactly if a later URL has more addresses than the first.
  create_connections-longer :
      (primary : ℕ) (g : List C) (gs : List (List C))
      → primary < length (g ∷ gs)
      → panics (create_connections C primary (g ∷ gs)) ≡ ltb 0 (longer g gs)
  unfolding create_connections
  create_connections-longer primary g gs h =
      let iff = add_urls-none_iff (length g) (map no_conns g) (g ∷ gs) (length-map g no_conns) in
      elim (Option-cases (add_urls C (map no_conns g) (g ∷ gs))) [
        | inl e ↦ rw (lt→leb primary (length (g ∷ gs)) h, e) (ground (arith, rw e at iff))
        | inr (out, e) ↦ rw (lt→leb primary (length (g ∷ gs)) h, e) (ground (arith, rw e at iff))
      ]

put_group-created :
    {C : Type 0} (g : List C) (rest : Created (List (List C))) (out : List (List C))
    → put_group g rest ≡ created out
    → (gs : List (List C)) × (rest ≡ created gs) × (out ≡ g ∷ gs)
put_group-created g (created gs) out h = (gs, refl, ground arith)
put_group-created g (invalid m) out h = absurd (ground arith)
put_group-created g index_panic out h = absurd (ground arith)

module _ (U : UrlParser) where
  open U use {Options, parse, addresses}

  abbrev other_size : ℕ → List (List Options) → ℕ
  other_size n gs = count_if (λ h. not (eqb (length h) n)) gs

  -- From the second URL on, goredis takes groups of one size only.
  goredis_shards-size :
      (count : ℕ) (urls : List String) (gs : List (List Options))
      → eqb count 0 ≡ false
      → goredis_shards U count urls ≡ created gs
      → other_size count gs ≡ 0
  unfolding goredis_shards
  goredis_shards-size count [] gs n h = ground arith
  goredis_shards-size count (url ∷ urls) gs n h = elim (Option-cases (parse url)) [
    | inl e ↦ absurd (ground (arith, rw (goredis_shards, e) at h))
    | inr (o, e) ↦
        let size = length (addresses o) in
        elim (Bool-cases (not (eqb count 0) && not (eqb count size))) [
          | inl f ↦ absurd (ground (arith, rw (goredis_shards, e, f) at h))
          | inr f ↦ elim (Bool-cases (ltb size 2)) [
            | inl k ↦ absurd (ground (arith, rw (goredis_shards, e, f, k) at h))
            | inr k ↦
                let (more, later, eq) =
                  put_group-created (addresses o) (goredis_shards U size urls) gs
                    (rw (goredis_shards, e, f, k) at h) in
                let same : size ≡ count = ground arith in
                let rest = goredis_shards-size size urls more (ground arith) later in
                ap (other_size count) eq
                ∙ ground (arith, subst (λ c. other_size c more ≡ 0) same rest)
          ]
        ]
  ]

  longer-le-other_size :
      (g : List Options) (gs : List (List Options)) → longer g gs ≤ other_size (length g) gs
  longer-le-other_size g [] = omega arith
  longer-le-other_size g (h ∷ gs) = ground (arith, longer-le-other_size g gs)

  -- What goredis accepts has no longer group.
  goredis_shards-longer :
      (urls : List String) (g : List Options) (gs : List (List Options))
      → goredis_shards U 0 urls ≡ created (g ∷ gs)
      → longer g gs ≡ 0
  unfolding goredis_shards
  goredis_shards-longer [] g gs h = absurd (ground arith)
  goredis_shards-longer (url ∷ urls) g gs h = elim (Option-cases (parse url)) [
    | inl e ↦ absurd (ground (arith, rw (goredis_shards, e) at h))
    | inr (o, e) ↦
        let size = length (addresses o) in
        elim (Bool-cases (ltb size 2)) [
          | inl k ↦ absurd (ground (arith, rw (goredis_shards, e, k) at h))
          | inr k ↦
              let (more, later, eq) =
                put_group-created (addresses o) (goredis_shards U size urls) (g ∷ gs)
                  (rw (goredis_shards, e, k) at h) in
              let rest = goredis_shards-size size urls more (ground arith) later in
              let first : g ≡ addresses o = ground arith in
              let others : gs ≡ more = ground arith in
              omega (
                arith,
                longer-le-other_size g gs,
                ap (λ x. other_size (length x) gs) first,
                ap (other_size size) others,
                rest,
              )
        ]
  ]

  -- With a primary in range, making the connections of a list of URLs indexes the shards out of
  -- range exactly if a later URL has more addresses than the first, and never for what the goredis
  -- parser of the mode sharding accepts.
  pub urls_panic :
      (primary : ℕ) (urls : List String) (g : List Options) (gs : List (List Options))
      → primary < length (g ∷ gs)
      → (panics Options (create_connections Options primary (g ∷ gs)) ≡ ltb 0 (longer g gs))
        × (parse_goredis U "sharding" urls ≡ created (g ∷ gs)
            → panics Options (create_connections Options primary (g ∷ gs)) ≡ false)
  unfolding parse_goredis
  urls_panic primary urls g gs h =
      let iff = create_connections-longer Options primary g gs h in
      (
        iff,
        λ e. elim (Bool-cases (enough_urls urls)) [
          | inr f ↦ absurd (ground (arith, rw f at e))
          | inl f ↦ iff ∙ ground (arith, goredis_shards-longer urls g gs (rw f at e))
        ],
      )
