-- ===== src/Driver/Holders/Reported.antt =====
-- GetHolders reports a lease once if a quorum of the servers shows a holder for it, and else not.
use election_agent.Prelude.{
  ℕ, ◌+◌, ◌≤◌, ◌<◌, String, ◌<>◌, ◌≡◌, refl, sym, ap, ◌∙◌, inl, inr, false, ◌&&◌, List, [], ◌∷◌,
  map, arith, ◌==◌, eq_iff, leb, if◌then◌else◌, Bool-cases, count_if, count_if-perm,
}
use mathlib.Core.List.{Perm, flatten}
use mathlib.Core.Path.{subst}
use election_agent.Config.{Config, lease_kind_prefix}
use election_agent.Driver.Holders.{
  Scanner, Scan, scanned, failed, index_panic, unfinished, Pairs, HolderInfo, Holder, scan_conn,
  wait_all, count_holder, count_holders, with_quorum, Schedule, scan_groups, get_holders,
}
use election_agent.Driver.Holders.Counted.{
  merged, once, count_if-append, scanned-injective, showing, conn_shows, wait_all-merged,
}

-- holderMap[key].count, or 0
abbrev count_of : List HolderInfo → String → ℕ
count_of [] k = 0
count_of (i ∷ infos) k = if i.key == k then i.count else count_of infos k

abbrev entries : String → List HolderInfo → ℕ
entries k infos = count_if (λ i. i.key == k) infos

abbrev at_least : ℕ → String → List HolderInfo → ℕ
at_least quorum k infos = count_if (λ i. i.key == k && leb quorum i.count) infos

-- A map has a key once.
abbrev IsMap : List HolderInfo → Type 0
IsMap infos = (k : String) → entries k infos ≤ 1

count_holder-count :
    (key val k : String) (infos : List HolderInfo)
    → count_of (count_holder (key, val) infos) k ≡ count_of infos k + once (key == k)
unfolding count_holder
count_holder-count key val k [] = ground arith
count_holder-count key val k (i ∷ infos) =
    ground
      (arith, count_holder-count key val k infos, eq_iff i.key key, eq_iff i.key k, eq_iff key k)

count_holder-other :
    (key val k : String) (infos : List HolderInfo)
    → (key == k) ≡ false
    → entries k (count_holder (key, val) infos) ≡ entries k infos
unfolding count_holder
count_holder-other key val k [] h = ground arith
count_holder-other key val k (i ∷ infos) h = ground (arith, count_holder-other key val k infos h)

count_holder-same :
    (key val : String) (infos : List HolderInfo)
    → entries key infos ≤ 1
    → entries key (count_holder (key, val) infos) ≤ 1
unfolding count_holder
count_holder-same key val [] h = ground arith
count_holder-same key val (i ∷ infos) h = elim (Bool-cases (i.key == key)) [
  | inl e ↦ rw (count_holder, e) h
  | inr e ↦ rw (count_holder, e) (rw e (count_holder-same key val infos (ground arith)))
]

count_holder-IsMap :
    (key val : String) (infos : List HolderInfo)
    → IsMap infos
    → IsMap (count_holder (key, val) infos)
count_holder-IsMap key val infos h k = elim (Bool-cases (key == k)) [
  | inl e ↦
      subst (λ j. entries j (count_holder (key, val) infos) ≤ 1) ((eq_iff key k).0 e)
        (count_holder-same key val infos (h key))
  | inr e ↦ omega (arith, count_holder-other key val k infos e, h k)
]

count_holders-count :
    (pairs : Pairs) (infos : List HolderInfo) (k : String)
    → count_of (count_holders pairs infos) k ≡ count_of infos k + merged k pairs
unfolding count_holders
count_holders-count [] infos k = omega arith
count_holders-count ((key, val) ∷ pairs) infos k = ground (
  arith,
  count_holders-count pairs (count_holder (key, val) infos) k,
  count_holder-count key val k infos,
)

count_holders-IsMap :
    (pairs : Pairs) (infos : List HolderInfo) → IsMap infos → IsMap (count_holders pairs infos)
unfolding count_holders
count_holders-IsMap [] infos h = h
count_holders-IsMap ((key, val) ∷ pairs) infos h =
    count_holders-IsMap pairs _ (count_holder-IsMap key val infos h)

at_least-absent :
    (quorum : ℕ) (k : String) (infos : List HolderInfo)
    → entries k infos ≡ 0
    → at_least quorum k infos ≡ 0
at_least-absent quorum k [] h = refl
at_least-absent quorum k (i ∷ infos) h = ground (arith, at_least-absent quorum k infos)

at_least-count :
    (quorum : ℕ) (k : String) (infos : List HolderInfo)
    → 0 < quorum
    → entries k infos ≤ 1
    → at_least quorum k infos ≡ once (leb quorum (count_of infos k))
at_least-count quorum k [] q h = ground arith
at_least-count quorum k (i ∷ infos) q h = elim (Bool-cases (i.key == k)) [
  | inl e ↦ rw e (ground (arith, at_least-absent quorum k infos (ground arith)))
  | inr e ↦ rw e (at_least-count quorum k infos q (ground arith))
]

with_quorum-at_least :
    (quorum : ℕ) (k : String) (infos : List HolderInfo)
    → count_if (λ h. h.election == k) (with_quorum quorum infos) ≡ at_least quorum k infos
unfolding with_quorum
with_quorum-at_least quorum k [] = refl
with_quorum-at_least quorum k (i ∷ infos) = ground (arith, with_quorum-at_least quorum k infos)

module _ (S : Scanner) (s : Schedule S) (match : String) (fuel : ℕ) where
  -- A schedule that loses nothing.
  abbrev pub IsSchedule : Type 0
  IsSchedule =
      ((g : List S.Conn) → Perm (s.ending g) g)
      × ((pages : List (List Pairs)) → Perm (s.interleave pages) (flatten (flatten pages)))
      × ((infos : List HolderInfo) → Perm (s.range infos) infos)

  -- What the map counts from `infos` to `out` over some groups.
  Counts : List (List S.Conn) → List HolderInfo → List HolderInfo → Type 0
  Counts groups infos out =
      IsMap out
      × ((k : String) → count_of out k ≡ count_of infos k + showing S match fuel k (flatten groups))

  scan_groups-step :
      (g : List S.Conn) (groups : List (List S.Conn)) (infos out : List HolderInfo)
      (scan : Scan (List (List Pairs)))
      → IsSchedule
      → wait_all (map (scan_conn S match fuel 0 []) (s.ending g)) ≡ scan
      → scan_groups S s match fuel (g ∷ groups) infos ≡ scanned out
      → ((pages : List (List Pairs))
          → let infos' = count_holders (s.interleave pages) infos in
            scan_groups S s match fuel groups infos' ≡ scanned out → Counts groups infos' out)
      → Counts (g ∷ groups) infos out
  unfolding scan_groups flatten Counts
  scan_groups-step g groups infos out (failed e) sched f q go =
      absurd (ground (arith, rw (scan_groups, f) at q))
  scan_groups-step g groups infos out index_panic sched f q go =
      absurd (ground (arith, rw (scan_groups, f) at q))
  scan_groups-step g groups infos out unfinished sched f q go =
      absurd (ground (arith, rw (scan_groups, f) at q))
  scan_groups-step g groups infos out (scanned pages) sched f q go =
      let (map_out, counts) = go pages (rw (scan_groups, f) at q) in
      (
        map_out,
        λ k. omega (
          arith,
          counts k,
          count_holders-count (s.interleave pages) infos k,
          count_if-perm (λ p. p.0 == k) (sched.1 pages),
          wait_all-merged S match fuel (s.ending g) pages k f,
          count_if-perm (conn_shows S match fuel 0 k) (sched.0 g),
          count_if-append (conn_shows S match fuel 0 k) g (flatten groups),
        ),
      )

  -- Group by group, the map counts the servers that show a key.
  scan_groups-Counts :
      (groups : List (List S.Conn)) (infos out : List HolderInfo)
      → IsSchedule
      → IsMap infos
      → scan_groups S s match fuel groups infos ≡ scanned out
      → Counts groups infos out
  unfolding scan_groups flatten Counts
  scan_groups-Counts [] infos out sched m h =
      let eq = scanned-injective _ _ h in
      (subst IsMap eq m, λ k. ap (λ x. count_of x k) (sym eq) ∙ omega arith)
  scan_groups-Counts (g ∷ groups) infos out sched m h =
      scan_groups-step g groups infos out _ sched refl h (λ pages.
        scan_groups-Counts groups (count_holders (s.interleave pages) infos) out sched
          (count_holders-IsMap (s.interleave pages) infos m))

module _ (S : Scanner) (s : Schedule S) (cfg : Config) (fuel quorum : ℕ) (kind : String) where
  abbrev pattern : String
  pattern = lease_kind_prefix cfg kind <> "*"

  get_holders-scanned :
      (groups : List (List S.Conn)) (holders : List Holder) (scan : Scan (List HolderInfo))
      → scan_groups S s pattern fuel groups [] ≡ scan
      → get_holders S s cfg fuel quorum groups kind ≡ scanned holders
      → (infos : List HolderInfo) × (scan ≡ scanned infos)
        × (holders ≡ with_quorum quorum (s.range infos))
  unfolding get_holders
  get_holders-scanned groups holders (failed e) f q =
      absurd (ground (arith, rw (get_holders, f) at q))
  get_holders-scanned groups holders index_panic f q =
      absurd (ground (arith, rw (get_holders, f) at q))
  get_holders-scanned groups holders unfinished f q =
      absurd (ground (arith, rw (get_holders, f) at q))
  get_holders-scanned groups holders (scanned infos) f q =
      (infos, refl, sym (scanned-injective _ _ (rw (get_holders, f) at q)))

  -- If GetHolders returns without an error, with a positive quorum, goroutines that end and
  -- interleave in any way and any order of range, then it reports a key once if a quorum of the
  -- servers shows some value for it that is not empty, whichever values, and else not.
  pub get_holders-reports :
      (groups : List (List S.Conn)) (holders : List Holder) (k : String)
      → IsSchedule S s pattern fuel
      → 0 < quorum
      → get_holders S s cfg fuel quorum groups kind ≡ scanned holders
      → count_if (λ h. h.election == k) holders
        ≡ once (leb quorum (showing S (lease_kind_prefix cfg kind <> "*") fuel k (flatten groups)))
  unfolding Counts
  get_holders-reports groups holders k sched q h =
      let (infos, e, eq) = get_holders-scanned groups holders _ refl h in
      let (map_out, counts) =
        scan_groups-Counts S s pattern fuel groups [] infos sched (λ j. omega arith) e in
      ap (count_if (λ x. x.election == k)) eq
      ∙ with_quorum-at_least quorum k (s.range infos)
      ∙ count_if-perm (λ i. i.key == k && leb quorum i.count) (sched.2 infos)
      ∙ at_least-count quorum k infos q (map_out k)
      ∙ ap (λ n. once (leb quorum n)) (counts k ∙ omega arith)
