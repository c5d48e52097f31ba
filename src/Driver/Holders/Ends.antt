-- ===== src/Driver/Holders/Ends.antt =====
-- GetHolders ends if every server's cursors come back to 0.
use election_agent.Prelude.{
  ℕ, zero, suc, ◌<◌, String, ◌<>◌, ◌≡◌, refl, ◌∙◌, ◌⊎◌, inl, inr, Bool, true, false, List, [], ◌∷◌,
  map, arith, eqb, Bool-cases, Option-cases, length,
}
use election_agent.Errors.{Error}
use election_agent.Config.{Config, lease_kind_prefix}
use election_agent.Driver.Holders.{
  Scanner, Scan, scanned, failed, index_panic, unfinished, Pairs, HolderInfo, page_pairs, put_page,
  scan_conn, after_failure, after_scan, wait_all, count_holders, with_quorum, Schedule, scan_groups,
  get_holders,
}

abbrev pub is_unfinished : {A : Type 0} → Scan A → Bool
is_unfinished unfinished = true
is_unfinished _ = false

-- The documented guarantee of SCAN: from any cursor, a server that is not written comes back to 0.
abbrev pub CursorsEnd : (S : Scanner) → String → (S.Conn → ℕ → ℕ) → Type 0
CursorsEnd S match rank =
    (c : S.Conn) (cursor : ℕ)
    → let next = (S.scan match cursor c).1 in (next ≡ 0) ⊎ (rank c next < rank c cursor)

is_unfinished-put_page :
    (page : Pairs) (rest : Scan (List Pairs))
    → is_unfinished (put_page page rest) ≡ is_unfinished rest
is_unfinished-put_page page (scanned pages) = refl
is_unfinished-put_page page (failed e) = refl
is_unfinished-put_page page index_panic = refl
is_unfinished-put_page page unfinished = refl

module _ (S : Scanner) (match : String) (rank : S.Conn → ℕ → ℕ)
    (ends : CursorsEnd S match rank) where
  scan_conn-ends :
      (fuel cursor : ℕ) (set : List String) (c : S.Conn)
      → rank c cursor < fuel
      → is_unfinished (scan_conn S match fuel cursor set c) ≡ false
  unfolding scan_conn
  scan_conn-ends zero cursor set c lt = absurd (omega arith)
  scan_conn-ends (suc fuel) cursor set c lt =
      let keys = (S.scan match cursor c).0 in
      let next = (S.scan match cursor c).1 in
      let vals = (S.mget keys c).0 in
      let less : eqb next 0 ≡ false → rank c next < fuel = λ z. ground (arith, ends c cursor) in
      elim (Option-cases (S.scan match cursor c).2) [
        | inr (e, f) ↦ rw (scan_conn, f) refl
        | inl f ↦ elim (Bool-cases (eqb (length keys) 0)) [
          | inl g ↦ elim (Bool-cases (eqb next 0)) [
            | inl z ↦ rw (scan_conn, f, g, z) refl
            | inr z ↦ rw (scan_conn, f, g, z) (scan_conn-ends fuel next set c (less z))
          ]
          | inr g ↦ elim (Option-cases (S.mget keys c).1) [
            | inr (e, q) ↦ rw (scan_conn, f, g, q) refl
            | inl q ↦ elim (Option-cases (page_pairs keys vals set)) [
              | inl p ↦ rw (scan_conn, f, g, q, p) refl
              | inr ((s, ps), p) ↦ elim (Bool-cases (eqb next 0)) [
                | inl z ↦ rw (scan_conn, f, g, q, p, z) refl
                | inr z ↦
                    rw (scan_conn, f, g, q, p, z)
                      (is_unfinished-put_page ps _ ∙ scan_conn-ends fuel next s c (less z))
              ]
            ]
          ]
        ]
      ]

abbrev AllEnd : {A : Type 0} → List (Scan A) → Type 0
AllEnd [] = Unit
AllEnd (s ∷ scans) = (is_unfinished s ≡ false) × AllEnd scans

wait_all-ends :
    {A : Type 0} (scans : List (Scan A)) → AllEnd scans → is_unfinished (wait_all scans) ≡ false
unfolding wait_all
wait_all-ends [] h = refl
wait_all-ends (scanned a ∷ scans) (_, h) =
    after_scan-ends a (wait_all scans) ∙ wait_all-ends scans h
  where
    after_scan-ends :
        {B : Type 0} (b : B) (rest : Scan (List B))
        → is_unfinished (after_scan b rest) ≡ is_unfinished rest
    after_scan-ends b (scanned rest) = refl
    after_scan-ends b (failed e) = refl
    after_scan-ends b index_panic = refl
    after_scan-ends b unfinished = refl
wait_all-ends (failed e ∷ scans) (_, h) =
    after_failure-ends e (wait_all scans) (wait_all-ends scans h)
  where
    after_failure-ends :
        {B : Type 0} (d : Error) (rest : Scan B)
        → is_unfinished rest ≡ false
        → is_unfinished (after_failure {B = B} d rest) ≡ false
    after_failure-ends d (scanned rest) g = refl
    after_failure-ends d (failed e) g = refl
    after_failure-ends d index_panic g = refl
    after_failure-ends d unfinished g = absurd (ground arith)
wait_all-ends (index_panic ∷ scans) h = refl
wait_all-ends (unfinished ∷ scans) (h, _) = absurd (ground arith)

AllEnd-map :
    {A B : Type 0} (f : A → Scan B) (xs : List A)
    → ((x : A) → is_unfinished (f x) ≡ false)
    → AllEnd (map f xs)
AllEnd-map f [] h = tt
AllEnd-map f (x ∷ xs) h = (h x, AllEnd-map f xs h)

scan_groups-ends :
    (S : Scanner) (s : Schedule S) (match : String) (rank : S.Conn → ℕ → ℕ) (fuel : ℕ)
    (groups : List (List S.Conn)) (infos : List HolderInfo)
    → CursorsEnd S match rank
    → ((c : S.Conn) → rank c 0 < fuel)
    → is_unfinished (scan_groups S s match fuel groups infos) ≡ false
unfolding scan_groups
scan_groups-ends S s match rank fuel [] infos ends lt = refl
scan_groups-ends S s match rank fuel (g ∷ groups) infos ends lt =
    group_ends _
      (wait_all-ends (map (scan_conn S match fuel 0 []) (s.ending g)) (
        AllEnd-map (scan_conn S match fuel 0 []) (s.ending g)
          (λ c. scan_conn-ends S match rank ends fuel 0 [] c (lt c))))
      (λ pages.
        scan_groups-ends S s match rank fuel groups (count_holders (s.interleave pages) infos) ends
          lt)
  where
    group_ends :
        (scan : Scan (List (List Pairs)))
        → is_unfinished scan ≡ false
        → ((pages : List (List Pairs))
            → is_unfinished
                (scan_groups S s match fuel groups (count_holders (s.interleave pages) infos))
              ≡ false)
        → is_unfinished (elim scan [
          | failed e ↦ failed e
          | index_panic ↦ index_panic
          | unfinished ↦ unfinished
          | scanned pages ↦
              scan_groups S s match fuel groups (count_holders (s.interleave pages) infos)
        ])
          ≡ false
    group_ends (failed e) h go = refl
    group_ends index_panic h go = refl
    group_ends unfinished h go = absurd (ground arith)
    group_ends (scanned pages) h go = go pages

-- If the cursors of every server come back to 0 or get smaller in rank at each step, with the rank
-- of the first cursor below the fuel, then GetHolders ends, with holders, an error or a panic.
pub get_holders-ends :
    (S : Scanner) (s : Schedule S) (cfg : Config) (rank : S.Conn → ℕ → ℕ) (fuel quorum : ℕ)
    (groups : List (List S.Conn)) (kind : String)
    → CursorsEnd S (lease_kind_prefix cfg kind <> "*") rank
    → ((c : S.Conn) → rank c 0 < fuel)
    → is_unfinished (get_holders S s cfg fuel quorum groups kind) ≡ false
unfolding get_holders
get_holders-ends S s cfg rank fuel quorum groups kind ends lt =
    answered _
      (scan_groups-ends S s (lease_kind_prefix cfg kind <> "*") rank fuel groups [] ends lt)
  where
    answered :
        (scan : Scan (List HolderInfo))
        → is_unfinished scan ≡ false
        → is_unfinished (elim scan [
          | failed e ↦ failed e
          | index_panic ↦ index_panic
          | unfinished ↦ unfinished
          | scanned infos ↦ scanned (with_quorum quorum (s.range infos))
        ])
          ≡ false
    answered (failed e) h = refl
    answered index_panic h = refl
    answered unfinished h = absurd (ground arith)
    answered (scanned infos) h = refl
