-- ===== src/Driver/Holders.antt =====
-- GetHolders of internal/driver/redis_driver.go: a scan of every server for the leases of a kind.
-- A Go map is a list of its entries, whose order `range` is free to choose; the loop over the
-- cursors runs on fuel, and an index out of range is a panic.
pub mod Counted
pub mod Reported
pub mod Ends
use election_agent.Prelude.{
  ℕ, zero, suc, ◌+◌, String, ◌<>◌, ◌||◌, Option, none, some, List, [], ◌∷◌, map, ◌==◌, leb, eqb,
  if◌then◌else◌, length,
}
use mathlib.Core.List.{flatten}
use election_agent.Errors.{Error}
use election_agent.Agent.{contains}
use election_agent.Config.{Config, lease_kind_prefix}

-- What the scan calls of Conn: Scan with a cursor and a pattern, and MGet.
pub record Scanner : Type 1 where
  pub Conn : Type 0
  pub scan : String → ℕ → Conn → List String × ℕ × Option Error
  pub mget : List String → Conn → List String × Option Error

pub data Scan (A : Type 0) : Type 0 where
  scanned : A → Scan A
  failed : Error → Scan A
  index_panic unfinished : Scan A

abbrev pub Pairs : Type 0
Pairs = List (String × String)

-- The struct `holderInfo` under its key, and Holder.
pub record HolderInfo : Type 0 where
  pub key : String
  pub val : String
  pub count : ℕ

pub record Holder : Type 0 where
  pub election : String
  pub name : String

-- The loop over one page: what it adds to holderSet, and what it merges into holderMap.
unfoldable pub page_pairs : List String → List String → List String → Option (List String × Pairs)
page_pairs [] vals set = some (set, [])
page_pairs (key ∷ keys) [] set = none
page_pairs (key ∷ keys) (val ∷ vals) set =
    let skipped = page_pairs keys vals set in
    let kept = page_pairs keys vals (key ∷ set) in
    if val == "" || contains set key
    then skipped
    else elim kept [ none ↦ none | some (set', pairs) ↦ some (set', (key, val) ∷ pairs) ]

-- The page is put before those of the rest of the loop.
abbrev pub put_page : Pairs → Scan (List Pairs) → Scan (List Pairs)
put_page page (scanned pages) = scanned (page ∷ pages)
put_page page (failed e) = failed e
put_page page index_panic = index_panic
put_page page unfinished = unfinished

module _ (S : Scanner) where
  open S use {Conn, scan, mget}

  -- The goroutine of one connection.
  unfoldable pub scan_conn : String → ℕ → ℕ → List String → Conn → Scan (List Pairs)
  unfolding page_pairs
  scan_conn match zero cursor set c = unfinished
  scan_conn match (suc fuel) cursor set c =
      let (keys, next, err) = scan match cursor c in
      let (vals, mget_err) = mget keys c in
      let go_on = scan_conn match fuel next set c in
      elim err [
        | some e ↦ failed e
        | none ↦
            if eqb (length keys) 0
            then if eqb next 0 then scanned [] else go_on
            else elim mget_err [
              | some e ↦ failed e
              | none ↦ elim (page_pairs keys vals set) [
                | none ↦ index_panic
                | some (set', page) ↦
                    let rest = scan_conn match fuel next set' c in
                    if eqb next 0 then scanned (page ∷ []) else put_page page rest
              ]
            ]
      ]

-- errs.Wait: the scans in the order in which their goroutines end; the first error is returned.
abbrev pub after_failure : {A B : Type 0} → Error → Scan A → Scan B
after_failure e index_panic = index_panic
after_failure e unfinished = unfinished
after_failure e _ = failed e

abbrev pub after_scan : {A : Type 0} → A → Scan (List A) → Scan (List A)
after_scan a (scanned rest) = scanned (a ∷ rest)
after_scan a (failed e) = failed e
after_scan a index_panic = index_panic
after_scan a unfinished = unfinished

abbrev pub after_block : {A B : Type 0} → Scan A → Scan B
after_block index_panic = index_panic
after_block _ = unfinished

unfoldable pub wait_all : {A : Type 0} → List (Scan A) → Scan (List A)
wait_all [] = scanned []
wait_all (scanned a ∷ scans) = after_scan a (wait_all scans)
wait_all (failed e ∷ scans) = after_failure e (wait_all scans)
wait_all (index_panic ∷ scans) = index_panic
wait_all (unfinished ∷ scans) = after_block (wait_all scans)

-- holderMap[key], made or counted up
unfoldable pub count_holder : String × String → List HolderInfo → List HolderInfo
count_holder (key, val) [] = record { key = key; val = val; count = 1 } ∷ []
count_holder (key, val) (i ∷ infos) =
    let rest = count_holder (key, val) infos in
    if i.key == key then record i { count = i.count + 1 } ∷ infos else i ∷ rest

unfoldable pub count_holders : Pairs → List HolderInfo → List HolderInfo
unfolding count_holder
count_holders [] infos = infos
count_holders (p ∷ pairs) infos = count_holders pairs (count_holder p infos)

-- The last loop.
unfoldable pub with_quorum : ℕ → List HolderInfo → List Holder
with_quorum quorum [] = []
with_quorum quorum (i ∷ infos) =
    let rest = with_quorum quorum infos in
    if leb quorum i.count then record { election = i.key; name = i.val } ∷ rest else rest

-- The free choices of one call: the order in which the goroutines of a group end, how their pages
-- interleave, and the order of range.
pub record Schedule (S : Scanner) : Type 0 where
  pub ending : List S.Conn → List S.Conn
  pub interleave : List (List Pairs) → Pairs
  pub range : List HolderInfo → List HolderInfo

module _ (S : Scanner) where
  open S use {Conn}

  -- The loop over the groups, from a map on.
  unfoldable pub scan_groups :
      Schedule S → String → ℕ → List (List Conn) → List HolderInfo → Scan (List HolderInfo)
  unfolding scan_conn wait_all count_holders
  scan_groups s match fuel [] infos = scanned infos
  scan_groups s match fuel (g ∷ gs) infos =
      elim (wait_all (map (scan_conn S match fuel 0 []) (s.ending g))) [
        | failed e ↦ failed e
        | index_panic ↦ index_panic
        | unfinished ↦ unfinished
        | scanned pages ↦ scan_groups s match fuel gs (count_holders (s.interleave pages) infos)
      ]

  -- GetHolders; the holders that go with an error are empty
  unfoldable pub get_holders :
      Schedule S → Config → ℕ → ℕ → List (List Conn) → String → Scan (List Holder)
  unfolding scan_groups with_quorum
  get_holders s cfg fuel quorum groups kind =
      elim (scan_groups s (lease_kind_prefix cfg kind <> "*") fuel groups []) [
        | failed e ↦ failed e
        | index_panic ↦ index_panic
        | unfinished ↦ unfinished
        | scanned infos ↦ scanned (with_quorum quorum (s.range infos))
      ]
