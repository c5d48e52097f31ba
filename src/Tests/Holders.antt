-- ===== src/Tests/Holders.antt =====
-- GetHolders over three servers that show three different holders of one lease.
use election_agent.Prelude.{
  ℕ, String, ◌<>◌, ◌≡◌, refl, false, none, List, [], ◌∷◌, map, arith, ◌==◌, leb, eqb, if◌then◌else◌,
  count_if,
}
use mathlib.Core.List.{flatten}
use mathlib.Core.List.Perm as Perms
use election_agent.Config.{lease_kind_prefix}
use election_agent.Driver.Holders.{
  Scanner, scanned, Holder, Schedule, scan_conn, wait_all, count_holders, with_quorum, scan_groups,
  get_holders,
}
use election_agent.Driver.Holders.Counted.{once, showing}
use election_agent.Driver.Holders.Reported.{get_holders-reports}
use election_agent.Driver.Holders.Ends.{is_unfinished, get_holders-ends}
use election_agent.Tests.Fixtures.{config}

abbrev shop : String
shop = "agent/lease/default/shop"

-- Each server has the key on its second page, under a holder of its own.
abbrev servers : Scanner
servers = record {
  Conn = String;
  scan = λ match cursor c. if eqb cursor 0 then ([], 7, none) else (shop ∷ [], 0, none);
  mget = λ keys c. (map (λ k. c) keys, none);
}

abbrev in_order : Schedule servers
in_order = record { ending = λ g. g; interleave = λ p. flatten (flatten p); range = λ is. is }

abbrev group : List String
group = "ann" ∷ "bob" ∷ "cy" ∷ []

abbrev reported : List Holder
reported = record { election = shop; name = "ann" } ∷ []

-- No two servers agree, and still the first one's holder is reported.
get_holders-disagree : get_holders servers in_order config 3 2 (group ∷ []) "" ≡ scanned reported
unfolding get_holders scan_groups scan_conn wait_all count_holders with_quorum flatten
get_holders-disagree = refl

get_holders-reports_example :
    count_if (λ h. h.election == shop) reported
    ≡ once
        (leb 2 (showing servers (lease_kind_prefix config "" <> "*") 3 shop (flatten (group ∷ []))))
get_holders-reports_example =
    get_holders-reports servers in_order config 3 2 "" (group ∷ []) reported shop
      ((λ g. Perms.refl g), (λ p. Perms.refl (flatten (flatten p))), λ is. Perms.refl is)
      (omega arith) get_holders-disagree

abbrev rank : String → ℕ → ℕ
rank c cursor = if eqb cursor 0 then 1 else 0

get_holders-ends_example :
    is_unfinished (get_holders servers in_order config 2 2 (group ∷ []) "") ≡ false
get_holders-ends_example =
    get_holders-ends servers in_order config rank 2 2 (group ∷ []) "" (λ c cursor. ground arith)
      (λ c. omega arith)
