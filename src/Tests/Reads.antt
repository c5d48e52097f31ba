-- ===== src/Tests/Reads.antt =====
-- Majority reads.
use election_agent.Prelude.{
  ℕ, zero, suc, ◌≤◌, String, ◌≡◌, refl, ◌↔◌, none, some, List, [], ◌∷◌, arith, get_elem?, count_if,
}
use mathlib.Core.List.{Perm}
use mathlib.Core.List.Perm as Perms
use mathlib.Core.Path.{subst}
use mathlib.Core.Option.{some-injective}
use election_agent.Errors.{text}
use election_agent.Redlock.Quorum.{quorum_of}
use election_agent.Redlock.Shards.{set_conn_shards, ConnShards, RedLock}
use election_agent.Redlock.Shards.Majority.{AllOfSize}
use election_agent.Redlock.Votes.{StringReply, act_string_op}
use election_agent.Redlock.Votes.Majority.{agrees, act_string_op_iff}
use election_agent.Tests.Fixtures.{go_multierror}

abbrev vals : List String
vals = "ann" ∷ "" ∷ "ann" ∷ []

abbrev reads : List StringReply
reads =
    record { err = none; reply = "ann" }
    ∷ record { err = some (text "timeout"); reply = "" }
    ∷ record { err = none; reply = "ann" }
    ∷ []

act_string_op_iff_example :
    let out = act_string_op (λ es. es) 2 reads in
    ((out.2 ≡ none) × (out.1 ≡ "ann")) ↔ (2 ≤ count_if (agrees "ann") reads)
act_string_op_iff_example = act_string_op_iff (λ es. es) reads "ann" (λ es. Perms.refl es)

abbrev shards : ConnShards ℕ
shards = (1 ∷ 2 ∷ 3 ∷ []) ∷ (4 ∷ 5 ∷ 6 ∷ []) ∷ []

abbrev lock : RedLock ℕ
lock = record { shuffle_conn_pool = shards ∷ []; conn_shards = shards; quorum = quorum_of 3 }

built : set_conn_shards ℕ ((λ c. c) ∷ []) shards ≡ some lock
unfolding set_conn_shards
built = refl

only_shuffle :
    (f : List ℕ → List ℕ) (i : ℕ) (c : List ℕ) → get_elem? ((λ c. c) ∷ []) i ≡ some f → Perm (f c) c
only_shuffle f zero c h = subst (λ g. Perm (g c) c) (some-injective _ _ h) (Perms.refl c)
only_shuffle f (suc i) c h = absurd (ground arith)

two_shards : AllOfSize {C = ℕ} 3 ((4 ∷ 5 ∷ 6 ∷ []) ∷ [])
two_shards = ground arith
