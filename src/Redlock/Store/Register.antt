-- ===== src/Redlock/Store/Register.antt =====
-- The key-value operations of internal/driver/redlock/redlock.go as registers: the calls, and the
-- answers that registers may give, some of which are not settled.
pub mod Calls
pub mod Sure
pub mod Refines
use election_agent.Prelude.{
  ℕ, suc, String, ◌≡◌, ◌⊎◌, Bool, not, Option, none, some, List, [], ◌∷◌, if◌then◌else◌, is_some,
}
use mathlib.Core.Path.{subst}
use mathlib.Core.List.{Perm}
use mathlib.Core.List.Perm as Perms
use election_agent.Errors.{Error, Multierror}
use election_agent.Redlock.Quorum.{quorum_of}
use election_agent.Redlock.Shards.{RedLock, ConnGroup, set_conn_shards, get_conns, get_master_conns}
use election_agent.Redlock.Shards.Majority.{get_conns-majority, shard_of}
use mathlib.Core.Option.{some-injective}
use election_agent.Redlock.Store.{
  Clients, Turn, act_all, status_on, string_on, get_empty, set_empty, mset_empty, mset_odd, get_val,
  set_val, mget_vals, mset_vals, mget_result,
}
use election_agent.Redlock.Store.Held.{
  assigned, Writes, Reads, IsFaithful, IsTurn, holders, Stored, Stored-perm, Stored-unique,
  Reads-frame, Writes-Stored,
}
use election_agent.Redlock.Store.Columns.{Confirmed, mget_result-Confirmed}

pub data StoreCall : Type 0 where
  read : String → StoreCall
  write : String → String → StoreCall
  read_all write_all : List String → StoreCall

pub data Answer : Type 0 where
  value : String × Option Error → Answer
  values : List String × Option Error → Answer
  count : ℕ × Option Error → Answer

-- What is sure of the registers: `none` is a register that is not settled.
abbrev pub Known : Type 0
Known = String → Option String

-- A write settles the keys that it assigns if it succeeds, and unsettles them otherwise.
abbrev pub settle : (String → Option String) → Bool → Known → Known
settle a ok known k = if is_some (a k) then (if ok then a k else none) else known k

abbrev pub after : StoreCall → Answer → Known → Known
after (write k v) (count (n, err)) known = settle (assigned (k ∷ v ∷ [])) (not (is_some err)) known
after (write_all pairs) (count (n, err)) known = settle (assigned pairs) (not (is_some err)) known
after _ _ known = known

-- The values of a multiple read: empty, or what is settled.
abbrev pub Agree : Known → List String → List String → Type 0
Agree known [] [] = Unit
Agree known (k ∷ ks) (v ∷ vs) =
    ((x : String) → known k ≡ some x → (v ≡ "") ⊎ (v ≡ x)) × Agree known ks vs
Agree known _ _ = ⊥

-- The answers that registers may give: an error, or what is settled.
abbrev pub Allowed : Known → StoreCall → Answer → Type 0
Allowed known (read k) (value (v, err)) = err ≡ none → (x : String) → known k ≡ some x → v ≡ x
Allowed known (read_all ks) (values (vs, err)) = err ≡ none → Agree known ks vs
Allowed known (write k v) (count out) = Unit
Allowed known (write_all pairs) (count out) = Unit
Allowed known _ _ = ⊥

abbrev pub AllAllowed : Known → List StoreCall → List Answer → Type 0
AllAllowed known [] [] = Unit
AllAllowed known (c ∷ calls) (a ∷ answers) =
    Allowed known c a × AllAllowed (after c a known) calls answers
AllAllowed known _ _ = ⊥

abbrev answer_to : {W A : Type 0} → (A → Answer) → Option (W × A) → Option (W × Answer)
answer_to f none = none
answer_to f (some (w, a)) = some (w, f a)

module _ (K : Clients) ⦃lib : Multierror⦄ where
  open K use {Conn, World}

  unfoldable pub perform : Turn → RedLock Conn → StoreCall → World → Option (World × Answer)
  perform t r (read k) w = answer_to value (get_val K t r k w)
  perform t r (write k v) w = answer_to count (set_val K t r k v w)
  perform t r (read_all ks) w = answer_to values (mget_vals K t r ks w)
  perform t r (write_all pairs) w = answer_to count (mset_vals K t r pairs w)

  -- A sequence of calls, of which call number `i` takes the turn `turns i`.
  unfoldable pub perform_all :
      (ℕ → Turn) → ℕ → RedLock Conn → List StoreCall → World → Option (World × List Answer)
  unfolding perform
  perform_all turns i r [] w = some (w, [])
  perform_all turns i r (c ∷ calls) w = elim (perform (turns i) r c w) [
    | none ↦ none
    | some (w1, a) ↦ elim (perform_all turns (suc i) r calls w1) [
      | none ↦ none
      | some (w2, rest) ↦ some (w2, a ∷ rest)
    ]
  ]
