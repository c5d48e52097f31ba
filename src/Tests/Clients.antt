-- ===== src/Tests/Clients.antt =====
-- The key-value operations over three servers, one of which is down.
use election_agent.Prelude.{
  ℕ, zero, suc, String, ◌≡◌, refl, ◌⊎◌, inl, inr, Bool, true, false, Option, none, some, List, [],
  ◌∷◌, map, arith, eqb, if◌then◌else◌, Bool-cases, Option-cases, get_elem?,
}
use mathlib.Core.List.{Perm}
use mathlib.Core.List.Perm as Perms
use mathlib.Core.Path.{subst}
use mathlib.Core.Option.{some-injective}
use election_agent.Errors.{Error, text}
use election_agent.Redlock.Shards.{RedLock, set_conn_shards}
use election_agent.Redlock.Store.{Clients, Turn}
use election_agent.Redlock.Store.Held.{assigned, Writes, IsFaithful}
use election_agent.Tests.Fixtures.{go_multierror}

-- A server is its number and whether it is up.
abbrev pub Node : Type 0
Node = ℕ × Bool

abbrev Held : Type 0
Held = ℕ → String → String

abbrev pub down : Error
down = text "connection refused"

abbrev pub put_pairs : ℕ → List String → Held → Held
put_pairs n pairs w m k =
    if eqb n m then elim (assigned pairs k) [ none ↦ w m k | some v ↦ v ] else w m k

abbrev put : List String → Node → Held → Held × (Bool × Option Error)
put pairs (n, true) w = (put_pairs n pairs w, (true, none))
put pairs (n, false) w = (w, (false, some down))

abbrev pub text_clients : Clients
text_clients = record {
  Conn = Node;
  World = Held;
  ping = λ c w. (w, if c.1 then (true, none) else (false, some down));
  get = λ k c w. (w, if c.1 then (w c.0 k, none) else ("", some down));
  set = λ k v c w. put (k ∷ v ∷ []) c w;
  mget = λ ks c w. (w, if c.1 then (map (w c.0) ks, none) else ([], some down));
  mset = put;
}

holds : Held → Node → String → String
holds w c k = w c.0 k

put-Writes : (pairs : List String) → Writes (λ w c k. w c.0 k) (assigned pairs) (put pairs)
put-Writes pairs =
    (λ (n, up) w k v h e. written n up w k v h e, λ (n, up) w (m, up') k. only n up w m k)
  where
    written :
        (n : ℕ) (up : Bool) (w : Held) (k v : String)
        → (put pairs (n, up) w).1.0 ≡ true
        → assigned pairs k ≡ some v
        → (put pairs (n, up) w).0 n k ≡ v
    written n true w k v h e = rw e (ground arith)
    written n false w k v h e = absurd (ground arith)

    only :
        (n : ℕ) (up : Bool) (w : Held) (m : ℕ) (k : String)
        → ((put pairs (n, up) w).0 m k ≡ w m k)
          ⊎ (assigned pairs k ≡ some ((put pairs (n, up) w).0 m k))
    only n false w m k = inl refl
    only n true w m k = elim (Bool-cases (eqb n m)) [
      | inr f ↦ inl (rw f refl)
      | inl f ↦ elim (Option-cases (assigned pairs k)) [
        | inl e ↦ inl (rw (f, e) refl)
        | inr (v, e) ↦ inr (rw (f, e) refl)
      ]
    ]

pub text-IsFaithful : IsFaithful text_clients
text-IsFaithful = record {
  held = λ w c k. w c.0 k;
  get-Reads = λ key. (λ c w. refl, λ (n, up) w h. read_one key n up w h);
  mget-Reads = λ keys. (λ c w. refl, λ (n, up) w h. read_many keys n up w h);
  set-Writes = λ key value. put-Writes (key ∷ value ∷ []);
  mset-Writes = put-Writes;
}
  where
    read_one :
        (key : String) (n : ℕ) (up : Bool) (w : Held)
        → (text_clients.get key (n, up) w).1.1 ≡ none
        → (text_clients.get key (n, up) w).1.0 ≡ w n key
    read_one key n true w h = refl
    read_one key n false w h = absurd (ground arith)

    read_many :
        (keys : List String) (n : ℕ) (up : Bool) (w : Held)
        → (text_clients.mget keys (n, up) w).1.1 ≡ none
        → (text_clients.mget keys (n, up) w).1.0 ≡ map (w n) keys
    read_many keys n true w h = refl
    read_many keys n false w h = absurd (ground arith)

abbrev pub trio : List Node
trio = (1, true) ∷ (2, false) ∷ (3, true) ∷ []

abbrev pub trio_lock : RedLock Node
trio_lock = record { shuffle_conn_pool = (trio ∷ []) ∷ []; conn_shards = trio ∷ []; quorum = 2 }

pub trio-built : set_conn_shards Node ((λ c. c) ∷ []) (trio ∷ []) ≡ some trio_lock
unfolding set_conn_shards
trio-built = refl

abbrev pub turn : Turn
turn = record { idx = 0; arrival = λ xs. xs; range = λ es. es }

pub only_identity :
    (f : List Node → List Node) (i : ℕ) (c : List Node)
    → get_elem? ((λ c. c) ∷ []) i ≡ some f
    → Perm (f c) c
only_identity f zero c h = subst (λ g. Perm (g c) c) (some-injective _ _ h) (Perms.refl c)
only_identity f (suc i) c h = absurd (ground arith)

abbrev pub blank : Held
blank n k = ""
