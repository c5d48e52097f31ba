-- ===== src/Redlock/Mutex/Exclusion.antt =====
-- Mutual exclusion: what a granted lock leaves in the servers, and what rivals can do to it.
pub mod Grant
pub mod Rivals
pub mod Leader
use election_agent.Prelude.{
  ℕ, suc, ◌+◌, ◌≤◌, String, ◌≡◌, refl, ap, ◌↔◌, Bool, true, false, Option, none, some, List, [],
  ◌∷◌, arith, eq_iff, length, count_if,
}
use mathlib.Core.List.{Perm}
use election_agent.Errors.{Error}
use election_agent.Redis.{RedisServer}
use election_agent.Redlock.Quorum.{Reply}
use election_agent.Redlock.Quorum.Verdict.{is_ok}
use election_agent.Redlock.Script.{Request, same, is_made}
use election_agent.Redlock.Mutex.{Conn, act_nodes}

-- The replies arrive in some order, each once.
abbrev pub ArrivesAll : (List Reply → List Reply) → Type 0
ArrivesAll arrival = (rs : List Reply) → Perm (arrival rs) rs

pub same_iff : (o : Option String) (v : String) → (same o v ≡ true) ↔ (o ≡ some v)
same_iff none v = (λ h. absurd (ground arith), λ h. absurd (ground arith))
same_iff (some w) v = ground (arith, eq_iff w v)

module _ (R : RedisServer) where
  open R use {Server, get}

  -- How many servers show `holder` for the key at time `u`.
  abbrev pub held : ℕ → String → String → List Server → ℕ
  held u key holder ss = count_if (λ s. same (get s u key) holder) ss

  -- Every request is made, and executed between two times if it is.
  abbrev pub Within : ℕ → ℕ → List (Conn R) → Type 0
  Within lo hi [] = Unit
  Within lo hi ((r, s) ∷ cs) = (lo ≤ r.at) × (r.at ≤ hi) × (is_made r ≡ true) × Within lo hi cs

  abbrev pub servers_of : List (Conn R) → List Server
  servers_of [] = []
  servers_of ((r, s) ∷ cs) = s ∷ servers_of cs

  pub length-servers_of : (cs : List (Conn R)) → length (servers_of cs) ≡ length cs
  length-servers_of [] = refl
  length-servers_of ((r, s) ∷ cs) = ap suc (length-servers_of cs)

  module _ (act : Request → Server → Server × (Bool × Option Error)) where
    pub length-act_nodes :
        (node : ℕ) (cs : List (Conn R))
        → (length (act_nodes R act node cs).0 ≡ length cs)
          × (length (act_nodes R act node cs).1 ≡ length cs)
    unfolding act_nodes
    length-act_nodes node [] = (refl, refl)
    length-act_nodes node ((r, s) ∷ cs) =
        let (p, q) = length-act_nodes (suc node) cs in (ap suc p, ap suc q)

    -- A test that every granting node passes afterwards is passed by as many servers.
    pub ok-le-after :
        (lo hi : ℕ) (test : Server → Bool)
        → ((r : Request) (s : Server)
            → lo ≤ r.at
            → r.at ≤ hi
            → is_made r ≡ true
            → (act r s).1.0 ≡ true
            → test (act r s).0 ≡ true)
        → (node : ℕ) (cs : List (Conn R)) → Within lo hi cs
        → count_if is_ok (act_nodes R act node cs).1 ≤ count_if test (act_nodes R act node cs).0
    unfolding act_nodes
    ok-le-after lo hi test one node [] w = omega arith
    ok-le-after lo hi test one node ((r, s) ∷ cs) (p, q, k, w) =
        ground (arith, one r s p q k, ok-le-after lo hi test one (suc node) cs w)

    -- A test that no granting node passed before leaves the others only.
    pub ok-add-before-le :
        (lo hi : ℕ) (test : Server → Bool)
        → ((r : Request) (s : Server)
            → lo ≤ r.at
            → r.at ≤ hi
            → is_made r ≡ true
            → test s ≡ true
            → (act r s).1.0 ≡ false)
        → (node : ℕ) (cs : List (Conn R)) → Within lo hi cs
        → count_if is_ok (act_nodes R act node cs).1 + count_if test (servers_of cs) ≤ length cs
    unfolding act_nodes
    ok-add-before-le lo hi test one node [] w = omega arith
    ok-add-before-le lo hi test one node ((r, s) ∷ cs) (p, q, k, w) =
        ground (arith, one r s p q k, ok-add-before-le lo hi test one (suc node) cs w)
