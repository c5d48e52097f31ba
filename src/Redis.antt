-- ===== src/Redis.antt =====
-- One Redis server, by the documented behaviour of the commands that the agent's scripts call.
-- Times are in nanoseconds and the expiry arguments in milliseconds, as on the wire.
pub mod Table
use election_agent.Prelude.{
  ℕ, ◌+◌, ◌*◌, ◌≤◌, ◌<◌, String, ◌≡◌, Bool, not, ◌&&◌, Option, none, some, ◌==◌, ltb, if◌then◌else◌,
  is_some,
}

abbrev pub ns_per_ms : ℕ
ns_per_ms = 1000000

-- What GET shows at time `u` of a key that was written at time `t` with an expiry of `ms`.
abbrev pub alive : ℕ → ℕ → ℕ → String → Option String
alive t ms u v = if ltb u (t + ms * ns_per_ms) then some v else none

pub record RedisServer : Type 1 where
  pub Server : Type 0
  -- GET key, at a time; it changes nothing that a client can see
  pub get : Server → ℕ → String → Option String
  -- SET key value PX ms
  pub set_px : Server → ℕ → String → String → ℕ → Server
  -- SET key value PX ms NX: true for OK, false for nil
  pub set_px_nx : Server → ℕ → String → String → ℕ → Server × Bool
  -- PEXPIRE key ms: true for 1, false for 0
  pub pexpire : Server → ℕ → String → ℕ → Server × Bool
  -- DEL key: true for 1, false for 0
  pub del : Server → ℕ → String → Server × Bool
  -- a key that is there has been there since it was written
  pub get-earlier :
      (s : Server) (t u : ℕ) (k v : String) → t ≤ u → get s u k ≡ some v → get s t k ≡ some v
  pub get-set_px :
      (s : Server) (t u : ℕ) (k j v : String) (ms : ℕ)
      → t ≤ u
      → 0 < ms
      → get (set_px s t k v ms) u j ≡ (if k == j then alive t ms u v else get s u j)
  pub set_px_nx-reply :
      (s : Server) (t : ℕ) (k v : String) (ms : ℕ)
      → 0 < ms
      → (set_px_nx s t k v ms).1 ≡ not (is_some (get s t k))
  pub get-set_px_nx :
      (s : Server) (t u : ℕ) (k j v : String) (ms : ℕ)
      → t ≤ u
      → 0 < ms
      → get (set_px_nx s t k v ms).0 u j
        ≡ (if k == j && not (is_some (get s t k)) then alive t ms u v else get s u j)
  pub pexpire-reply :
      (s : Server) (t : ℕ) (k : String) (ms : ℕ) → (pexpire s t k ms).1 ≡ is_some (get s t k)
  pub get-pexpire :
      (s : Server) (t u : ℕ) (k j v : String) (ms : ℕ)
      → t ≤ u
      → get s t k ≡ some v
      → get (pexpire s t k ms).0 u j ≡ (if k == j then alive t ms u v else get s u j)
  pub del-reply : (s : Server) (t : ℕ) (k : String) → (del s t k).1 ≡ is_some (get s t k)
  pub get-del :
      (s : Server) (t u : ℕ) (k j : String)
      → t ≤ u
      → get (del s t k).0 u j ≡ (if k == j then none else get s u j)
