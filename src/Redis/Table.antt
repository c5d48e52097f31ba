-- ===== src/Redis/Table.antt =====
-- A server as a table from keys to cells, which meets the laws of `RedisServer`.
use election_agent.Prelude.{
  ℕ, ◌+◌, ◌*◌, ◌≤◌, String, ◌≡◌, refl, ap, ◌∙◌, inl, inr, Bool, true, false, not, ◌&&◌, Option,
  none, some, arith, ◌==◌, ltb, if◌then◌else◌, is_some, Bool-cases,
}
use election_agent.Redis.{RedisServer, ns_per_ms, alive}

-- The value, and the time from which the key is gone.
pub record Cell : Type 0 where
  pub value : String
  pub until : ℕ

abbrev pub live : ℕ → Option Cell → Option String
live u none = none
live u (some c) = if ltb u c.until then some c.value else none

abbrev pub Table : Type 0
Table = String → Option Cell

abbrev put : Table → String → Option Cell → Table
put s k c j = if k == j then c else s j

abbrev cell : ℕ → String → ℕ → Option Cell
cell t v ms = some (record { value = v; until = t + ms * ns_per_ms })

abbrev touch_cell : ℕ → ℕ → Option Cell → Option Cell
touch_cell t ms none = none
touch_cell t ms (some c) = if ltb t c.until then cell t c.value ms else none

abbrev table_nx : Table → ℕ → String → String → ℕ → Table × Bool
table_nx s t k v ms = if is_some (live t (s k)) then (s, false) else (put s k (cell t v ms), true)

pub live-earlier :
    (t u : ℕ) (o : Option Cell) (v : String) → t ≤ u → live u o ≡ some v → live t o ≡ some v
live-earlier t u none v h e = ground arith
live-earlier t u (some c) v h e = ground arith

pub live-put :
    (s : Table) (u : ℕ) (k j : String) (c : Option Cell)
    → live u (put s k c j) ≡ (if k == j then live u c else live u (s j))
live-put s u k j c = ground arith

pub nx-reply :
    (s : Table) (t : ℕ) (k v : String) (ms : ℕ)
    → (table_nx s t k v ms).1 ≡ not (is_some (live t (s k)))
nx-reply s t k v ms = elim (Bool-cases (is_some (live t (s k)))) [ inl e ↦ rw e | inr e ↦ rw e ]

pub get-nx :
    (s : Table) (t u : ℕ) (k j v : String) (ms : ℕ)
    → live u ((table_nx s t k v ms).0 j)
      ≡ (if k == j && not (is_some (live t (s k))) then alive t ms u v else live u (s j))
get-nx s t u k j v ms = elim (Bool-cases (is_some (live t (s k)))) [
  | inl e ↦ rw e (ground arith)
  | inr e ↦ rw e (ground arith)
]

pub get-touch :
    (t u ms : ℕ) (o : Option Cell) (v : String)
    → live t o ≡ some v
    → live u (touch_cell t ms o) ≡ alive t ms u v
get-touch t u ms none v e = ground arith
get-touch t u ms (some c) v e = ground arith

abbrev pub table_server : RedisServer
table_server = record {
  Server = Table;
  get = λ s t k. live t (s k);
  set_px = λ s t k v ms. put s k (cell t v ms);
  set_px_nx = table_nx;
  pexpire = λ s t k ms. (put s k (touch_cell t ms (s k)), is_some (live t (s k)));
  del = λ s t k. (put s k none, is_some (live t (s k)));
  get-earlier = λ s t u k v. live-earlier t u (s k) v;
  get-set_px = λ s t u k j v ms h p. live-put s u k j (cell t v ms);
  set_px_nx-reply = λ s t k v ms p. nx-reply s t k v ms;
  get-set_px_nx = λ s t u k j v ms h p. get-nx s t u k j v ms;
  pexpire-reply = λ s t k ms. refl;
  get-pexpire = λ s t u k j v ms h e.
      live-put s u k j (touch_cell t ms (s k))
      ∙ ap (λ o. if k == j then o else live u (s j)) (get-touch t u ms (s k) v e);
  del-reply = λ s t k. refl;
  get-del = λ s t u k j h. live-put s u k j none;
}
