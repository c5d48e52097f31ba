-- ===== src/Redlock/Store/Register/Sure.antt =====
-- What is sure of a register is held by a majority of the servers.
use election_agent.Prelude.{
  ℕ, ◌≤◌, ◌<◌, String, ◌≡◌, refl, sym, inl, inr, Bool, true, false, Option, some, List, [], ◌∷◌,
  arith, ◌==◌, Bool-cases, Option-cases, length, get_elem?, count_if,
}
use mathlib.Core.Path.{subst}
use mathlib.Core.List.{Perm}
use election_agent.Errors.{Error}
use election_agent.Redlock.Quorum.{quorum_of}
use election_agent.Redlock.Shards.{RedLock, ConnGroup, set_conn_shards, get_conns, get_master_conns}
use election_agent.Redlock.Shards.Majority.{get_conns-majority, shard_of}
use mathlib.Core.Option.{some-injective}
use election_agent.Redlock.Store.{Clients, act_all}
use election_agent.Redlock.Store.Held.{
  Writes, IsFaithful, Stored, Stored-perm, Stored-unique, Writes-Stored,
}
use election_agent.Redlock.Store.Columns.{Confirmed}
use election_agent.Redlock.Store.Register.{Known, settle, Agree}

module _ {K : Clients} (F : IsFaithful K) (g : ConnGroup K.Conn) where
  -- What is sure is held by a majority.
  abbrev pub Sure : Known → K.World → Type 0
  Sure known w = (k v : String) → known k ≡ some v → Stored F g k v w

  pub Sure-settle :
      (a : String → Option String) (act : K.Conn → K.World → K.World × (Bool × Option Error))
      (cs : List K.Conn) (ok : Bool) (known : Known) (w : K.World)
      → Writes F.held a act
      → (ok ≡ true → (k v : String) → a k ≡ some v → Stored F g k v (act_all K act cs w).0)
      → Sure known w
      → Sure (settle a ok known) (act_all K act cs w).0
  Sure-settle a act cs ok known w wr done s k v e = elim (Option-cases (a k)) [
    | inl f ↦ Writes-Stored F a act cs g w k v wr (inl f) (s k v (ground arith))
    | inr (x, f) ↦ elim (Bool-cases ok) [
      | inl o ↦ done o k v (ground arith)
      | inr o ↦ absurd (ground arith)
    ]
  ]

  -- Connections that a call picked: those of the shard, in some order.
  abbrev pub Picked : Option (List K.Conn × ℕ) → Type 0
  Picked o = (cs : List K.Conn) × (o ≡ some (cs, quorum_of (length cs))) × Perm cs g

  pub same-Sure :
      (known : Known) (w w' : K.World) → F.held w' ≡ F.held w → Sure known w → Sure known w'
  same-Sure known w w' e s k v h =
      subst (λ f. quorum_of (length g) ≤ count_if (λ c. f c k == v) g) (sym e) (s k v h)

  -- A read that a majority confirms is what is sure.
  pub Confirmed-Agree :
      (known : Known) (cs : List K.Conn) (w : K.World) (ks vs : List String)
      → Perm cs g
      → Sure known w
      → Confirmed F cs w ks vs
      → Agree known ks vs
  Confirmed-Agree known cs w [] [] p s h = tt
  Confirmed-Agree known cs w (k ∷ ks) (v ∷ vs) p s (h, hs) = (
    λ x e. elim h [
      | inl f ↦ inl f
      | inr f ↦ inr (Stored-unique F g k x v w (s k x e) (Stored-perm F cs g k v w p f))
    ],
    Confirmed-Agree known cs w ks vs p s hs,
  )
  Confirmed-Agree known cs w [] (v ∷ vs) p s h = absurd h
  Confirmed-Agree known cs w (k ∷ ks) [] p s h = absurd h

  pub get_conns-Picked :
      (shuffles : List (ConnGroup K.Conn → ConnGroup K.Conn)) (r : RedLock K.Conn) (idx : ℕ)
      (key : String)
      → ((f : ConnGroup K.Conn → ConnGroup K.Conn) (i : ℕ) (c : ConnGroup K.Conn)
          → get_elem? shuffles i ≡ some f
          → Perm (f c) c)
      → idx < length shuffles
      → set_conn_shards K.Conn shuffles (g ∷ []) ≡ some r
      → Picked (get_conns K.Conn idx r key)
  get_conns-Picked shuffles r idx key perms lt built =
      let (shard, conns, at, p, e) = get_conns-majority shuffles g [] r idx key perms tt lt built in
      (conns, e, subst (Perm conns) (one_shard key shard at) p)
    where
      one_shard :
          (k : String) (s : ConnGroup K.Conn)
          → get_elem? (g ∷ []) (shard_of (g ∷ []) k) ≡ some s
          → s ≡ g
      one_shard k s h = elim (Bool-cases (k == "")) [
        | inl f ↦ sym (some-injective _ _ (rw f at h))
        | inr f ↦ sym (some-injective _ _ (rw f at h))
      ]

  pub get_master_conns-get_conns :
      (idx : ℕ) (r : RedLock K.Conn) → get_master_conns K.Conn idx r ≡ get_conns K.Conn idx r ""
  unfolding get_master_conns get_conns
  get_master_conns-get_conns idx r = refl

  pub settle-failed :
      (a : String → Option String) (known : Known) (w : K.World)
      → Sure known w
      → Sure (settle a false known) w
  settle-failed a known w s k v e = elim (Option-cases (a k)) [
    | inl f ↦ s k v (ground arith)
    | inr (x, f) ↦ absurd (ground arith)
  ]
