-- ===== src/Redlock/Store/Register/Refines.antt =====
-- Over servers that fail, with one shard of connections, the key-value operations refine registers.
use election_agent.Prelude.{
  ℕ, suc, ◌%◌, ◌<◌, String, ◌≡◌, refl, sym, inl, inr, Bool, not, Option, none, some, List, [], ◌∷◌,
  map, arith, ◌==◌, eqb, is_some, Bool-cases, length, get_elem?,
}
use mathlib.Core.Path.{subst}
use mathlib.Core.List.{Perm}
use election_agent.Errors.{Error, Multierror}
use election_agent.Redlock.Quorum.{quorum_of}
use election_agent.Redlock.Shards.{RedLock, ConnGroup, set_conn_shards, get_conns, get_master_conns}
use election_agent.Redlock.Store.{
  Clients, Turn, act_all, status_on, string_on, get_empty, set_empty, mset_empty, mset_odd,
}
use election_agent.Redlock.Store.Held.{
  assigned, Writes, IsFaithful, IsTurn, Stored-perm, Stored-unique, Reads-frame,
}
use election_agent.Redlock.Store.Held.Answers.{status_on-Stored, string_on-Stored}
use election_agent.Redlock.Store.Columns.{mget_result-Confirmed}
use election_agent.Redlock.Store.Register.{
  StoreCall, read, write, read_all, write_all, value, values, count, perform, Answer, Known, settle,
  after, Allowed, AllAllowed, perform_all,
}
use election_agent.Redlock.Store.Register.Calls.{
  perform-read, perform-read-empty, perform-write, perform-write-empty, perform-read_all,
  perform-write_all, perform-write_all-empty, perform-write_all-odd,
}
use election_agent.Redlock.Store.Register.Sure.{
  Sure, Sure-settle, Picked, same-Sure, Confirmed-Agree, get_conns-Picked,
  get_master_conns-get_conns, settle-failed,
}

module _ {K : Clients} (F : IsFaithful K) (g : ConnGroup K.Conn) where
  module _ ⦃lib : Multierror⦄ (t : Turn) (it : IsTurn t) (r : RedLock K.Conn) where
    -- What a call does to registers.
    Refines : StoreCall → Known → K.World → Type 0
    Refines c known w =
        (w' : K.World) × (a : Answer) × (perform K t r c w ≡ some (w', a))
        × Allowed known c a
        × Sure F g (after c a known) w'

    picked_write :
        (a : String → Option String) (act : K.Conn → K.World → K.World × (Bool × Option Error))
        (cs : List K.Conn) (known : Known) (w : K.World)
        → Perm cs g
        → Writes F.held a act
        → Sure F g known w
        → let (w', (n, err)) = status_on K t act (cs, quorum_of (length cs)) w in
          Sure F g (settle a (not (is_some err)) known) w'
    unfolding status_on
    picked_write a act cs known w p wr s =
        Sure-settle F g a act cs _ known w wr
          (λ o k v e.
            Stored-perm F cs g k v _ p (status_on-Stored F t a act cs w k v it wr e (ground arith)))
          s

    Refines-read :
        (k : String) (known : Known) (w : K.World)
        → Picked F g (get_conns K.Conn t.idx r k)
        → Sure F g known w
        → Refines (read k) known w
    unfolding Refines string_on
    Refines-read k known w (cs, e, p) s = elim (Bool-cases (k == "")) [
      | inl f ↦
          (w, value get_empty, perform-read-empty K t r k w f, (λ o. absurd (ground arith)), s)
      | inr f ↦ (
        _,
        _,
        perform-read K t r k w _ f e,
        λ o x h. Stored-unique F g k x _ w (s k x h) (
            Stored-perm F cs g k _ w p
              (string_on-Stored F t (K.get k) cs w k it (F.get-Reads k) o)),
        same-Sure F g known w _ (Reads-frame F (λ h. h k) (K.get k) cs w (F.get-Reads k)) s,
      )
    ]

    Refines-write :
        (k v : String) (known : Known) (w : K.World)
        → Picked F g (get_conns K.Conn t.idx r k)
        → Sure F g known w
        → Refines (write k v) known w
    unfolding Refines
    Refines-write k v known w (cs, e, p) s = elim (Bool-cases (k == "")) [
      | inl f ↦ (
        w,
        count set_empty,
        perform-write-empty K t r k v w f,
        tt,
        settle-failed F g (assigned (k ∷ v ∷ [])) known w s,
      )
      | inr f ↦ (
        _,
        _,
        perform-write K t r k v w _ f e,
        tt,
        picked_write _ (K.set k v) cs known w p (F.set-Writes k v) s,
      )
    ]

    Refines-read_all :
        (ks : List String) (known : Known) (w : K.World)
        → Picked F g (get_master_conns K.Conn t.idx r)
        → Sure F g known w
        → Refines (read_all ks) known w
    unfolding Refines
    Refines-read_all ks known w (cs, e, p) s =
        let view : (String → String) → List String = λ h. map h ks in
        let rs = (act_all K (K.mget ks) cs w).1 in
        let (out, f, ok) =
          mget_result-Confirmed F ks (K.mget ks) (F.mget-Reads ks) t.range it.1 cs w (t.arrival rs)
            (it.0 _ rs) in
        (
          _,
          values out,
          perform-read_all K t r ks w cs _ out e f,
          λ o. Confirmed-Agree F g known cs w ks out.0 p s (ok o),
          same-Sure F g known w _ (Reads-frame F view (K.mget ks) cs w (F.mget-Reads ks)) s,
        )

    Refines-write_all :
        (pairs : List String) (known : Known) (w : K.World)
        → Picked F g (get_master_conns K.Conn t.idx r)
        → Sure F g known w
        → Refines (write_all pairs) known w
    unfolding Refines
    Refines-write_all pairs known w (cs, e, p) s =
        let failed = settle-failed F g (assigned pairs) known w s in
        elim (Bool-cases (eqb (length pairs) 0)) [
          | inl f ↦ (w, count mset_empty, perform-write_all-empty K t r pairs w f, tt, failed)
          | inr f ↦ elim (Bool-cases (eqb (length pairs % 2) 0)) [
            | inr h ↦ (w, count mset_odd, perform-write_all-odd K t r pairs w f h, tt, failed)
            | inl h ↦ (
              _,
              _,
              perform-write_all K t r pairs w _ f h e,
              tt,
              picked_write _ (K.mset pairs) cs known w p (F.mset-Writes pairs) s,
            )
          ]
        ]

    refines :
        (c : StoreCall) (known : Known) (w : K.World)
        → ((k : String) → Picked F g (get_conns K.Conn t.idx r k))
        → Picked F g (get_master_conns K.Conn t.idx r)
        → Sure F g known w
        → Refines c known w
    refines (read k) known w p m s = Refines-read k known w (p k) s
    refines (write k v) known w p m s = Refines-write k v known w (p k) s
    refines (read_all ks) known w p m s = Refines-read_all ks known w m s
    refines (write_all pairs) known w p m s = Refines-write_all pairs known w m s

  module _ ⦃lib : Multierror⦄ (shuffles : List (ConnGroup K.Conn → ConnGroup K.Conn))
      (r : RedLock K.Conn) (turns : ℕ → Turn)
      (perms : (f : ConnGroup K.Conn → ConnGroup K.Conn) (i : ℕ) (c : ConnGroup K.Conn)
        → get_elem? shuffles i ≡ some f
        → Perm (f c) c)
      (built : set_conn_shards K.Conn shuffles (g ∷ []) ≡ some r)
      (fair : (i : ℕ) → IsTurn (turns i))
      (in_pool : (i : ℕ) → (turns i).idx < length shuffles) where
    pub master-Picked : (i : ℕ) → Picked F g (get_master_conns K.Conn (turns i).idx r)
    master-Picked i =
        subst (Picked F g) (sym (get_master_conns-get_conns F g (turns i).idx r))
          (get_conns-Picked F g shuffles r (turns i).idx "" perms (in_pool i) built)

    perform_all-Sure :
        (i : ℕ) (calls : List StoreCall) (known : Known) (w : K.World)
        → Sure F g known w
        → (w' : K.World) × (answers : List Answer) × (perform_all K turns i r calls w
            ≡ some (w', answers))
          × AllAllowed known calls answers
    unfolding perform_all Refines
    perform_all-Sure i [] known w s = (w, [], refl, tt)
    perform_all-Sure i (c ∷ calls) known w s =
        let (w1, a, e, ok, s1) =
          refines (turns i) (fair i) r c known w
            (λ k. get_conns-Picked F g shuffles r (turns i).idx k perms (in_pool i) built)
            (master-Picked i) s in
        let (w2, rest, f, oks) = perform_all-Sure (suc i) calls (after c a known) w1 s1 in
        (w2, a ∷ rest, rw (perform_all, e, f) refl, (ok, oks))

    -- The key-value store refines registers: over one shard of servers that behave as documented
    -- but may fail, with shuffles that permute, replies in any order and an index into the pool in
    -- every turn, any sequence of Get, Set, MGet and MSet ends without a panic; every Get without
    -- an error returns the value that the last successful write gave its key, if no write of the
    -- key failed since, and every value of an MGet without an error is that or empty.
    pub perform_all-registers :
        (calls : List StoreCall) (w : K.World)
        → (w' : K.World) × (answers : List Answer) × (perform_all K turns 0 r calls w
            ≡ some (w', answers))
          × AllAllowed (λ k. none) calls answers
    perform_all-registers calls w =
        perform_all-Sure 0 calls (λ k. none) w (λ k v h. absurd (ground arith))
