-- ===== src/Redlock/Store/Register/Calls.antt =====
-- What one call of the key-value operations does, by the branches of its code.
use election_agent.Prelude.{
  ℕ, ◌%◌, String, ◌≡◌, refl, true, false, Option, some, List, ◌==◌, eqb, length,
}
use election_agent.Errors.{Error, Multierror}
use election_agent.Redlock.Shards.{RedLock, get_conns, get_master_conns}
use election_agent.Redlock.Store.{
  Clients, Turn, act_all, status_on, string_on, get_empty, set_empty, mset_empty, mset_odd, get_val,
  set_val, mget_vals, mset_vals, mget_result,
}
use election_agent.Redlock.Store.Register.{
  read, write, read_all, write_all, value, values, count, perform,
}

module _ (K : Clients) ⦃lib : Multierror⦄ (t : Turn) (r : RedLock K.Conn) where
  pub perform-read-empty :
      (k : String) (w : K.World)
      → (k == "") ≡ true
      → perform K t r (read k) w ≡ some (w, value get_empty)
  unfolding perform get_val
  perform-read-empty k w e = rw (perform, get_val, e) refl

  pub perform-read :
      (k : String) (w : K.World) (p : List K.Conn × ℕ)
      → (k == "") ≡ false
      → get_conns K.Conn t.idx r k ≡ some p
      → let (w', (n, v, err)) = string_on K t (K.get k) p w in
        perform K t r (read k) w ≡ some (w', value (v, err))
  unfolding perform get_val
  perform-read k w p e f = rw (perform, get_val, e, f) refl

  pub perform-write-empty :
      (k v : String) (w : K.World)
      → (k == "") ≡ true
      → perform K t r (write k v) w ≡ some (w, count set_empty)
  unfolding perform set_val
  perform-write-empty k v w e = rw (perform, set_val, e) refl

  pub perform-write :
      (k v : String) (w : K.World) (p : List K.Conn × ℕ)
      → (k == "") ≡ false
      → get_conns K.Conn t.idx r k ≡ some p
      → let (w', out) = status_on K t (K.set k v) p w in
        perform K t r (write k v) w ≡ some (w', count out)
  unfolding perform set_val
  perform-write k v w p e f = rw (perform, set_val, e, f) refl

  pub perform-read_all :
      (ks : List String) (w : K.World) (cs : List K.Conn) (quorum : ℕ)
      (out : List String × Option Error)
      → get_master_conns K.Conn t.idx r ≡ some (cs, quorum)
      → let (w', rs) = act_all K (K.mget ks) cs w in
        mget_result t.range quorum ks (t.arrival rs) ≡ some out
        → perform K t r (read_all ks) w ≡ some (w', values out)
  unfolding perform mget_vals
  perform-read_all ks w cs quorum out e f = rw (perform, mget_vals, e, f) refl

  pub perform-write_all :
      (pairs : List String) (w : K.World) (p : List K.Conn × ℕ)
      → eqb (length pairs) 0 ≡ false
      → eqb (length pairs % 2) 0 ≡ true
      → get_master_conns K.Conn t.idx r ≡ some p
      → let (w', out) = status_on K t (K.mset pairs) p w in
        perform K t r (write_all pairs) w ≡ some (w', count out)
  unfolding perform mset_vals
  perform-write_all pairs w p e f h = rw (perform, mset_vals, e, f, h) refl

  pub perform-write_all-empty :
      (pairs : List String) (w : K.World)
      → eqb (length pairs) 0 ≡ true
      → perform K t r (write_all pairs) w ≡ some (w, count mset_empty)
  unfolding perform mset_vals
  perform-write_all-empty pairs w e = rw (perform, mset_vals, e) refl

  pub perform-write_all-odd :
      (pairs : List String) (w : K.World)
      → eqb (length pairs) 0 ≡ false
      → eqb (length pairs % 2) 0 ≡ false
      → perform K t r (write_all pairs) w ≡ some (w, count mset_odd)
  unfolding perform mset_vals
  perform-write_all-odd pairs w e f = rw (perform, mset_vals, e, f) refl
