-- ===== src/Driver/Store/Status.antt =====
-- SetAgentStatus and GetAgentStatus of internal/driver/redis_driver.go over the quorum store.
use election_agent.Prelude.{
  ℕ, suc, String, ◌≡◌, refl, sym, ap, ◌∙◌, ◌⊎◌, inl, inr, true, false, Option, none, some, List, [],
  ◌∷◌, arith, ◌==◌, eq_iff, eq_refl, is_some, length,
}
use mathlib.Core.List.{Perm}
use election_agent.Errors.{Error, Multierror}
use election_agent.Config.{Config}
use election_agent.Agent.{Status, unavailable_state, empty_state, unknown_mode}
use election_agent.Redlock.Quorum.{quorum_of}
use election_agent.Redlock.Shards.{RedLock, ConnGroup, get_master_conns}
use election_agent.Redlock.Store.{Clients, Turn, act_all, status_on, mget_vals, mset_vals}
use election_agent.Redlock.Store.Held.{assigned, IsFaithful, IsTurn, Stored-perm}
use election_agent.Redlock.Store.Held.Answers.{status_on-Stored}
use election_agent.Redlock.Store.Columns.{mget_result-Confirmed}
use election_agent.Redlock.Store.Register.{Known, Agree}
use election_agent.Redlock.Store.Register.Sure.{Sure, Picked, Confirmed-Agree}
use election_agent.Driver.AgentState.{
  InfoKeys, set_agent_status, get_agent_status, status_of, status_result, unavailable_status,
  read_state, read_mode,
}
use election_agent.Driver.Store.{quorum_store, flatten_pairs, store_mset, store_mget}

-- The keys are three.
abbrev pub AreDistinct : InfoKeys → Type 0
AreDistinct keys =
    ((keys.state_key == keys.mode_key) ≡ false)
    × ((keys.state_key == keys.active_zone_key) ≡ false)
    × ((keys.mode_key == keys.active_zone_key) ≡ false)

-- A status that agrees with another one, but for fields that could not be confirmed.
abbrev pub Reports : Status → Status → Type 0
Reports written read =
    ((read.state ≡ written.state) ⊎ (read.state ≡ empty_state))
    × ((read.mode ≡ written.mode) ⊎ (read.mode ≡ unknown_mode))
    × ((read.active_zone ≡ written.active_zone) ⊎ (read.active_zone ≡ ""))

status_result-same : (s : Status) → (status_result s).0 ≡ s
status_result-same s = ground arith

field-state :
    (s v : String) → (v ≡ "") ⊎ (v ≡ s) → (read_state v ≡ s) ⊎ (read_state v ≡ empty_state)
field-state s v h = ground (arith, eq_iff v "")

field-mode : (s v : String) → (v ≡ "") ⊎ (v ≡ s) → (read_mode v ≡ s) ⊎ (read_mode v ≡ unknown_mode)
field-mode s v h = ground (arith, eq_iff v "")

abbrev fields : InfoKeys → Status → List (String × String)
fields keys status =
    (keys.state_key, status.state)
    ∷ (keys.mode_key, status.mode)
    ∷ (keys.active_zone_key, status.active_zone)
    ∷ []

abbrev info_keys : InfoKeys → List String
info_keys keys = keys.state_key ∷ keys.mode_key ∷ keys.active_zone_key ∷ []

-- What the assignment of the three fields says of each key.
abbrev Assigns : InfoKeys → Status → Known → Type 0
Assigns keys status known =
    (known keys.state_key ≡ some status.state)
    × (known keys.mode_key ≡ some status.mode)
    × (known keys.active_zone_key ≡ some status.active_zone)

fields-Assigns :
    (keys : InfoKeys) (status : Status)
    → AreDistinct keys
    → Assigns keys status (assigned (flatten_pairs (fields keys status)))
fields-Assigns keys status (d, e, f) = (
  ground (
    arith,
    eq_refl keys.state_key,
    eq_iff keys.state_key keys.mode_key,
    eq_iff keys.mode_key keys.state_key,
    eq_iff keys.active_zone_key keys.state_key,
    eq_iff keys.state_key keys.active_zone_key,
  ),
  ground (
    arith,
    eq_refl keys.mode_key,
    eq_iff keys.active_zone_key keys.mode_key,
    eq_iff keys.mode_key keys.active_zone_key,
  ),
  ground (arith, eq_refl keys.active_zone_key),
)

status_of-Reports :
    (keys : InfoKeys) (status : Status) (known : Known) (out : List String × Option Error)
    → Assigns keys status known
    → (out.1 ≡ none → Agree known (info_keys keys) out.0)
    → ((status_of out).0 ≡ unavailable_status) ⊎ Reports status (status_of out).0
status_of-Reports keys status known (vs, some e) a h = inl (unavailable-error vs e)
  where
    unavailable-error :
        (xs : List String) (x : Error) → (status_of (xs, some x)).0 ≡ unavailable_status
    unavailable-error xs x = ground arith
status_of-Reports keys status known ([], none) a h = absurd (h refl)
status_of-Reports keys status known (s ∷ [], none) a h = absurd (h refl).1
status_of-Reports keys status known (s ∷ m ∷ [], none) a h = absurd (h refl).1.1
status_of-Reports keys status known (s ∷ m ∷ z ∷ [], none) (a, b, c) h =
    let (hs, (hm, (hz, _))) = h refl in
    inr (
      rw
        (status_result-same
          (record unavailable_status { state = read_state s; mode = read_mode m; active_zone = z }))
        (
          field-state status.state s (hs status.state a),
          field-mode status.mode m (hm status.mode b),
          elim (hz status.active_zone c) [ inl e ↦ inr e | inr e ↦ inl e ],
        ))
status_of-Reports keys status known (s ∷ m ∷ z ∷ x ∷ xs, none) a h = absurd (h refl).1.1.1

module _ {K : Clients} (F : IsFaithful K) (g : ConnGroup K.Conn) ⦃lib : Multierror⦄
    (r : RedLock K.Conn) where
  -- The quorum write of the three fields.
  mset_vals-fields :
      (t : Turn) (keys : InfoKeys) (status : Status) (w : K.World) (p : List K.Conn × ℕ)
      → get_master_conns K.Conn t.idx r ≡ some p
      → let pairs = flatten_pairs (fields keys status) in
        mset_vals K t r pairs w ≡ some (status_on K t (K.mset pairs) p w)
  unfolding mset_vals
  mset_vals-fields t keys status w p e = rw (mset_vals, e) refl

  -- The quorum read of any keys.
  mget_vals-Agree :
      (t : Turn) (ks : List String) (known : Known) (w : K.World)
      → IsTurn t
      → Picked F g (get_master_conns K.Conn t.idx r)
      → Sure F g known w
      → (w' : K.World) × (out : List String × Option Error) × (mget_vals K t r ks w
          ≡ some (w', out))
        × (out.1 ≡ none → Agree known ks out.0)
  unfolding mget_vals
  mget_vals-Agree t ks known w it (cs, e, p) s =
      let (out, f, ok) =
        mget_result-Confirmed F ks (K.mget ks) (F.mget-Reads ks) t.range it.1 cs w
          (t.arrival (act_all K (K.mget ks) cs w).1) (it.0 _ _) in
      (
        (act_all K (K.mget ks) cs w).0,
        out,
        rw (mget_vals, e, f) refl,
        λ o. Confirmed-Agree F g known cs w ks out.0 p s (ok o),
      )

  -- A quorum write of the three fields without an error makes them sure.
  fields-Sure :
      (t : Turn) (keys : InfoKeys) (status : Status) (w : K.World) (cs : List K.Conn)
      → IsTurn t
      → Perm cs g
      → let pairs = flatten_pairs (fields keys status) in
        let (w', (n, err)) = status_on K t (K.mset pairs) (cs, quorum_of (length cs)) w in
        err ≡ none → Sure F g (assigned pairs) w'
  fields-Sure t keys status w cs it p ok k v a =
      let pairs = flatten_pairs (fields keys status) in
      Stored-perm F cs g k v _ p (
        status_on-Stored F t (assigned pairs) (K.mset pairs) cs w k v it (F.mset-Writes pairs) a ok)

  module _ (turns : ℕ → Turn) (keys : InfoKeys) where
    set_agent_status-quorum :
        (status : Status) (i : ℕ) (w w' : K.World) (n : ℕ) (err : Option Error)
        → (status.state == unavailable_state) ≡ false
        → mset_vals K (turns i) r (flatten_pairs (fields keys status)) w ≡ some (w', (n, err))
        → set_agent_status (quorum_store K turns r) keys status (some (w, i))
          ≡ (some (w', suc i), err)
    unfolding set_agent_status store_mset
    set_agent_status-quorum status i w w' n err e f = rw (set_agent_status, e, store_mset, f) refl

    get_agent_status-quorum :
        (cfg : Config) (i : ℕ) (w w' : K.World) (out : List String × Option Error)
        → cfg.zone_enable ≡ true
        → mget_vals K (turns i) r (info_keys keys) w ≡ some (w', out)
        → get_agent_status (quorum_store K turns r) keys cfg (some (w, i))
          ≡ (some (w', suc i), status_of out)
    unfolding get_agent_status store_mget
    get_agent_status-quorum cfg i w w' out e f = rw (get_agent_status, e, store_mget, f) refl

    -- With the zone feature on, three different keys, connections that are those of one shard of
    -- servers that behave as documented but may fail, and replies in any order: after a
    -- SetAgentStatus without an error of a state that is not "unavailable", GetAgentStatus does not
    -- panic and reports "unavailable", or the written state or "empty", the written mode or
    -- "unknown", and the written active zone or none.
    pub get_agent_status-Reports :
        (cfg : Config) (status : Status) (i : ℕ) (w : K.World)
        → ((j : ℕ) → IsTurn (turns j))
        → ((j : ℕ) → Picked F g (get_master_conns K.Conn (turns j).idx r))
        → AreDistinct keys
        → cfg.zone_enable ≡ true
        → (status.state == unavailable_state) ≡ false
        → let Q = quorum_store K turns r in
          let (o, err) = set_agent_status Q keys status (some (w, i)) in
          err ≡ none
          → let (o', (read, err')) = get_agent_status Q keys cfg o in
            (is_some o' ≡ true) × ((read ≡ unavailable_status) ⊎ Reports status read)
    get_agent_status-Reports cfg status i w fair picked distinct on up ok =
        let pairs = flatten_pairs (fields keys status) in
        let (cs, e, p) = picked i in
        let out = status_on K (turns i) (K.mset pairs) (cs, quorum_of (length cs)) w in
        let wrote =
          set_agent_status-quorum status i w out.0 out.1.0 out.1.1 up
            (mset_vals-fields (turns i) keys status w _ e) in
        let sure =
          fields-Sure (turns i) keys status w cs (fair i) p (sym (ap (λ x. x.1) wrote) ∙ ok) in
        let (w2, answer, f, agree) =
          mget_vals-Agree (turns (suc i)) (info_keys keys) (assigned pairs) out.0 (fair (suc i))
            (picked (suc i)) sure in
        rw (wrote, get_agent_status-quorum cfg (suc i) out.0 w2 answer on f)
          (
            refl,
            status_of-Reports keys status (assigned pairs) answer
                (fields-Assigns keys status distinct) agree,
          )
