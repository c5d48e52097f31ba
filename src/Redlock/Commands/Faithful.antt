-- ===== src/Redlock/Commands/Faithful.antt =====
-- goredisConn behaves as a connection to a server should, if its library does, and both wrappers
-- run a script once.
use election_agent.Prelude.{
  String, ◌≡◌, ◌≢◌, refl, sym, ap, ◌∙◌, ◌⊎◌, inl, inr, true, false, Option, none, some, List, [],
  ◌∷◌, map, eq_iff, arith, Bool-cases, Option-cases, ℕ, eqb, if◌then◌else◌,
}
use election_agent.Errors.{Error}
use election_agent.Prelude.Int.{pos}
use election_agent.Redlock.Script.{int}
use election_agent.Redlock.Store.Held.{assigned, Writes, IsFaithful}
use election_agent.Redlock.Rueidis.{
  RueidisConn, get_client, begin_call, end_call, check_net_op_error,
}
use election_agent.Redlock.Commands.{
  Library, Script, element, replied, without_nil, no_err_nil, no_script, goredis_get, goredis_set,
  goredis_mget, goredis_mset, goredis_eval, goredis_clients, eval_script, rueidis_eval, on_client,
}

-- The keys of every server, by its number.
abbrev pub Tables : Type 0
Tables = ℕ → String → Option String

abbrev pub put_pairs : ℕ → List String → Tables → Tables
put_pairs n pairs tables m k =
    if eqb n m then elim (assigned pairs k) [ none ↦ tables m k | some v ↦ some v ] else tables m k

-- What a server and a library do by their documentation: every client is of one server. GET and MGET
-- change nothing; the first answers with the library's error for nil if the key is missing, the
-- second with nil elements and never with that error. SET and MSET answer OK once they have stored
-- the pairs. A command that fails has another error, and a write that fails may have been done.
pub record IsDocumented (L : Library) : Type 0 where
  pub tables : L.World → Tables
  pub server : L.Client → ℕ
  pub nil_error : Error
  pub nil-is_nil : L.is_nil nil_error ≡ true
  pub get-frame : (key : String) (c : L.Client) (w : L.World) → tables (L.get key c w).0 ≡ tables w
  pub get-answer :
      (key : String) (c : L.Client) (w : L.World)
      → ((L.get key c w).1
          ≡ (elim (tables w (server c) key) [ none ↦ ("", some nil_error) | some v ↦ (v, none) ]))
        ⊎ ((e : Error) × (L.is_nil e ≡ false) × ((L.get key c w).1 ≡ ("", some e)))
  pub mget-frame :
      (keys : List String) (c : L.Client) (w : L.World) → tables (L.mget keys c w).0 ≡ tables w
  pub mget-answer :
      (keys : List String) (c : L.Client) (w : L.World)
      → ((L.mget keys c w).1 ≡ (map (tables w (server c)) keys, none))
        ⊎ ((e : Error) × (L.is_nil e ≡ false) × ((L.mget keys c w).1 ≡ ([], some e)))
  pub set-answer :
      (key value : String) (c : L.Client) (w : L.World)
      → (((L.set key value c w).1 ≡ ("OK", none))
          × (tables (L.set key value c w).0 ≡ put_pairs (server c) (key ∷ value ∷ []) (tables w)))
        ⊎ ((e : Error) × ((L.set key value c w).1 ≡ ("", some e))
            × ((tables (L.set key value c w).0 ≡ tables w)
                ⊎ (tables (L.set key value c w).0
                    ≡ put_pairs (server c) (key ∷ value ∷ []) (tables w))))
  pub mset-answer :
      (pairs : List String) (c : L.Client) (w : L.World)
      → (((L.mset pairs c w).1 ≡ ("OK", none))
          × (tables (L.mset pairs c w).0 ≡ put_pairs (server c) pairs (tables w)))
        ⊎ ((e : Error) × ((L.mset pairs c w).1 ≡ ("", some e))
            × ((tables (L.mset pairs c w).0 ≡ tables w)
                ⊎ (tables (L.mset pairs c w).0 ≡ put_pairs (server c) pairs (tables w))))

abbrev ok : String
ok = "OK"

empty-ne-ok : "" ≢ ok
empty-ne-ok e = ground (arith, eq_iff "" ok)

module _ (L : Library) (D : IsDocumented L) where
  open L use {Client, World, is_nil}
  open D use {tables, server}

  -- What a connection's server shows under a key, and "" for nothing.
  abbrev pub shown : World → Client → String → String
  shown w c k = element (tables w (server c) k)

  -- The answer is `a` without an error, or the zero value with an error.
  abbrev pub Answers : {A : Type 0} → A → A → A × Option Error → Type 0
  Answers a zero_value out = (out ≡ (a, none)) ⊎ ((e : Error) × (out ≡ (zero_value, some e)))

  goredis_get-Answers :
      (key : String) (c : Client) (w : World) → Answers (shown w c key) "" (goredis_get L key c w).1
  unfolding goredis_get no_err_nil
  goredis_get-Answers key c w = elim (D.get-answer key c w) [
    | inr (e, f, h) ↦ inr (e, rw (goredis_get, h) (rw (no_err_nil, f) refl))
    | inl h ↦ elim (Option-cases (tables w (server c) key)) [
      | inl t ↦ inl (rw (goredis_get, h, t) (rw D.nil-is_nil refl))
      | inr (v, t) ↦ inl (rw (goredis_get, h, t) refl)
    ]
  ]

  elements-shown :
      (c : Client) (w : World) (keys : List String)
      → map element (map (tables w (server c)) keys) ≡ map (shown w c) keys
  elements-shown c w [] = refl
  elements-shown c w (k ∷ keys) = ap (◌∷◌ (shown w c k)) (elements-shown c w keys)

  goredis_mget-Answers :
      (keys : List String) (c : Client) (w : World)
      → Answers (map (shown w c) keys) [] (goredis_mget L keys c w).1
  unfolding goredis_mget no_err_nil
  goredis_mget-Answers keys c w = elim (D.mget-answer keys c w) [
    | inr (e, f, h) ↦ inr (e, rw (goredis_mget, h) (rw (no_err_nil, f) (rw (no_err_nil, f) refl)))
    | inl h ↦ inl (rw (goredis_mget, h) (ap (λ vs. (vs, none)) (elements-shown c w keys)))
  ]

  shown-frame : (w w' : World) → tables w' ≡ tables w → shown w' ≡ shown w
  shown-frame w w' e =
      let view : Tables → Client → String → String = λ t c k. element (t (server c) k) in ap view e

  same_server : (n : ℕ) → eqb n n ≡ true
  same_server n = ground arith

  -- A write of pairs through a connection, if it was done.
  abbrev Done : List String → Client → World → World → Type 0
  Done pairs c w w' = tables w' ≡ put_pairs (server c) pairs (tables w)

  Done-shown :
      (pairs : List String) (c : Client) (w w' : World) (k v : String)
      → Done pairs c w w'
      → assigned pairs k ≡ some v
      → shown w' c k ≡ v
  Done-shown pairs c w w' k v e a =
      ap (λ (t : Tables). element (t (server c) k)) e ∙ rw (same_server (server c), a) refl

  Done-only :
      (pairs : List String) (c : Client) (w w' : World) (d : Client) (k : String)
      → Done pairs c w w'
      → (shown w' d k ≡ shown w d k) ⊎ (assigned pairs k ≡ some (shown w' d k))
  Done-only pairs c w w' d k e =
      let at : shown w' d k ≡ element (put_pairs (server c) pairs (tables w) (server d) k) =
        ap (λ (t : Tables). element (t (server d) k)) e in
      elim (Bool-cases (eqb (server c) (server d))) [
        | inr f ↦ inl (at ∙ rw f refl)
        | inl f ↦ elim (Option-cases (assigned pairs k)) [
          | inl a ↦ inl (at ∙ rw (f, a) refl)
          | inr (v, a) ↦ inr (a ∙ ap some (sym (at ∙ rw (f, a) refl)))
        ]
      ]

  -- Answered OK and done, or failed and maybe done.
  abbrev Wrote : List String → Client → World → World × (String × Option Error) → Type 0
  Wrote pairs c w (w', out) =
      ((out ≡ ("OK", none)) × Done pairs c w w')
      ⊎ ((e : Error) × (out ≡ ("", some e)) × ((tables w' ≡ tables w) ⊎ Done pairs c w w'))

  replied-stores :
      (pairs : List String) (c : Client) (w : World) (r : World × (String × Option Error))
      (k v : String)
      → Wrote pairs c w r
      → (replied "OK" r).1.0 ≡ true
      → assigned pairs k ≡ some v
      → shown r.0 c k ≡ v
  replied-stores pairs c w r k v (inl (o, d)) h a = Done-shown pairs c w r.0 k v d a
  replied-stores pairs c w r k v (inr (e, o, d)) h a =
      absurd (empty-ne-ok (ap (λ x. x.0) (sym o) ∙ (eq_iff _ _).0 h))

  replied-only :
      (pairs : List String) (c : Client) (w : World) (r : World × (String × Option Error))
      (d : Client) (k : String)
      → Wrote pairs c w r
      → (shown (replied "OK" r).0 d k ≡ shown w d k)
        ⊎ (assigned pairs k ≡ some (shown (replied "OK" r).0 d k))
  replied-only pairs c w r d k (inl (o, e)) = Done-only pairs c w r.0 d k e
  replied-only pairs c w r d k (inr (x, o, inr e)) = Done-only pairs c w r.0 d k e
  replied-only pairs c w r d k (inr (x, o, inl e)) =
      inl (ap (λ (f : Client → String → String). f d k) (shown-frame w r.0 e))

  pub goredis_conn-Answers :
      (key value : String) (keys pairs : List String)
      → ((c : Client) (w : World)
          → (shown (goredis_get L key c w).0 ≡ shown w)
            × Answers (shown w c key) "" (goredis_get L key c w).1)
        × ((c : Client) (w : World)
            → (shown (goredis_mget L keys c w).0 ≡ shown w)
              × Answers (map (shown w c) keys) [] (goredis_mget L keys c w).1)
        × Writes shown (assigned (key ∷ value ∷ [])) (goredis_set L key value)
        × Writes shown (assigned pairs) (goredis_mset L pairs)
  unfolding goredis_get goredis_mget goredis_set goredis_mset
  goredis_conn-Answers key value keys pairs =
      let one = key ∷ value ∷ [] in
      (
        λ c w. (shown-frame w _ (D.get-frame key c w), goredis_get-Answers key c w),
        λ c w. (shown-frame w _ (D.mget-frame keys c w), goredis_mget-Answers keys c w),
        (
          λ c w k v h a.
              replied-stores one c w (L.set key value c w) k v (D.set-answer key value c w) h a,
          λ c w d k. replied-only one c w (L.set key value c w) d k (D.set-answer key value c w),
        ),
        (
          λ c w k v h a.
              replied-stores pairs c w (L.mset pairs c w) k v (D.mset-answer pairs c w) h a,
          λ c w d k. replied-only pairs c w (L.mset pairs c w) d k (D.mset-answer pairs c w),
        ),
      )

  Answers-none :
      {A : Type 0} (a zero_value : A) (out : A × Option Error)
      → Answers a zero_value out
      → out.1 ≡ none
      → out.0 ≡ a
  Answers-none a zero_value out (inl e) h = ap (λ x. x.0) e
  Answers-none a zero_value out (inr (e, f)) h = absurd (ground arith)

  pub goredis-IsFaithful : IsFaithful (goredis_clients L)
  goredis-IsFaithful = record {
    held = shown;
    get-Reads = λ key.
        let (get, _, _, _) = goredis_conn-Answers key "" [] [] in
        (λ c w. (get c w).0, λ c w h. Answers-none _ _ _ (get c w).1 h);
    mget-Reads = λ keys.
        let (_, mget, _, _) = goredis_conn-Answers "" "" keys [] in
        (λ c w. (mget c w).0, λ c w h. Answers-none _ _ _ (mget c w).1 h);
    set-Writes = λ key value. let (_, _, set, _) = goredis_conn-Answers key value [] [] in set;
    mset-Writes = λ pairs. let (_, _, _, mset) = goredis_conn-Answers "" "" [] pairs in mset;
  }

module _ (L : Library) where
  open L use {Client, World}

  -- EVALSHA of a script that the server knows is EVAL of its source; for one that it does not know
  -- it only answers so, which EVAL never does.
  abbrev pub KnowsOrSays : Script → List String → List String → Client → World → Type 0
  KnowsOrSays script keys args c w =
      (no_script L (L.eval script.src keys args c w).1.1 ≡ false)
      × ((L.eval_sha script.hash keys args c w ≡ L.eval script.src keys args c w)
          ⊎ (((L.eval_sha script.hash keys args c w).0 ≡ w)
              × (no_script L (L.eval_sha script.hash keys args c w).1.1 ≡ true)))

  eval_script-eq-eval :
      (script : Script) (keys args : List String) (c : Client) (w : World)
      → KnowsOrSays script keys args c w
      → eval_script L script keys args c w ≡ L.eval script.src keys args c w
  unfolding eval_script
  eval_script-eq-eval script keys args c w (once, inl e) = rw (eval_script, e, once) refl
  eval_script-eq-eval script keys args c w (once, inr (e, f)) = rw (eval_script, f, e) refl

  -- A command of rueidisConn that has a client.
  on_client-found :
      {A : Type 0} (zero_value : A) (keep : Option Error → Option Error)
      (command : World → World × (A × Option Error)) (conn : RueidisConn) (w : World)
      → (get_client conn).1 ≡ true
      → let (w', (a, err)) = command w in
        on_client L zero_value keep command (conn, w)
        ≡ ((check_net_op_error err (get_client conn).0, w'), (a, keep err))
  unfolding on_client begin_call end_call
  on_client-found zero_value keep command conn w found = rw (on_client, found) refl

  -- A command of rueidisConn that has none.
  on_client-lost :
      {A : Type 0} (zero_value : A) (keep : Option Error → Option Error)
      (command : World → World × (A × Option Error)) (conn : RueidisConn) (w : World)
      → (get_client conn).1 ≡ false
      → on_client L zero_value keep command (conn, w)
        ≡ (((get_client conn).0, w), (zero_value, (get_client conn).0.last_err))
  unfolding on_client begin_call end_call
  on_client-lost zero_value keep command conn w lost = rw (on_client, lost) refl

  -- If EVALSHA of a script either is EVAL of its source or only answers that the script is not
  -- known, which EVAL never answers, then Eval of goredisConn, and Eval of a rueidisConn that has a
  -- client, runs EVAL of the source exactly once and takes the error for a missing value away. Eval
  -- of a rueidisConn without a client makes no request and returns the int 0 with the last error.
  pub evals_once :
      (script : Script) (keys args : List String) (c : Client) (w : World) (conn : RueidisConn)
      → KnowsOrSays script keys args c w
      → let (w', (v, err)) = L.eval script.src keys args c w in
        let (conn', found) = get_client conn in
        (goredis_eval L script keys args c w ≡ (w', (v, no_err_nil L err)))
        × (rueidis_eval L script keys args c (conn, w) ≡ (
            if found
            then ((check_net_op_error err conn', w'), (v, no_err_nil L err))
            else ((conn', w), (int (pos 0), conn'.last_err))))
  unfolding goredis_eval rueidis_eval
  evals_once script keys args c w conn k =
      let e = eval_script-eq-eval script keys args c w k in
      let zero_value = int (pos 0) in
      let command = eval_script L script keys args c in
      (
        ap (without_nil L) e,
        elim (Bool-cases (get_client conn).1) [
          | inr f ↦ rw f (on_client-lost zero_value (no_err_nil L) command conn w f)
          | inl f ↦ rw f (
              on_client-found zero_value (no_err_nil L) command conn w f
              ∙ ap
                  (λ (w', (v, err)).
                    ((check_net_op_error err (get_client conn).0, w'), (v, no_err_nil L err)))
                  e)
        ],
      )
