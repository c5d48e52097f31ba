-- ===== src/Redlock/Quorum/Content.antt =====
-- What errors.As and errors.Is find in the error of a quorum operation.
use election_agent.Prelude.{
  ℕ, ◌+◌, ◌≤◌, ◌<◌, String, ◌≡◌, refl, inl, inr, Bool, false, not, ◌&&◌, Option, none, some, List,
  [], ◌∷◌, arith, leb, if◌then◌else◌, Bool-cases, length, count_if, ◌||◌,
}
use mathlib.Core.Path.{subst}
use election_agent.Errors.{
  Error, Errors, nil, cons, snoc, multi, wrap, text, lock_already_expired, redlock_taken,
  node_taken, redis_error, is_multi, Multierror,
}
use election_agent.Errors.Walk.{as_any, as_some, is_expired}
use election_agent.Redlock.Quorum.{
  Reply, Tally, no_replies, short_message, count_reply, conclude, stop_or_go, collect,
  act_status_op,
}
use election_agent.Redlock.Quorum.Verdict.{is_ok, is_taken, taken-count_reply, n-count_reply}

-- A test that does not look at the wrappers that the operation builds.
pub record IsPlain (p : Error → Bool) : Type 0 where
  pub at_text : (m : String) → p (text m) ≡ false
  pub at_wrap : (m : String) (e : Error) → p (wrap m e) ≡ false
  pub at_multi : (es : Errors) → p (multi es) ≡ false

abbrev pub as_opt : (Error → Bool) → Option Error → Bool
as_opt p none = false
as_opt p (some e) = as_any p e

-- The error that a reply adds.
abbrev pub failure_of : ℕ → Option Error → Error
failure_of node none = node_taken node
failure_of node (some e) = if as_any is_expired e then lock_already_expired else redis_error node e

abbrev pub hit : (Error → Bool) → Reply → Bool
hit p r = not r.status_ok && as_any p (failure_of r.node r.err)

abbrev pub hits : (Error → Bool) → List Reply → Bool
hits p [] = false
hits p (r ∷ rs) = hit p r || hits p rs

abbrev Seen : (Error → Bool) → Option Error → Bool → Type 0
Seen p none b = b ≡ false
Seen p (some (multi es)) b = as_some p es ≡ b
Seen p (some _) b = ⊥

as_some-snoc :
    (p : Error → Bool) (es : Errors) (e : Error)
    → as_some p (snoc es e) ≡ as_some p es || as_any p e
unfolding as_any
as_some-snoc p nil e = ground arith
as_some-snoc p (cons d ds) e = ground (arith, as_some-snoc p ds e)

failure_of-is_multi : (node : ℕ) (err : Option Error) → is_multi (failure_of node err) ≡ false
failure_of-is_multi node none = refl
failure_of-is_multi node (some e) = ground arith

module _ ⦃lib : Multierror⦄ (p : Error → Bool) (plain : IsPlain p) where
  append-Seen :
      (err : Option Error) (e : Error) (b : Bool)
      → is_multi e ≡ false
      → Seen p err b
      → Seen p (some (lib.append err e)) (b || as_any p e)
  unfolding as_any
  append-Seen none e b q g = rw (lib.append-none e q) (ground arith)
  append-Seen (some (multi es)) e b q g =
      rw (lib.append-multi es e q) (ground (arith, as_some-snoc p es e))
  append-Seen (some _) e b q g = absurd g

  count_reply-err :
      (t : Tally) (r : Reply)
      → (count_reply t r).err
        ≡ (if r.status_ok then t.err else some (lib.append t.err (failure_of r.node r.err)))
  unfolding count_reply
  count_reply-err t r = ground arith

  count_reply-Seen :
      (t : Tally) (r : Reply) (b : Bool)
      → Seen p t.err b
      → Seen p (count_reply t r).err (b || hit p r)
  count_reply-Seen t r b g = rw (count_reply-err t r) (elim (Bool-cases r.status_ok) [
    | inl ok ↦ rw ok (subst (Seen p t.err) (ground arith) g)
    | inr ok ↦
        rw ok (append-Seen t.err (failure_of r.node r.err) b (failure_of-is_multi r.node r.err) g)
  ])

  stop_or_go-go :
      (fail_fast : Bool) (q : ℕ) (t : Tally) (rest : ℕ × Option Error)
      → length t.taken < q
      → stop_or_go fail_fast q t rest ≡ rest
  unfolding stop_or_go
  stop_or_go-go fail_fast q t rest h = ground arith

  conclude-as_opt :
      (q n : ℕ) (takers : List ℕ) (err : Option Error) (b : Bool)
      → length takers < q
      → n < q
      → Seen p err b
      → as_opt p (conclude q (record { n = n; taken = takers; err = err })).1 ≡ b
  unfolding conclude as_any
  conclude-as_opt q n takers none b h k g = ground (arith, plain.at_text short_message)
  conclude-as_opt q n takers (some (multi es)) b h k g =
      ground (arith, plain.at_wrap short_message (multi es), plain.at_multi es)
  conclude-as_opt q n takers (some _) b h k g = absurd g

  collect-as_opt :
      (fail_fast : Bool) (q : ℕ) (t : Tally) (rs : List Reply) (b all : Bool)
      → length t.taken + count_if is_taken rs < q
      → t.n + count_if is_ok rs < q
      → Seen p t.err b
      → all ≡ (b || hits p rs)
      → as_opt p (collect fail_fast q t rs).1 ≡ all
  unfolding collect
  collect-as_opt fail_fast q t [] b all h k g a =
      conclude-as_opt q t.n t.taken t.err all (omega arith) (omega arith)
        (subst (Seen p t.err) (ground arith) g)
  collect-as_opt fail_fast q t (r ∷ rs) b all h k g a =
      rw (stop_or_go-go fail_fast q (count_reply t r) _ (ground (arith, taken-count_reply t r))) (
        collect-as_opt fail_fast q (count_reply t r) rs (b || hit p r) all
          (ground (arith, taken-count_reply t r)) (ground (arith, n-count_reply t r))
          (count_reply-Seen t r b g) (ground arith))

  -- Unless a quorum has it taken or granted, the operation's error holds what its replies held.
  pub act_status_op-as_opt :
      (fail_fast : Bool) (q : ℕ) (rs : List Reply)
      → count_if is_taken rs < q
      → count_if is_ok rs < q
      → as_opt p (act_status_op fail_fast q rs).1 ≡ hits p rs
  unfolding act_status_op
  act_status_op-as_opt fail_fast q rs h k =
      collect-as_opt fail_fast q no_replies rs false (hits p rs) (omega arith) (omega arith) refl
        refl

module _ ⦃lib : Multierror⦄ where
  stop_or_go-taken :
      (fail_fast : Bool) (q : ℕ) (t : Tally) (rest : ℕ × Option Error)
      → ((ns : List ℕ) × (rest.1 ≡ some (redlock_taken ns)))
      → (ns : List ℕ) × ((stop_or_go fail_fast q t rest).1 ≡ some (redlock_taken ns))
  unfolding stop_or_go
  stop_or_go-taken fail_fast q t rest (ns, e) =
      elim (Bool-cases (fail_fast && leb q (length t.taken))) [
        | inl b ↦ (t.taken, rw b)
        | inr b ↦ (ns, rw b e)
      ]

  collect-taken :
      (fail_fast : Bool) (q : ℕ) (t : Tally) (rs : List Reply)
      → q ≤ length t.taken + count_if is_taken rs
      → (ns : List ℕ) × ((collect fail_fast q t rs).1 ≡ some (redlock_taken ns))
  unfolding collect conclude
  collect-taken fail_fast q t [] h = (t.taken, ground arith)
  collect-taken fail_fast q t (r ∷ rs) h =
      stop_or_go-taken fail_fast q (count_reply t r) _
        (collect-taken fail_fast q (count_reply t r) rs (ground (arith, taken-count_reply t r)))

  -- If a quorum has it taken, the error is a TakenError itself.
  pub act_status_op-taken :
      (fail_fast : Bool) (q : ℕ) (rs : List Reply)
      → q ≤ count_if is_taken rs
      → (ns : List ℕ) × ((act_status_op fail_fast q rs).1 ≡ some (redlock_taken ns))
  unfolding act_status_op
  act_status_op-taken fail_fast q rs h = collect-taken fail_fast q no_replies rs (omega arith)
