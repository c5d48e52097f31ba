-- ===== src/Redlock/Quorum/Verdict.antt =====
-- The outcome of a quorum operation by the counts of its replies alone.
use native.Mathlib.Nat.{le_trans}
use mathlib.Core.Path.{ap₂, subst}
use mathlib.Core.List.{Perm}
use election_agent.Prelude.{
  ℕ, ◌+◌, ◌≤◌, ◌≡◌, refl, ap, List, [], ◌∷◌, Bool, true, false, ◌&&◌, not, Option, none, some, ltb,
  leb, length, count_if, is_some, if◌then◌else◌, arith, length-append, sym, ◌∙◌, count_if-perm, ◌↔◌,
}
use election_agent.Errors.{Error, redlock_taken, Multierror}
use election_agent.Redlock.Quorum.{
  Reply, Tally, no_replies, quorum_of, stop_or_go, count_reply, conclude, collect, act_status_op,
}

-- A reply that grants, and one that says that the key is another holder's.
abbrev pub is_ok : Reply → Bool
is_ok r = r.status_ok

abbrev pub is_taken : Reply → Bool
is_taken r = not r.status_ok && not (is_some r.err)

pub data Outcome : Type 0 where
  granted taken short : Outcome

-- The outcome that a result stands for.
abbrev pub outcome : Option Error → Outcome
outcome none = granted
outcome (some (redlock_taken ns)) = taken
outcome (some _) = short

-- The outcome by counting: taken by a quorum, else granted by a quorum, else too few answers.
abbrev pub verdict : ℕ → ℕ → ℕ → Outcome
verdict quorum oks takens =
    if leb quorum takens then taken else if ltb oks quorum then short else granted

module _ ⦃lib : Multierror⦄ where
  pub n-count_reply : (t : Tally) (r : Reply) → (count_reply t r).n ≡ t.n + count_if is_ok (r ∷ [])
  unfolding count_reply
  n-count_reply t r = ground (arith)

  pub taken-count_reply :
      (t : Tally) (r : Reply)
      → length (count_reply t r).taken ≡ length t.taken + count_if is_taken (r ∷ [])
  unfolding count_reply
  taken-count_reply t r = ground (arith, length-append t.taken (r.node ∷ []))

  conclude-verdict :
      (quorum : ℕ) (t : Tally) → outcome (conclude quorum t).1 ≡ verdict quorum t.n (length t.taken)
  unfolding conclude
  conclude-verdict quorum t = ground (arith)

  stop_or_go-outcome :
      (fail_fast : Bool) (quorum : ℕ) (t : Tally) (rest : ℕ × Option Error) (oks takens : ℕ)
      → length t.taken ≤ takens
      → outcome rest.1 ≡ verdict quorum oks takens
      → outcome (stop_or_go fail_fast quorum t rest).1 ≡ verdict quorum oks takens
  unfolding stop_or_go
  stop_or_go-outcome fail_fast quorum t rest oks takens h e = ground arith

  stop_or_go-n :
      (fail_fast : Bool) (quorum : ℕ) (t : Tally) (rest : ℕ × Option Error) (oks : ℕ)
      → t.n ≤ oks
      → (rest.0 ≤ oks) × (rest.1 ≡ none → rest.0 ≡ oks)
      → let out = stop_or_go fail_fast quorum t rest in (out.0 ≤ oks) × (out.1 ≡ none → out.0 ≡ oks)
  unfolding stop_or_go
  stop_or_go-n true quorum t rest oks h e = ground (arith, e.1)
  stop_or_go-n false quorum t rest oks h e = e

  -- Stopping early does not change the outcome, since the takers only grow in number.
  collect-verdict :
      (fail_fast : Bool) (quorum : ℕ) (t : Tally) (rs : List Reply) (oks takens : ℕ)
      → oks ≡ t.n + count_if is_ok rs
      → takens ≡ length t.taken + count_if is_taken rs
      → outcome (collect fail_fast quorum t rs).1 ≡ verdict quorum oks takens
  unfolding collect
  collect-verdict fail_fast quorum t [] oks takens ho ht = ground (arith, conclude-verdict quorum t)
  collect-verdict fail_fast quorum t (r ∷ rs) oks takens ho ht =
      stop_or_go-outcome fail_fast quorum (count_reply t r) _ oks takens
        (ground (arith, taken-count_reply t r))
        (collect-verdict fail_fast quorum (count_reply t r) rs oks takens
          (ground (arith, n-count_reply t r)) (ground (arith, taken-count_reply t r)))

  -- The successes that are counted; an end with no error has counted them all.
  collect-n :
      (fail_fast : Bool) (quorum : ℕ) (t : Tally) (rs : List Reply) (oks : ℕ)
      → oks ≡ t.n + count_if is_ok rs
      → let out = collect fail_fast quorum t rs in (out.0 ≤ oks) × (out.1 ≡ none → out.0 ≡ oks)
  unfolding collect conclude
  collect-n fail_fast quorum t [] oks ho = (ground arith, λ h. ground arith)
  collect-n fail_fast quorum t (r ∷ rs) oks ho =
      stop_or_go-n fail_fast quorum (count_reply t r) _ oks (ground (arith, n-count_reply t r))
        (collect-n fail_fast quorum (count_reply t r) rs oks (ground (arith, n-count_reply t r)))

  pub act_status_op-verdict :
      (fail_fast : Bool) (quorum : ℕ) (rs : List Reply)
      → outcome (act_status_op fail_fast quorum rs).1
        ≡ verdict quorum (count_if is_ok rs) (count_if is_taken rs)
  unfolding act_status_op
  act_status_op-verdict fail_fast quorum rs =
      collect-verdict fail_fast quorum no_replies rs _ _ (omega arith) (omega arith)

  pub act_status_op-n :
      (fail_fast : Bool) (quorum : ℕ) (rs : List Reply)
      → let out = act_status_op fail_fast quorum rs in
        (out.0 ≤ count_if is_ok rs) × (out.1 ≡ none → out.0 ≡ count_if is_ok rs)
  unfolding act_status_op
  act_status_op-n fail_fast quorum rs = collect-n fail_fast quorum no_replies rs _ (omega arith)

pub ok_or_taken : (rs : List Reply) → count_if is_ok rs + count_if is_taken rs ≤ length rs
ok_or_taken [] = omega arith
ok_or_taken (r ∷ rs) = ground (arith, ok_or_taken rs)

outcome-granted : (e : Option Error) → outcome e ≡ granted → e ≡ none
outcome-granted none h = refl
outcome-granted (some e) h = absurd (ground arith)

verdict-granted_iff :
    (quorum oks takens size : ℕ)
    → quorum ≡ quorum_of size
    → oks + takens ≤ size
    → (verdict quorum oks takens ≡ granted) ↔ (quorum ≤ oks)
verdict-granted_iff quorum oks takens size e h = (λ v. ground arith, λ v. ground arith)

module _ ⦃lib : Multierror⦄ where
  -- At the majority quorum of its replies, a quorum operation has no error exactly when a majority
  -- of all connections succeeded, with failFast or without.
  pub act_status_op-none_iff :
      (fail_fast : Bool) (rs : List Reply)
      → ((act_status_op fail_fast (quorum_of (length rs)) rs).1 ≡ none)
        ↔ (quorum_of (length rs) ≤ count_if is_ok rs)
  act_status_op-none_iff fail_fast rs =
      let v = act_status_op-verdict fail_fast (quorum_of (length rs)) rs in
      let g = verdict-granted_iff _ _ _ (length rs) refl (ok_or_taken rs) in
      (λ h. g.0 (sym v ∙ ap outcome h), λ h. outcome-granted _ (v ∙ g.1 h))

  -- The callers' test of n against the quorum asks the same as their test of the error.
  pub act_status_op-n_iff :
      (fail_fast : Bool) (rs : List Reply)
      → (quorum_of (length rs) ≤ (act_status_op fail_fast (quorum_of (length rs)) rs).0)
        ↔ ((act_status_op fail_fast (quorum_of (length rs)) rs).1 ≡ none)
  act_status_op-n_iff fail_fast rs =
      let q = quorum_of (length rs) in
      let (le, eq) = act_status_op-n fail_fast q rs in
      let iff = act_status_op-none_iff fail_fast rs in
      (λ h. iff.1 (le_trans h le), λ h. subst (λ m. q ≤ m) (sym (eq h)) (iff.0 h))

  -- Whether a quorum operation is granted, taken or short of answers does not depend on the order
  -- in which the replies arrive, nor on failFast.
  pub act_status_op-perm :
      (early late : Bool) (quorum : ℕ) {rs ss : List Reply}
      → Perm rs ss
      → outcome (act_status_op early quorum rs).1 ≡ outcome (act_status_op late quorum ss).1
  act_status_op-perm early late quorum {rs} {ss} h =
      act_status_op-verdict early quorum rs
      ∙ ap₂ (verdict quorum) (count_if-perm is_ok h) (count_if-perm is_taken h)
      ∙ sym (act_status_op-verdict late quorum ss)
