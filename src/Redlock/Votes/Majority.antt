-- ===== src/Redlock/Votes/Majority.antt =====
-- The majority read of RedLock.Get: a value without an error, exactly when a majority agrees on it.
use election_agent.Prelude.{
  ℕ, suc, ◌+◌, ◌≤◌, ◌<◌, String, ◌≡◌, sym, ap, ◌∙◌, ◌↔◌, inl, inr, Bool, false, Option, none, some,
  List, [], ◌∷◌, ◌++◌, arith, ◌==◌, eq_iff, if◌then◌else◌, Bool-cases, Option-cases, length,
  count_if, length-append,
}
use mathlib.Core.Path.{subst}
use mathlib.Core.List.{Perm}
use election_agent.Errors.{Error, Multierror}
use election_agent.Redlock.Quorum.{quorum_of}
use election_agent.Redlock.Votes.{
  Entry, StringReply, get_most_freq_val, gather, answer, act_string_op,
}
use election_agent.Redlock.Votes.Mode.{occurrences, get_most_freq_val_lem}

-- The connections that returned this value.
abbrev pub agrees : String → StringReply → Bool
agrees w r = elim r.err [ none ↦ r.reply == w | some e ↦ false ]

occurrences-snoc :
    (vs : List String) (v w : String)
    → occurrences (vs ++ v ∷ []) w ≡ (if v == w then suc (occurrences vs w) else occurrences vs w)
occurrences-snoc [] v w = ground arith
occurrences-snoc (u ∷ vs) v w = ground (arith, occurrences-snoc vs v w)

-- No connection holds two values.
apart :
    (vs : List String) (v w : String)
    → (v == w) ≡ false
    → occurrences vs v + occurrences vs w ≤ length vs
apart [] v w h = omega arith
apart (u ∷ vs) v w h = elim (Bool-cases (u == v)) [
  | inl t ↦ ground (arith, apart vs v w h, subst (λ x. (x == w) ≡ false) (sym ((eq_iff u v).0 t)) h)
  | inr t ↦ ground (arith, apart vs v w h)
]

-- Two values that a majority holds are the same.
pub one_value :
    (vs : List String) (v w : String) → length vs < occurrences vs v + occurrences vs w → v ≡ w
one_value vs v w h = elim (Bool-cases (v == w)) [
  | inl t ↦ (eq_iff v w).0 t
  | inr t ↦ absurd (omega (arith, apart vs v w t))
]

majority :
    (vals : List String) (size n : ℕ) (v w : String)
    → length vals ≤ size
    → n ≡ occurrences vals v
    → quorum_of size ≤ n
    → quorum_of size ≤ occurrences vals w
    → v ≡ w
majority vals size n v w le e hv hw = one_value vals v w (omega arith)

module _ ⦃lib : Multierror⦄ where
  gather-occurrences :
      (acc : List String) (err : Option Error) (rs : List StringReply) (w : String)
      → occurrences (gather acc err rs).0 w ≡ occurrences acc w + count_if (agrees w) rs
  unfolding gather
  gather-occurrences acc err [] w = omega arith
  gather-occurrences acc err (r ∷ rs) w = elim (Option-cases r.err) [
    | inl e ↦ rw e (
        ground (
          arith,
          gather-occurrences (acc ++ r.reply ∷ []) err rs w,
          occurrences-snoc acc r.reply w,
        ))
    | inr (x, e) ↦ rw e (gather-occurrences acc (some (lib.append err x)) rs w)
  ]

  gather-length :
      (acc : List String) (err : Option Error) (rs : List StringReply)
      → length (gather acc err rs).0 ≤ length acc + length rs
  unfolding gather
  gather-length acc err [] = omega arith
  gather-length acc err (r ∷ rs) = elim (Option-cases r.err) [
    | inl e ↦ rw e (
        ground
          (arith, gather-length (acc ++ r.reply ∷ []) err rs, length-append acc (r.reply ∷ [])))
    | inr (x, e) ↦ rw e (ground (arith, gather-length acc (some (lib.append err x)) rs))
  ]

  answer-none_iff :
      (quorum : ℕ) (best : Entry) (err : Option Error)
      → ((answer quorum best err).2 ≡ none) ↔ (quorum ≤ best.frequency)
  unfolding answer
  answer-none_iff quorum best err = (λ h. ground arith, λ h. ground arith)

  answer-val :
      (quorum : ℕ) (best : Entry) (err : Option Error) → (answer quorum best err).1 ≡ best.val
  unfolding answer
  answer-val quorum best err = ground arith

  -- At the majority quorum of its replies and whatever the order of range, a read returns w without
  -- an error exactly when a majority of all connections returned w.
  pub act_string_op_iff :
      (range : List Entry → List Entry) (rs : List StringReply) (w : String)
      → ((es : List Entry) → Perm (range es) es)
      → let out = act_string_op range (quorum_of (length rs)) rs in
        ((out.2 ≡ none) × (out.1 ≡ w)) ↔ (quorum_of (length rs) ≤ count_if (agrees w) rs)
  unfolding act_string_op
  act_string_op_iff range rs w perm =
      let (vals, err) = gather [] none rs in
      let best = get_most_freq_val range vals in
      let (right, most) = get_most_freq_val_lem range vals perm in
      let none_iff = answer-none_iff (quorum_of (length rs)) best err in
      let val = answer-val (quorum_of (length rs)) best err in
      let occ = gather-occurrences [] none rs w in
      (
        λ (h, e). omega (arith, right ∙ ap (occurrences vals) (sym val ∙ e) ∙ occ, none_iff.0 h),
        λ h.
            let q = none_iff.1 (omega (arith, most w, occ)) in
            (
              q,
              val
                  ∙ majority vals (length rs) _ best.val w (omega (arith, gather-length [] none rs))
                      right (none_iff.0 q) (omega (arith, occ)),
            ),
      )
