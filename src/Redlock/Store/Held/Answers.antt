-- ===== src/Redlock/Store/Held/Answers.antt =====
-- An acknowledged write is stored by a majority, and an answered read is confirmed by one.
use election_agent.Prelude.{
  String, ◌≡◌, refl, sym, ap, ◌∙◌, Bool, false, Option, none, some, List, map, arith, length,
  length-map, count_if-perm, length-perm,
}
use mathlib.Core.Path.{subst}
use election_agent.Errors.{Error, Multierror}
use election_agent.Redlock.Quorum.{quorum_of, act_status_op}
use election_agent.Redlock.Quorum.Verdict.{is_ok, act_status_op-none_iff}
use election_agent.Redlock.Votes.{act_string_op}
use election_agent.Redlock.Votes.Majority.{agrees, act_string_op_iff}
use election_agent.Redlock.Store.{
  Clients, Turn, act_all, number_replies, string_reply, status_on, string_on,
}
use election_agent.Redlock.Store.Held.{
  Writes, Reads, IsFaithful, IsTurn, Stored, Writes-count, Reads-count, length-act_all,
  length-number_replies,
}

module _ {K : Clients} (F : IsFaithful K) ⦃lib : Multierror⦄ where
  open K use {Conn, World}
  open F use {held}

  -- A write without an error is stored by a majority of the connections asked.
  pub status_on-Stored :
      (t : Turn) (a : String → Option String) (act : Conn → World → World × (Bool × Option Error))
      (cs : List Conn) (w : World) (k v : String)
      → IsTurn t
      → Writes held a act
      → a k ≡ some v
      → let (w', out) = status_on K t act (cs, quorum_of (length cs)) w in
        out.1 ≡ none → Stored F cs k v w'
  unfolding status_on
  status_on-Stored t a act cs w k v it h e ok =
      let rs = number_replies 0 (act_all K act cs w).1 in
      let size = length-perm (it.0 _ rs) ∙ length-number_replies 0 _ ∙ length-act_all K act cs w in
      let many =
        (act_status_op-none_iff false (t.arrival rs)).0 (
          subst (λ n. (act_status_op false (quorum_of n) (t.arrival rs)).1 ≡ none) (sym size) ok) in
      omega (
        arith,
        many,
        ap quorum_of size,
        count_if-perm is_ok (it.0 _ rs),
        Writes-count F a act 0 cs w k v h e,
      )

  -- A read without an error returns what a majority holds.
  pub string_on-Stored :
      (t : Turn) (act : Conn → World → World × (String × Option Error)) (cs : List Conn) (w : World)
      (k : String)
      → IsTurn t
      → Reads held (λ h. h k) act
      → let (w', (n, val, err)) = string_on K t act (cs, quorum_of (length cs)) w in
        err ≡ none → Stored F cs k val w
  unfolding string_on
  string_on-Stored t act cs w k it r ok =
      let rs = map string_reply (act_all K act cs w).1 in
      let size =
        length-perm (it.0 _ rs)
        ∙ length-map (act_all K act cs w).1 string_reply
        ∙ length-act_all K act cs w in
      let out = act_string_op t.range (quorum_of (length cs)) (t.arrival rs) in
      let many = (act_string_op_iff t.range (t.arrival rs) out.1 it.1).0 (
        subst
          (λ n.
            let o = act_string_op t.range (quorum_of n) (t.arrival rs) in
            (o.2 ≡ none) × (o.1 ≡ out.1))
          (sym size) (ok, refl)) in
      omega (
        arith,
        many,
        ap quorum_of size,
        count_if-perm (agrees out.1) (it.0 _ rs),
        Reads-count F act cs w k out.1 r,
      )
