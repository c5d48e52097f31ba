-- ===== src/Redlock/Store/Columns.antt =====
-- MGet of internal/driver/redlock/redlock.go: every value that it returns is empty or confirmed by a
-- majority of the servers.
use election_agent.Prelude.{
  ℕ, zero, suc, ◌+◌, ◌≤◌, ◌<◌, String, ◌≡◌, refl, sym, ap, ◌∙◌, ◌⊎◌, inl, inr, Bool, true, false,
  not, ◌&&◌, Option, none, some, List, [], ◌∷◌, map, arith, ◌==◌, eq_iff, leb, eqb, is_some, leb→le,
  Bool-cases, Option-cases, length, get_elem?, count_if, length-map, count_if-perm,
}
use mathlib.Core.Path.{subst}
use mathlib.Core.List.{Perm}
use election_agent.Errors.{Error, Multierror}
use election_agent.Redlock.Quorum.{quorum_of}
use mathlib.Core.Option
use election_agent.Redlock.Shards.Majority.{get_elem?-map}
use election_agent.Redlock.Votes.{Entry, get_most_freq_val}
use election_agent.Redlock.Votes.Mode.{occurrences, get_most_freq_val_lem}
use election_agent.Redlock.Store.{
  Clients, act_all, answered, mget_cell, mget_column, mget_columns, mget_val, mget_end, mget_result,
}
use election_agent.Redlock.Store.Held.{Reads, IsFaithful, holders, Stored}

MgetReply : Type 0
MgetReply = List String × Option Error

-- An answer that does not have a value for each of `n` keys.
abbrev is_short : ℕ → List String × Option Error → Bool
is_short n r = answered r && not (eqb (length r.0) n)

abbrev shows : ℕ → String → List String × Option Error → Bool
shows j x r = answered r && elim (get_elem? r.0 j) [ none ↦ false | some v ↦ v == x ]

get_elem?-some :
    {A : Type 0} (xs : List A) (j : ℕ) → j < length xs → is_some (get_elem? xs j) ≡ true
get_elem?-some [] j h = absurd (omega arith)
get_elem?-some (x ∷ xs) zero h = refl
get_elem?-some (x ∷ xs) (suc j) h = get_elem?-some xs j (omega arith)

mget_column-cons :
    (j : ℕ) (r : List String × Option Error) (rs : List (List String × Option Error)) (v : String)
    (vs : List String)
    → mget_cell j r ≡ some v
    → mget_column j rs ≡ some vs
    → mget_column j (r ∷ rs) ≡ some (v ∷ vs)
unfolding mget_column
mget_column-cons j r rs v vs e f = rw (mget_column, e, f) refl

mget_column-shows :
    (n j : ℕ) (rs : List (List String × Option Error))
    → j < n
    → count_if (is_short n) rs ≡ 0
    → (col : List String) × (mget_column j rs ≡ some col)
      × ((x : String) → (x == "") ≡ false → occurrences col x ≡ count_if (shows j x) rs)
unfolding mget_column
mget_column-shows n j [] lt h = ([], refl, λ x e. refl)
mget_column-shows n j ((vs, some e) ∷ rs) lt h =
    let (col, eq, occ) = mget_column-shows n j rs lt (ground arith) in
    (
      "" ∷ col,
      mget_column-cons j (vs, some e) rs "" col refl eq,
      λ x f. ground (arith, occ x f, eq_iff "" x, eq_iff x ""),
    )
mget_column-shows n j ((vs, none) ∷ rs) lt h =
    let (col, eq, occ) = mget_column-shows n j rs lt (ground arith) in
    elim (Option-cases (get_elem? vs j)) [
      | inl e ↦ absurd (ground (arith, get_elem?-some vs j))
      | inr (v, e) ↦ (
        v ∷ col,
        mget_column-cons j (vs, none) rs v col e eq,
        λ x f. rw e (ground (arith, occ x f)),
      )
    ]

mget_end-none :
    ⦃lib : Multierror⦄ (quorum : ℕ) (rs : List (List String × Option Error)) (vals : List String)
    → (mget_end quorum rs vals).1 ≡ none
    → (mget_end quorum rs vals).0 ≡ vals
unfolding mget_end
mget_end-none quorum rs vals h = ground arith

module _ {K : Clients} (F : IsFaithful K) where
  open F use {held}

  -- Each value is empty, or held by a majority of the servers under its key.
  abbrev pub Confirmed : List K.Conn → K.World → List String → List String → Type 0
  Confirmed cs w [] [] = Unit
  Confirmed cs w (k ∷ ks) (v ∷ vs) = ((v ≡ "") ⊎ Stored F cs k v w) × Confirmed cs w ks vs
  Confirmed cs w _ _ = ⊥

  module _ (keys : List String) (act : K.Conn → K.World → K.World × (List String × Option Error))
      (r : Reads held (λ h. map h keys) act) where
    reads-full :
        (cs : List K.Conn) (w : K.World)
        → count_if (is_short (length keys)) (act_all K act cs w).1 ≡ 0
    unfolding act_all
    reads-full [] w = refl
    reads-full (c ∷ cs) w =
        ground (arith, reads-full cs (act c w).0, ap length (r.1 c w _), length-map keys (held w c))

    shown :
        (c : K.Conn) (w : K.World) (j : ℕ) (k : String)
        → get_elem? keys j ≡ some k
        → (act c w).1.1 ≡ none
        → get_elem? (act c w).1.0 j ≡ some (held w c k)
    shown c w j k e h =
        ap (λ vs. get_elem? vs j) (r.1 c w h)
        ∙ get_elem?-map (held w c) keys j
        ∙ ap (Option.map (held w c)) e

    reads-shows :
        (cs : List K.Conn) (w : K.World) (j : ℕ) (k x : String)
        → get_elem? keys j ≡ some k
        → count_if (shows j x) (act_all K act cs w).1 ≤ holders F cs k x w
    unfolding act_all
    reads-shows [] w j k x e = omega arith
    reads-shows (c ∷ cs) w j k x e = ground (
      arith,
      subst
          (λ h.
            count_if (shows j x) (act_all K act cs (act c w).0).1 ≤ count_if (λ d. h d k == x) cs)
          (r.0 c w) (reads-shows cs (act c w).0 j k x e),
      shown c w j k e,
    )

    module _ (range : List Entry → List Entry) (permutes : (es : List Entry) → Perm (range es) es)
        (cs : List K.Conn) (w : K.World) (rs : List (List String × Option Error))
        (arrive : Perm rs (act_all K act cs w).1) where
      abbrev quorum : ℕ
      quorum = quorum_of (length cs)

      column_val :
          (j : ℕ) (k : String)
          → get_elem? keys j ≡ some k
          → j < length keys
          → (col : List String) × (mget_column j rs ≡ some col)
            × ((mget_val range quorum col ≡ "") ⊎ Stored F cs k (mget_val range quorum col) w)
      unfolding mget_val
      column_val j k e lt =
          let (col, at_j, occ) =
            mget_column-shows (length keys) j rs lt
              (count_if-perm (is_short (length keys)) arrive ∙ reads-full cs w) in
          let best = get_most_freq_val range col in
          let right = (get_most_freq_val_lem range col permutes).0 in
          (
            col,
            at_j,
            elim (Bool-cases (leb quorum best.frequency)) [
              | inr f ↦ inl (rw (mget_val, f) refl)
              | inl f ↦ elim (Bool-cases (best.val == "")) [
                | inl g ↦ inl (rw (mget_val, f) ((eq_iff _ _).0 g))
                | inr g ↦ inr (
                    rw (mget_val, f)
                      (omega (
                        arith,
                        leb→le _ _ f,
                        right,
                        occ best.val g,
                        count_if-perm (shows j best.val) arrive,
                        reads-shows cs w j k best.val e,
                      )))
              ]
            ],
          )

      columns_val :
          (j : ℕ) (ks : List String)
          → ((i : ℕ) (k : String) → get_elem? ks i ≡ some k → get_elem? keys (j + i) ≡ some k)
          → j + length ks ≡ length keys
          → (cols : List (List String)) × (mget_columns j ks rs ≡ some cols)
            × Confirmed cs w ks (map (mget_val range quorum) cols)
      unfolding mget_columns
      columns_val j [] at_keys size = ([], refl, tt)
      columns_val j (k ∷ ks) at_keys size =
          let (col, at_j, ok) =
            column_val j k (subst (λ i. get_elem? keys i ≡ some k) (omega arith) (at_keys 0 k refl))
              (omega arith) in
          let (cols, rest, oks) =
            columns_val (suc j) ks
              (λ i x e. subst (λ n. get_elem? keys n ≡ some x) (omega arith) (at_keys (suc i) x e))
              (omega arith) in
          (col ∷ cols, rw (mget_columns, at_j, rest) refl, (ok, oks))

      -- A multiple read does not panic, and without an error its values are confirmed.
      pub mget_result-Confirmed :
          ⦃lib : Multierror⦄
          → (out : List String × Option Error) × (mget_result range quorum keys rs ≡ some out)
            × (out.1 ≡ none → Confirmed cs w keys out.0)
      unfolding mget_result
      mget_result-Confirmed =
          let (cols, at_0, ok) =
            columns_val 0 keys (λ i k e. subst (λ n. get_elem? keys n ≡ some k) (omega arith) e)
              (omega arith) in
          (
            _,
            rw (mget_result, at_0) refl,
            λ e. subst (Confirmed cs w keys) (sym (mget_end-none quorum rs _ e)) ok,
          )
