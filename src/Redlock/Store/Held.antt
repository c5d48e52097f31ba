-- ===== src/Redlock/Store/Held.antt =====
-- What the servers hold after the key-value operations of internal/driver/redlock/redlock.go: a
-- majority that took a write, and reads that a majority confirms.
pub mod Answers
use election_agent.Prelude.{
  ℕ, suc, ◌≤◌, String, ◌≡◌, refl, sym, ap, ◌∙◌, ◌⊎◌, inl, inr, Bool, true, Option, none, some, List,
  [], ◌∷◌, map, arith, ◌==◌, eq_iff, if◌then◌else◌, is_some, length, count_if, length-map,
  count_if-perm, length-perm,
}
use mathlib.Core.Path.{subst}
use mathlib.Core.List.{Perm}
use native.Mathlib.Nat.{le_trans}
use election_agent.Errors.{Error, Multierror}
use election_agent.Redlock.Quorum.{quorum_of, act_status_op}
use election_agent.Redlock.Quorum.Verdict.{is_ok, act_status_op-none_iff}
use election_agent.Redlock.Votes.{Entry, act_string_op}
use election_agent.Redlock.Votes.Majority.{agrees, act_string_op_iff}
use election_agent.Redlock.Votes.Mode.{occurrences}
use election_agent.Redlock.Votes.Majority.{one_value}
use election_agent.Redlock.Store.{
  Clients, Turn, act_all, number_replies, string_reply, status_on, string_on,
}

-- The value that a list of keys and values assigns to a key; the last one counts.
abbrev pub assigned : List String → String → Option String
assigned (k ∷ v ∷ pairs) j =
    let rest = assigned pairs j in if is_some rest then rest else if k == j then some v else none
assigned _ j = none

module _ {C W : Type 0} (held : W → C → String → String) where
  -- A request that, if it is acknowledged, stored what `a` assigns, and that stores nothing else.
  abbrev pub Writes : (String → Option String) → (C → W → W × (Bool × Option Error)) → Type 0
  Writes a act =
      ((c : C) (w : W) (k v : String)
        → (act c w).1.0 ≡ true
        → a k ≡ some v
        → held (act c w).0 c k ≡ v)
      × ((c : C) (w : W) (d : C) (k : String)
          → (held (act c w).0 d k ≡ held w d k) ⊎ (a k ≡ some (held (act c w).0 d k)))

  -- A request that changes nothing and, if it is answered, shows what the server holds.
  abbrev pub Reads :
      {A : Type 0} → ((String → String) → A) → (C → W → W × (A × Option Error)) → Type 0
  Reads view act =
      ((c : C) (w : W) → held (act c w).0 ≡ held w)
      × ((c : C) (w : W) → (act c w).1.1 ≡ none → (act c w).1.0 ≡ view (held w c))

-- The documented behaviour of GET, SET, MGET and MSET on servers that answer or fail: `held` is
-- what a server holds under a key, and "" if it holds nothing.
pub record IsFaithful (K : Clients) : Type 0 where
  pub held : K.World → K.Conn → String → String
  pub get-Reads : (key : String) → Reads held (λ h. h key) (K.get key)
  pub mget-Reads : (keys : List String) → Reads held (λ h. map h keys) (K.mget keys)
  pub set-Writes :
      (key value : String) → Writes held (assigned (key ∷ value ∷ [])) (K.set key value)
  pub mset-Writes : (pairs : List String) → Writes held (assigned pairs) (K.mset pairs)

-- A turn in which every reply arrives, in some order.
abbrev pub IsTurn : Turn → Type 1
IsTurn t =
    ((A : Type 0) (xs : List A) → Perm (t.arrival xs) xs)
    × ((es : List Entry) → Perm (t.range es) es)

pub length-number_replies :
    (n : ℕ) (rs : List (Bool × Option Error)) → length (number_replies n rs) ≡ length rs
length-number_replies n [] = refl
length-number_replies n ((ok, e) ∷ rs) = ap suc (length-number_replies (suc n) rs)

pub length-act_all :
    (K : Clients) {A : Type 0} (act : K.Conn → K.World → K.World × A) (cs : List K.Conn)
    (w : K.World)
    → length (act_all K act cs w).1 ≡ length cs
unfolding act_all
length-act_all K act [] w = refl
length-act_all K act (c ∷ cs) w = ap suc (length-act_all K act cs (act c w).0)

module _ {K : Clients} where
  open K use {Conn, World}

  module _ (F : IsFaithful K) where
    open F use {held}

    -- How many of the servers hold a value.
    abbrev pub holders : List Conn → String → String → World → ℕ
    holders cs k v w = count_if (λ c. held w c k == v) cs

    -- A majority holds it.
    abbrev pub Stored : List Conn → String → String → World → Type 0
    Stored cs k v w = quorum_of (length cs) ≤ holders cs k v w

    pub Stored-perm :
        (cs ds : List Conn) (k v : String) (w : World)
        → Perm cs ds
        → Stored cs k v w
        → Stored ds k v w
    Stored-perm cs ds k v w p h =
        omega (arith, ap quorum_of (length-perm p), count_if-perm (λ c. held w c k == v) p, h)

    pub Reads-frame :
        {A : Type 0} (view : (String → String) → A)
        (act : Conn → World → World × (A × Option Error)) (cs : List Conn) (w : World)
        → Reads held view act
        → held (act_all K act cs w).0 ≡ held w
    unfolding act_all
    Reads-frame view act [] w r = refl
    Reads-frame view act (c ∷ cs) w r = Reads-frame view act cs (act c w).0 r ∙ r.0 c w

    Writes-only :
        (a : String → Option String) (act : Conn → World → World × (Bool × Option Error))
        (cs : List Conn) (w : World) (d : Conn) (k : String)
        → Writes held a act
        → (held (act_all K act cs w).0 d k ≡ held w d k)
          ⊎ (a k ≡ some (held (act_all K act cs w).0 d k))
    unfolding act_all
    Writes-only a act [] w d k h = inl refl
    Writes-only a act (c ∷ cs) w d k h = elim (Writes-only a act cs (act c w).0 d k h) [
      | inr e ↦ inr e
      | inl e ↦ elim (h.1 c w d k) [ inl f ↦ inl (e ∙ f) | inr f ↦ inr (f ∙ ap some (sym e)) ]
    ]

    -- A value that is assigned stays where it is.
    keeps :
        (a : String → Option String) (act : Conn → World → World × (Bool × Option Error))
        (cs : List Conn) (w : World) (d : Conn) (k v : String)
        → Writes held a act
        → (a k ≡ none) ⊎ (a k ≡ some v)
        → held w d k ≡ v
        → held (act_all K act cs w).0 d k ≡ v
    keeps a act cs w d k v h o e = elim (Writes-only a act cs w d k h) [
      | inl f ↦ f ∙ e
      | inr f ↦ ground (arith)
    ]

    count_if-imp :
        {A : Type 0} (p q : A → Bool) (xs : List A)
        → ((x : A) → p x ≡ true → q x ≡ true)
        → count_if p xs ≤ count_if q xs
    count_if-imp p q [] h = omega arith
    count_if-imp p q (x ∷ xs) h = ground (arith, count_if-imp p q xs h, h x)

    -- A majority that holds a value keeps it under writes that do not assign another.
    pub Writes-Stored :
        (a : String → Option String) (act : Conn → World → World × (Bool × Option Error))
        (cs ds : List Conn) (w : World) (k v : String)
        → Writes held a act
        → (a k ≡ none) ⊎ (a k ≡ some v)
        → Stored ds k v w
        → Stored ds k v (act_all K act cs w).0
    Writes-Stored a act cs ds w k v h o s = le_trans s (
        count_if-imp _ _ ds (λ d e. (eq_iff _ v).1 (keeps a act cs w d k v h o ((eq_iff _ v).0 e))))

    pub Writes-count :
        (a : String → Option String) (act : Conn → World → World × (Bool × Option Error)) (n : ℕ)
        (cs : List Conn) (w : World) (k v : String)
        → Writes held a act
        → a k ≡ some v
        → count_if is_ok (number_replies n (act_all K act cs w).1)
          ≤ holders cs k v (act_all K act cs w).0
    unfolding act_all
    Writes-count a act n [] w k v h e = omega arith
    Writes-count a act n (c ∷ cs) w k v h e = ground (
      arith,
      Writes-count a act (suc n) cs (act c w).0 k v h e,
      h.0 c w k v,
      keeps a act cs (act c w).0 c k v h (inr e),
      eq_iff (held (act_all K act cs (act c w).0).0 c k) v,
    )

    pub Reads-count :
        (act : Conn → World → World × (String × Option Error)) (cs : List Conn) (w : World)
        (k v : String)
        → Reads held (λ h. h k) act
        → count_if (agrees v) (map string_reply (act_all K act cs w).1) ≤ holders cs k v w
    unfolding act_all
    Reads-count act [] w k v r = omega arith
    Reads-count act (c ∷ cs) w k v r = ground (
      arith,
      subst
          (λ h.
            count_if (agrees v) (map string_reply (act_all K act cs (act c w).0).1)
            ≤ count_if (λ d. h d k == v) cs)
          (r.0 c w) (Reads-count act cs (act c w).0 k v r),
      r.1 c w,
    )

    -- Two values that majorities hold are one.
    pub Stored-unique :
        (cs : List Conn) (k v x : String) (w : World) → Stored cs k v w → Stored cs k x w → x ≡ v
    Stored-unique cs k v x w h g =
        let size = length-map cs (λ c. held w c k) in
        one_value (map (λ c. held w c k) cs) x v
          (omega (arith, size, occurrences-map cs v, occurrences-map cs x, h, g))
      where
        occurrences-map :
            (ds : List Conn) (y : String)
            → occurrences (map (λ c. held w c k) ds) y ≡ holders ds k y w
        occurrences-map [] y = refl
        occurrences-map (d ∷ ds) y = ground (arith, occurrences-map ds y)
