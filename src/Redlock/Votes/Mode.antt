-- ===== src/Redlock/Votes/Mode.antt =====
-- What getMostFreqVal returns: a value that no other exceeds.
use election_agent.Prelude.{
  ℕ, ◌+◌, ◌≤◌, ◌<◌, String, ◌≡◌, refl, sym, ap, ◌∙◌, ◌⊎◌, inl, inr, Bool, true, false, not, List,
  [], ◌∷◌, arith, ◌==◌, eq_iff, eq_refl, ltb, eqb, if◌then◌else◌, Bool-cases, count_if,
  count_if-perm,
}
use mathlib.Core.Path.{subst}
use mathlib.Core.List.{Perm}
use election_agent.Redlock.Votes.{
  Entry, frequency_of, without, bump, count_all, highest, get_most_freq_val,
}

-- How often a value occurs.
abbrev pub occurrences : List String → String → ℕ
occurrences vals w = count_if (λ v. v == w) vals

abbrev is_wrong : (String → ℕ) → Entry → Bool
is_wrong f e = not (eqb e.frequency (f e.val))

abbrev has : String → Entry → Bool
has w e = e.val == w

abbrev one_more : String → (String → ℕ) → String → ℕ
one_more k f w = if k == w then f w + 1 else f w

-- The entries are those of the counts `f`.
abbrev Counts : (String → ℕ) → List Entry → Type 0
Counts f es = (count_if (is_wrong f) es ≡ 0) × ((w : String) → frequency_of es w ≡ f w)

without-right :
    (f : String → ℕ) (k : String) (es : List Entry)
    → count_if (is_wrong f) es ≡ 0
    → count_if (is_wrong (one_more k f)) (without k es) ≡ 0
without-right f k [] h = refl
without-right f k (e ∷ es) h = ground (arith, without-right f k es)

frequency_of-without :
    (k w : String) (es : List Entry)
    → (k == w) ≡ false
    → frequency_of (without k es) w ≡ frequency_of es w
frequency_of-without k w [] h = refl
frequency_of-without k w (e ∷ es) h = elim (Bool-cases (k == e.val)) [
  | inl t ↦
      rw (t, subst (λ x. (x == w) ≡ false) ((eq_iff k _).0 t) h) (frequency_of-without k w es h)
  | inr t ↦ rw t (ap (λ n. if e.val == w then e.frequency else n) (frequency_of-without k w es h))
]

bump-Counts :
    (f : String → ℕ) (k : String) (es : List Entry)
    → Counts f es
    → Counts (one_more k f) (bump k es)
bump-Counts f k es (right, freq) = (
  ground (arith, without-right f k es right, freq k, eq_refl k),
  λ w. elim (Bool-cases (k == w)) [
    | inl t ↦ rw t (ap (λ n. n + 1) (freq k ∙ ap f ((eq_iff k _).0 t)))
    | inr t ↦ rw t (frequency_of-without k w es t ∙ freq w)
  ],
)

-- The occurrences that are counted on top of `f`.
abbrev plus : (String → ℕ) → List String → String → ℕ
plus f [] = f
plus f (v ∷ vs) = plus (one_more v f) vs

plus-occurrences :
    (f : String → ℕ) (vs : List String) (w : String) → plus f vs w ≡ f w + occurrences vs w
plus-occurrences f [] w = omega arith
plus-occurrences f (v ∷ vs) w = ground (arith, plus-occurrences (one_more v f) vs w)

plus-zero : (vs : List String) (w : String) → plus (λ _. 0) vs w ≡ occurrences vs w
plus-zero vs w = omega (arith, plus-occurrences (λ _. 0) vs w)

count_all-Counts :
    (f : String → ℕ) (es : List Entry) (vs : List String)
    → Counts f es
    → Counts (plus f vs) (count_all es vs)
unfolding count_all
count_all-Counts f es [] h = h
count_all-Counts f es (v ∷ vs) h =
    count_all-Counts (one_more v f) (bump v es) vs (bump-Counts f v es h)

frequency_of-has : (es : List Entry) (w : String) → 0 < frequency_of es w → 0 < count_if (has w) es
frequency_of-has [] w h = absurd (omega arith)
frequency_of-has (e ∷ es) w h = ground (arith, frequency_of-has es w)

-- The loop keeps an entry of the map and meets every entry.
highest-right :
    (f : String → ℕ) (best : Entry) (es : List Entry)
    → (best.frequency ≡ f best.val) ⊎ (best.frequency ≡ 0)
    → count_if (is_wrong f) es ≡ 0
    → ((highest best es).frequency ≡ f (highest best es).val) ⊎ ((highest best es).frequency ≡ 0)
unfolding highest
highest-right f best [] b h = b
highest-right f best (e ∷ es) b h =
    highest-right f (if ltb best.frequency e.frequency then e else best) es (ground arith)
      (ground arith)

highest-grows : (best : Entry) (es : List Entry) → best.frequency ≤ (highest best es).frequency
unfolding highest
highest-grows best [] = omega arith
highest-grows best (e ∷ es) =
    ground (arith, highest-grows (if ltb best.frequency e.frequency then e else best) es)

highest-most :
    (f : String → ℕ) (best : Entry) (es : List Entry) (w : String)
    → count_if (is_wrong f) es ≡ 0
    → 0 < count_if (has w) es
    → f w ≤ (highest best es).frequency
unfolding highest
highest-most f best [] w h p = absurd (omega arith)
highest-most f best (e ∷ es) w h p =
    let best' = if ltb best.frequency e.frequency then e else best in
    elim (Bool-cases (e.val == w)) [
      | inl t ↦ ground (arith, highest-grows best' es, ap f ((eq_iff e.val w).0 t))
      | inr t ↦ highest-most f best' es w (ground arith) (ground arith)
    ]

eqb→eq : (a b : ℕ) → eqb a b ≡ true → a ≡ b
eqb→eq a b h = ground arith

positive : (a : ℕ) → eqb a 0 ≡ false → 0 < a
positive a h = ground arith

le-zero : (a b : ℕ) → a ≤ b → b ≡ 0 → b ≡ a
le-zero a b h z = omega arith

most-of-entries :
    (f : String → ℕ) (best : Entry) (es fs : List Entry)
    → Counts f es
    → Perm fs es
    → (w : String) → f w ≤ (highest best fs).frequency
most-of-entries f best es fs (right, freq) perm w = elim (Bool-cases (eqb (f w) 0)) [
  | inl z ↦ omega (arith, eqb→eq (f w) 0 z)
  | inr z ↦ highest-most f best fs w (count_if-perm (is_wrong f) perm ∙ right) (
      subst (λ n. 0 < n) (sym (count_if-perm (has w) perm))
        (frequency_of-has es w (subst (λ n. 0 < n) (sym (freq w)) (positive (f w) z))))
]

-- Whatever the order of range, getMostFreqVal returns a value with its number of occurrences, and
-- no value occurs more often.
pub get_most_freq_val_lem :
    (range : List Entry → List Entry) (vals : List String)
    → ((es : List Entry) → Perm (range es) es)
    → let best = get_most_freq_val range vals in
      (best.frequency ≡ occurrences vals best.val)
      × ((w : String) → occurrences vals w ≤ best.frequency)
unfolding get_most_freq_val
get_most_freq_val_lem range vals perm =
    let f = plus (λ _. 0) vals in
    let es = count_all [] vals in
    let counts = count_all-Counts (λ _. 0) [] vals (refl, λ w. refl) in
    let most = λ (w : String).
      subst (λ n. n ≤ (get_most_freq_val range vals).frequency) (plus-zero vals w)
        (most-of-entries f (record { val = ""; frequency = 0 }) es (range es) counts (perm es) w) in
    let right =
      highest-right f (record { val = ""; frequency = 0 }) (range es) (inr refl)
        (count_if-perm (is_wrong f) (perm es) ∙ counts.0) in
    (elim right [ inl e ↦ e ∙ plus-zero vals _ | inr z ↦ le-zero _ _ (most _) z ], most)
