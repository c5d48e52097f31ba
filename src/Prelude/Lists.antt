-- ===== src/Prelude/Lists.antt =====
-- Lists measured and indexed by native numbers, under the library's names.
use Prim.Native.Nat.{ℕ, zero, suc, ◌+◌, ◌≤◌}
use mathlib.Core.Path.{◌≡◌, refl, ap, ◌∙◌}
use mathlib.Core.Bool.{Bool}
use mathlib.Core.List.{List, [], ◌∷◌, ◌++◌, map, Perm, Permᴰ}
use mathlib.Core.Logic.{∥∥₁_elim}
use mathlib.Core.Option.{Option, none, some}
use native.Mathlib.Nat.{ℕ_set}
use native.Mathlib.Omega.{arith}
use election_agent.Prelude.Tests.{if◌then◌else◌}

module _ {ℓ} {A : Type ℓ} where
  abbrev pub length : List A → ℕ
  length [] = 0
  length (x ∷ xs) = suc (length xs)

  abbrev pub get_elem? : List A → ℕ → Option A
  get_elem? [] i = none
  get_elem? (x ∷ xs) zero = some x
  get_elem? (x ∷ xs) (suc i) = get_elem? xs i

  -- How many members pass a test.
  abbrev pub count_if : (A → Bool) → List A → ℕ
  count_if p [] = 0
  count_if p (x ∷ xs) = let rest = count_if p xs in if p x then suc rest else rest

  pub length-append : (xs ys : List A) → length (xs ++ ys) ≡ length xs + length ys
  length-append [] ys = omega arith
  length-append (x ∷ xs) ys = omega (arith, length-append xs ys)

  pub count_if-le-length : (p : A → Bool) (xs : List A) → count_if p xs ≤ length xs
  count_if-le-length p [] = omega arith
  count_if-le-length p (x ∷ xs) = ground (arith, count_if-le-length p xs)

  count_if-permᴰ : (p : A → Bool) {xs ys : List A} → Permᴰ xs ys → count_if p xs ≡ count_if p ys
  count_if-permᴰ p Permᴰ.nil = refl
  count_if-permᴰ p (Permᴰ.cons e h) = ground (arith, ap p e, count_if-permᴰ p h)
  count_if-permᴰ p (Permᴰ.swap e f) = ground (arith, ap p e, ap p f)
  count_if-permᴰ p (Permᴰ.trans h k) = count_if-permᴰ p h ∙ count_if-permᴰ p k

  length-permᴰ : {xs ys : List A} → Permᴰ xs ys → length xs ≡ length ys
  length-permᴰ Permᴰ.nil = refl
  length-permᴰ (Permᴰ.cons e h) = ap suc (length-permᴰ h)
  length-permᴰ (Permᴰ.swap e f) = refl
  length-permᴰ (Permᴰ.trans h k) = length-permᴰ h ∙ length-permᴰ k

  -- A count does not depend on the order.
  pub count_if-perm : (p : A → Bool) {xs ys : List A} → Perm xs ys → count_if p xs ≡ count_if p ys
  count_if-perm p h = ∥∥₁_elim h (ℕ_set _ _) (count_if-permᴰ p)

  pub length-perm : {xs ys : List A} → Perm xs ys → length xs ≡ length ys
  length-perm h = ∥∥₁_elim h (ℕ_set _ _) length-permᴰ

pub length-map {ℓ κ} :
    {A : Type ℓ} {B : Type κ} (xs : List A) (f : A → B) → length (map f xs) ≡ length xs
length-map [] f = refl
length-map (x ∷ xs) f = ap suc (length-map xs f)
