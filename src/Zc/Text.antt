-- ===== src/Zc/Text.antt =====
-- strings.TrimSpace, strings.Split and strings.SplitN of the standard library, as
-- internal/zc/zc.go uses them.
use election_agent.Prelude.{
  ℕ, String, ◌≡◌, refl, sym, ap, ◌∙◌, inl, inr, Bool, true, false, ◌&&◌, ◌||◌, Option, none, some,
  List, [], ◌∷◌, arith, leb, eqb, if◌then◌else◌, Bool-cases,
}
use Prim.Native.Char.{Char, code}

-- unicode.IsSpace
abbrev pub is_space : ℕ → Bool
is_space c =
    (leb 9 c && leb c 13)
    || (eqb c 32
        || (eqb c 0x85
            || (eqb c 0xa0
                || (eqb c 0x1680
                    || ((leb 0x2000 c && leb c 0x200a)
                        || (eqb c 0x2028
                            || (eqb c 0x2029
                                || (eqb c 0x202f || (eqb c 0x205f || eqb c 0x3000)))))))))

pub trim_left : String → String
trim_left String.[] = String.[]
trim_left (String.◌∷◌ c s) =
    let rest = trim_left s in if is_space (code c) then rest else String.◌∷◌ c s

abbrev is_empty : String → Bool
is_empty String.[] = true
is_empty (String.◌∷◌ c s) = false

pub trim_right : String → String
trim_right String.[] = String.[]
trim_right (String.◌∷◌ c s) =
    let t = trim_right s in if is_empty t && is_space (code c) then String.[] else String.◌∷◌ c t

unfoldable pub trim : String → String
unfolding trim_left trim_right
trim s = trim_right (trim_left s)

-- The character is put before the first part.
abbrev pub put_first : Char → List String → List String
put_first c [] = String.◌∷◌ c String.[] ∷ []
put_first c (p ∷ parts) = String.◌∷◌ c p ∷ parts

-- Split at a separator of one character
unfoldable pub split : ℕ → String → List String
split sep String.[] = String.[] ∷ []
split sep (String.◌∷◌ c s) =
    let parts = split sep s in if eqb (code c) sep then String.[] ∷ parts else put_first c parts

-- SplitN in two, `none` if the separator does not occur
unfoldable pub split_once : ℕ → String → Option (String × String)
split_once sep String.[] = none
split_once sep (String.◌∷◌ c s) =
    let rest = split_once sep s in
    if eqb (code c) sep
    then some (String.[], s)
    else elim rest [ none ↦ none | some (before, after) ↦ some (String.◌∷◌ c before, after) ]

pub split-nonempty :
    (sep : ℕ) (s : String) → (p : String) × (parts : List String) × (split sep s ≡ p ∷ parts)
unfolding split
split-nonempty sep String.[] = (String.[], [], refl)
split-nonempty sep (String.◌∷◌ c s) =
    let (p, parts, e) = split-nonempty sep s in
    elim (Bool-cases (eqb (code c) sep)) [
      | inl f ↦ (String.[], split sep s, rw (split, f) refl)
      | inr f ↦ (String.◌∷◌ c p, parts, rw (split, f, e) refl)
    ]

trim_right-cons :
    (c : Char) (s : String)
    → (is_empty (trim_right s) && is_space (code c)) ≡ false
    → trim_right (String.◌∷◌ c s) ≡ String.◌∷◌ c (trim_right s)
unfolding trim_right
trim_right-cons c s h = rw (trim_right, h) refl

trim_right_idem : (s : String) → trim_right (trim_right s) ≡ trim_right s
unfolding trim_right
trim_right_idem String.[] = refl
trim_right_idem (String.◌∷◌ c s) =
    elim (Bool-cases (is_empty (trim_right s) && is_space (code c))) [
      | inl e ↦ rw (trim_right, e) refl
      | inr e ↦
          let e' : (is_empty (trim_right (trim_right s)) && is_space (code c)) ≡ false =
            rw (trim_right_idem s) e in
          ap trim_right (trim_right-cons c s e)
          ∙ trim_right-cons c (trim_right s) e'
          ∙ ap (String.◌∷◌ c) (trim_right_idem s)
          ∙ sym (trim_right-cons c s e)
    ]

trim_left-other :
    (c : Char) (s : String)
    → is_space (code c) ≡ false
    → trim_left (String.◌∷◌ c s) ≡ String.◌∷◌ c s
unfolding trim_left
trim_left-other c s e = rw (trim_left, e) refl

trim_left-trim_right :
    (s : String) → trim_left (trim_right (trim_left s)) ≡ trim_right (trim_left s)
unfolding trim_left trim_right
trim_left-trim_right String.[] = refl
trim_left-trim_right (String.◌∷◌ c s) = elim (Bool-cases (is_space (code c))) [
  | inl e ↦ rw (trim_left, e) (trim_left-trim_right s)
  | inr e ↦
      let left = trim_left-other c s e in
      let right = trim_right-cons c s (ground arith) in
      ap (λ x. trim_left (trim_right x)) left
      ∙ ap trim_left right
      ∙ trim_left-other c (trim_right s) e
      ∙ sym (ap trim_right left ∙ right)
]

-- A trimmed text stays as it is.
pub trim_idem : (s : String) → trim (trim s) ≡ trim s
unfolding trim
trim_idem s = ap trim_right (trim_left-trim_right s) ∙ trim_right_idem (trim_left s)
