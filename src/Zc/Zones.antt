-- ===== src/Zc/Zones.antt =====
-- What parseZoneString of internal/zc/zc.go accepts.
use election_agent.Prelude.{
  suc, String, ◌≡◌, refl, sym, ap, ◌∙◌, ◌≢◌, ◌⊎◌, inl, inr, Bool, true, false, ◌||◌, List, [], ◌∷◌,
  arith, ◌==◌, eq_iff, is_some, Bool-cases, Option-cases, length,
}
use mathlib.Core.Path.{subst}
use election_agent.Zc.Text.{trim, trim_idem, split, split_once, split-nonempty}
use election_agent.Zc.{
  Zones, find_group, set_group, Parsed, parsed, rejected, parse_values, parse_pair, parse_pairs,
  parse_zone_string,
}

-- A name that is not empty and has no space around it.
abbrev pub IsName : String → Type 0
IsName s = ((s == "") ≡ false) × (trim s ≡ s)

abbrev pub AreNames : List String → Type 0
AreNames [] = Unit
AreNames (s ∷ names) = IsName s × AreNames names

-- Every group has a name, and at least one zone, each with a name.
abbrev pub AreZones : Zones → Type 0
AreZones [] = Unit
AreZones ((group, zones) ∷ rest) =
    (IsName group × ((length zones ≢ 0) × AreNames zones)) × AreZones rest

pub parsed-injective : {A : Type 0} (a b : A) → parsed a ≡ parsed b → a ≡ b
parsed-injective a b h = ap (value_or a) h
  where
    value_or : {B : Type 0} → B → Parsed B → B
    value_or d (parsed x) = x
    value_or d (rejected m) = d

pub Parsed-cases :
    {A : Type 0} (p : Parsed A) → ((a : A) × (p ≡ parsed a)) ⊎ ((m : String) × (p ≡ rejected m))
Parsed-cases (parsed a) = inl (a, refl)
Parsed-cases (rejected m) = inr (m, refl)

trim-IsName : (s : String) → (trim s == "") ≡ false → IsName (trim s)
trim-IsName s h = (h, trim_idem s)

parse_values-AreNames :
    (values zones : List String)
    → parse_values values ≡ parsed zones
    → AreNames zones × (length zones ≡ length values)
unfolding parse_values
parse_values-AreNames [] zones h =
    subst (λ z. AreNames z × (length z ≡ 0)) (parsed-injective _ _ h) (tt, refl)
parse_values-AreNames (v ∷ values) zones h = elim (Bool-cases (trim v == "")) [
  | inl e ↦ absurd (ground (arith, rw (parse_values, e) at h))
  | inr e ↦ elim (Parsed-cases (parse_values values)) [
    | inr (m, f) ↦ absurd (ground (arith, rw (parse_values, e, f) at h))
    | inl (zs, f) ↦
        let (names, size) = parse_values-AreNames values zs f in
        subst (λ z. AreNames z × (length z ≡ suc (length values)))
          (parsed-injective _ _ (rw (parse_values, e, f) at h))
          ((trim-IsName v e, names), ap suc size)
  ]
]

parse_pair-IsGroup :
    (pair group : String) (zones : List String)
    → parse_pair pair ≡ parsed (group, zones)
    → AreZones ((group, zones) ∷ [])
unfolding parse_pair
parse_pair-IsGroup pair group zones h = elim (Bool-cases (trim pair == "")) [
  | inl e ↦ absurd (ground (arith, rw (parse_pair, e) at h))
  | inr e ↦ elim (Option-cases (split_once b':' (trim pair))) [
    | inl f ↦ absurd (ground (arith, rw (parse_pair, e, f) at h))
    | inr ((key, values), f) ↦ elim (Bool-cases (trim key == "")) [
      | inl g ↦ absurd (ground (arith, rw (parse_pair, e, f, g) at h))
      | inr g ↦ elim (Parsed-cases (parse_values (split b',' values))) [
        | inr (m, q) ↦ absurd (ground (arith, rw (parse_pair, e, f, g, q) at h))
        | inl (zs, q) ↦
            let (names, size) = parse_values-AreNames (split b',' values) zs q in
            let (p, parts, r) = split-nonempty b',' values in
            subst (λ x. AreZones (x ∷ [])) (parsed-injective _ _ (rw (parse_pair, e, f, g, q) at h))
              (
                (trim-IsName key g, ((λ z. absurd (omega (arith, size, ap length r, z))), names)),
                tt,
              )
      ]
    ]
  ]
]

set_group-AreZones :
    (group : String) (values : List String) (zones : Zones)
    → AreZones ((group, values) ∷ [])
    → AreZones zones
    → AreZones (set_group group values zones)
set_group-AreZones group values [] h g = h
set_group-AreZones group values ((k, old) ∷ rest) h (kg, g) = elim (Bool-cases (k == group)) [
  | inl e ↦ rw e ((kg.0, h.0.1), g)
  | inr e ↦ rw e (kg, set_group-AreZones group values rest h g)
]

find_group-set_group :
    (group k : String) (values : List String) (zones : Zones)
    → is_some (find_group (set_group group values zones) k)
      ≡ (group == k || is_some (find_group zones k))
find_group-set_group group k values [] = ground arith
find_group-set_group group k values ((j, old) ∷ rest) =
    ground
      (arith, find_group-set_group group k values rest, eq_iff j group, eq_iff group k, eq_iff j k)

parse_pairs-AreZones :
    (pairs : List String) (zones out : Zones) (has_default : Bool)
    → AreZones zones
    → has_default ≡ is_some (find_group zones "default")
    → parse_pairs pairs zones has_default ≡ parsed out
    → AreZones out × (is_some (find_group out "default") ≡ true)
unfolding parse_pairs
parse_pairs-AreZones [] zones out has_default z d h = elim (Bool-cases has_default) [
  | inl e ↦
      subst (λ x. AreZones x × (is_some (find_group x "default") ≡ true))
        (parsed-injective _ _ (rw e at h)) (z, sym d ∙ e)
  | inr e ↦ absurd (ground (arith, rw e at h))
]
parse_pairs-AreZones (pair ∷ pairs) zones out has_default z d h =
    elim (Parsed-cases (parse_pair pair)) [
      | inr (m, e) ↦ absurd (ground (arith, rw (parse_pairs, e) at h))
      | inl ((group, values), e) ↦
          parse_pairs-AreZones pairs (set_group group values zones) out
            (group == "default" || has_default)
            (set_group-AreZones group values zones (parse_pair-IsGroup pair group values e) z)
            (ap (λ b. group == "default" || b) d
              ∙ sym (find_group-set_group group "default" values zones))
            (rw (parse_pairs, e) at h)
    ]

pub parse_zone_string-AreZones :
    (zone : String) (zones : Zones)
    → parse_zone_string zone ≡ parsed zones
    → AreZones zones × (is_some (find_group zones "default") ≡ true)
unfolding parse_zone_string
parse_zone_string-AreZones zone zones h =
    parse_pairs-AreZones (split b';' (trim zone)) [] zones false tt refl h
