-- ===== src/Kube/Int32.antt =====
-- toInt32 of internal/kube/kube.go, with ParseInt of the standard library in base 10 and 32 bits.
use election_agent.Prelude.{
  ℕ, zero, suc, ◌+◌, ◌-◌, ◌*◌, String, ◌&&◌, Option, none, some, leb, eqb, if◌then◌else◌,
}
use Prim.Native.Char.{code}
use election_agent.Prelude.Int.{ℤ, pos, negsuc}

-- The digits of a number in base 10.
abbrev digits : ℕ → String → Option ℕ
digits acc String.[] = some acc
digits acc (String.◌∷◌ c s) =
    let rest = digits (acc * 10 + (code c - 48)) s in
    if leb 48 (code c) && leb (code c) 57 then rest else none

abbrev unsigned : String → Option ℕ
unsigned String.[] = none
unsigned (String.◌∷◌ c s) = digits 0 (String.◌∷◌ c s)

abbrev negate : ℕ → ℤ
negate zero = pos 0
negate (suc n) = negsuc n

abbrev positive : Option ℕ → Option ℤ
positive none = none
positive (some n) = if leb n 2147483647 then some (pos n) else none

abbrev negative : Option ℕ → Option ℤ
negative none = none
negative (some n) = if leb n 2147483648 then some (negate n) else none

-- strconv.ParseInt(s, 10, 32)
unfoldable pub parse_int : String → Option ℤ
parse_int String.[] = none
parse_int (String.◌∷◌ c s) =
    if eqb (code c) 45
    then negative (unsigned s)
    else if eqb (code c) 43
    then positive (unsigned s)
    else positive (unsigned (String.◌∷◌ c s))

unfoldable pub to_int32 : String → ℤ
unfolding parse_int
to_int32 s = elim (parse_int s) [ none ↦ pos 0 | some i ↦ i ]
