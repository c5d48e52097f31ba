-- ===== src/Tests/Encoding.antt =====
-- Test data: an encoder of lists of texts that meets the laws of the JSON encoder.
use election_agent.Prelude.{
  String, ◌≡◌, refl, ap, ◌∙◌, Bool, Option, none, some, List, [], ◌∷◌, eqb, if◌then◌else◌,
}
use Prim.Native.Char.{Char, code}
use election_agent.Zc.{Json}
use election_agent.Zc.Text.{put_first}

-- Each character behind a `c`, and an `e` at the end of a text.
abbrev encode_text : String → String → String
encode_text String.[] rest = String.◌∷◌ "e" rest
encode_text (String.◌∷◌ c s) rest = String.◌∷◌ "c" (String.◌∷◌ c (encode_text s rest))

abbrev encode : List String → String
encode [] = String.[]
encode (z ∷ zs) = encode_text z (encode zs)

abbrev is_end : Char → Bool
is_end c = eqb (code c) b'e'

abbrev decode : String → List String
decode String.[] = []
decode (String.◌∷◌ t String.[]) = String.[] ∷ []
decode (String.◌∷◌ t (String.◌∷◌ c s)) =
    let more = decode (String.◌∷◌ c s) in
    let rest = decode s in if is_end t then String.[] ∷ more else put_first c rest

decode-end : (s : String) → decode (String.◌∷◌ "e" s) ≡ String.[] ∷ decode s
decode-end String.[] = refl
decode-end (String.◌∷◌ c s) = refl

decode-encode_text : (z : String) (rest : String) → decode (encode_text z rest) ≡ z ∷ decode rest
decode-encode_text String.[] rest = decode-end rest
decode-encode_text (String.◌∷◌ c s) rest = ap (put_first c) (decode-encode_text s rest)

pub decode-encode : (zs : List String) → decode (encode zs) ≡ zs
decode-encode [] = refl
decode-encode (z ∷ zs) = decode-encode_text z (encode zs) ∙ ap (λ r. z ∷ r) (decode-encode zs)

abbrev is_list : Char → Bool
is_list c = eqb (code c) b'['

abbrev decode_list : String → Option (List String)
decode_list String.[] = none
decode_list (String.◌∷◌ c s) = if is_list c then some (decode s) else none

abbrev pub coded : Json
coded = record {
  marshal_list = λ zs. String.◌∷◌ "[" (encode zs);
  marshal_map = λ zones. "{}";
  unmarshal_list = decode_list;
  unmarshal-marshal = λ zs. ap some (decode-encode zs);
  unmarshal-object = λ zones. refl;
}
