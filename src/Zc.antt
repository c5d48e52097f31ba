-- ===== src/Zc.antt =====
-- internal/zc/zc.go: the zone coordinator, its parser of zones and its handlers. The JSON encoder,
-- the lower case of a version and the router are parameters.
pub mod Text
pub mod Zones
pub mod Served
use election_agent.Prelude.{
  ℕ, zero, suc, String, ◌≡◌, Bool, false, ◌&&◌, ◌||◌, Option, none, some, List, [], ◌∷◌, ◌==◌, eqb,
  if◌then◌else◌,
}
use Prim.Native.Char.{code}
use text.Mathlib.Text.{starts_with}
use election_agent.Zc.Text.{trim, split, split_once}

-- zoneMap[group], in the order of assignment
abbrev pub Zones : Type 0
Zones = List (String × List String)

abbrev pub find_group : Zones → String → Option (List String)
find_group [] k = none
find_group ((group, zones) ∷ rest) k = if group == k then some zones else find_group rest k

abbrev pub set_group : String → List String → Zones → Zones
set_group k zones [] = (k, zones) ∷ []
set_group k zones ((group, old) ∷ rest) =
    let others = set_group k zones rest in
    if group == k then (group, zones) ∷ rest else (group, old) ∷ others

pub data Parsed (A : Type 0) : Type 0 where
  parsed : A → Parsed A
  rejected : String → Parsed A

-- The loop over the values of a group.
unfoldable pub parse_values : List String → Parsed (List String)
parse_values [] = parsed []
parse_values (v ∷ values) =
    let rest = parse_values values in
    if trim v == ""
    then rejected "contains empty value"
    else elim rest [ parsed zones ↦ parsed (trim v ∷ zones) | rejected m ↦ rejected m ]

-- One pair: its key and its zones.
unfoldable pub parse_pair : String → Parsed (String × List String)
unfolding parse_values
parse_pair pair =
    if trim pair == ""
    then rejected "contains empty key-value pair"
    else elim (split_once b':' (trim pair)) [
      | none ↦ rejected "invalid format: missing ':' separator"
      | some (key, values) ↦
          if trim key == ""
          then rejected "contains empty key"
          else elim (parse_values (split b',' values)) [
            | rejected m ↦ rejected m
            | parsed zones ↦ parsed (trim key, zones)
          ]
    ]

-- The loop over the pairs, with hasDefault.
unfoldable pub parse_pairs : List String → Zones → Bool → Parsed Zones
unfolding parse_pair
parse_pairs [] zones has_default =
    if has_default then parsed zones else rejected "needs to have default zone"
parse_pairs (pair ∷ pairs) zones has_default = elim (parse_pair pair) [
  | rejected m ↦ rejected m
  | parsed (key, values) ↦
      parse_pairs pairs (set_group key values zones) (key == "default" || has_default)
]

unfoldable pub parse_zone_string : String → Parsed Zones
unfolding parse_pairs
parse_zone_string zone = parse_pairs (split b';' (trim zone)) [] false

-- The fields version, zone and zoneMap of Server.
pub record Coordinator : Type 0 where
  pub version : String
  pub zone : String
  pub zone_map : Zones

-- zoneMap["default"][0], where an index out of range is a panic, `none`
unfoldable pub default_zone : Zones → Option String
default_zone zones = elim (find_group zones "default") [
  | none ↦ none
  | some [] ↦ none
  | some (z ∷ zs) ↦ some z
]

-- NewServer, on the lower case of the version
unfoldable pub new_server : String → String → Parsed (Option Coordinator)
unfolding parse_zone_string default_zone
new_server zone ver =
    if ver == "v2"
    then elim (parse_zone_string zone) [
      | rejected m ↦ rejected m
      | parsed zones ↦ elim (default_zone zones) [
        | none ↦ parsed none
        | some z ↦ parsed (some (record { version = ver; zone = z; zone_map = zones }))
      ]
    ]
    else parsed (some (record { version = ver; zone = trim zone; zone_map = [] }))

-- json.Marshal, which does not fail on lists and maps of texts, and json.Unmarshal into a []string
-- of what it writes.
pub record Json : Type 0 where
  pub marshal_list : List String → String
  pub marshal_map : Zones → String
  pub unmarshal_list : String → Option (List String)
  pub unmarshal-marshal : (zones : List String) → unmarshal_list (marshal_list zones) ≡ some zones
  pub unmarshal-object : (zones : Zones) → unmarshal_list (marshal_map zones) ≡ none

pub record Answer : Type 0 where
  pub status : ℕ
  pub content_type : String
  pub api_version : String
  pub body : String

unfoldable pub handler_v1 : Coordinator → Answer
handler_v1 s = record {
  status = 200;
  content_type = "text/plain";
  api_version = s.version;
  body = s.zone;
}

-- strings.TrimPrefix(path, "/")
unfoldable pub trim_slash : String → String
trim_slash String.[] = String.[]
trim_slash (String.◌∷◌ c s) = if eqb (code c) b'/' then s else String.◌∷◌ c s

-- The zones of a group, or those of "default"; a missing key is the nil list.
unfoldable pub group_zones : Zones → String → List String
group_zones zones group = elim (find_group zones group) [
  | some zs ↦ zs
  | none ↦ elim (find_group zones "default") [ some zs ↦ zs | none ↦ [] ]
]

-- handlerV2, at the path behind the stripped prefix
unfoldable pub handler_v2 : Json → Coordinator → String → Answer
unfolding trim_slash group_zones
handler_v2 J s path =
    let group = trim_slash path in
    record {
      status = 200;
      content_type = "application/json; charset=utf-8";
      api_version = s.version;
      body =
          if group == ""
          then J.marshal_map s.zone_map
          else J.marshal_list (group_zones s.zone_map group);
    }

-- livez and readyz
unfoldable pub probe : Answer
probe = record {
  status = 200;
  content_type = "application/json; charset=utf-8";
  api_version = "";
  body = "{\"status\", \"ok\"}";
}

-- http.StripPrefix("/v2", …)
abbrev pub drop_chars : ℕ → String → String
drop_chars zero s = s
drop_chars (suc n) String.[] = String.[]
drop_chars (suc n) (String.◌∷◌ c s) = drop_chars n s

-- The routes of Start, for a clean path.
unfoldable pub route : Json → Coordinator → String → Answer
unfolding handler_v1 handler_v2 probe
route J s path =
    if path == "/livez" || path == "/readyz"
    then probe
    else if s.version == "v2" && path == "/v1"
    then handler_v1 s
    else if s.version == "v2" && (path == "/v2" || starts_with path "/v2/")
    then handler_v2 J s (drop_chars 3 path)
    else handler_v1 s
