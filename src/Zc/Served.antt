-- ===== src/Zc/Served.antt =====
-- An agent, getActiveZone of internal/zone/zone_mgr.go, that asks the coordinator of
-- internal/zc/zc.go.
use election_agent.Prelude.{
  String, ◌≡◌, refl, ap, ◌∙◌, ◌≢◌, inl, inr, Bool, true, false, none, some, List, [], ◌∷◌, arith,
  ◌==◌, is_some, Bool-cases, Option-cases, length,
}
use Prim.Native.Char.{Char, code}
use mathlib.Core.Path.{subst}
use mathlib.Core.Option.{some-injective}
use election_agent.Zc.{
  Zones, find_group, parsed, parse_zone_string, Coordinator, default_zone, new_server, Json, Answer,
  handler_v1, handler_v2, trim_slash, group_zones,
}
use election_agent.Zc.Zones.{
  AreZones, AreNames, IsName, Parsed-cases, parsed-injective, parse_zone_string-AreZones,
}
use election_agent.Zone.Coordinator.{HttpAnswer, get_coordinator_zone, read_body}

abbrev pub received : Answer → HttpAnswer
received a = record {
  status = a.status;
  api_version = a.api_version;
  content_type = a.content_type;
  body = some a.body;
}

find_group-AreNames :
    (zones : Zones) (k : String) (zs : List String)
    → AreZones zones
    → find_group zones k ≡ some zs
    → (length zs ≢ 0) × AreNames zs
find_group-AreNames [] k zs h e = absurd (ground arith)
find_group-AreNames ((group, names) ∷ rest) k zs (h, hs) e = elim (Bool-cases (group == k)) [
  | inl f ↦ subst (λ x. (length x ≢ 0) × AreNames x) (some-injective _ _ (rw f at e)) h.1
  | inr f ↦ find_group-AreNames rest k zs hs (rw f at e)
]

group_zones-AreNames :
    (zones : Zones) (k : String)
    → AreZones zones
    → is_some (find_group zones "default") ≡ true
    → (length (group_zones zones k) ≢ 0) × AreNames (group_zones zones k)
unfolding group_zones
group_zones-AreNames zones k h d = elim (Option-cases (find_group zones k)) [
  | inr (zs, e) ↦ rw (group_zones, e) (find_group-AreNames zones k zs h e)
  | inl e ↦ elim (Option-cases (find_group zones "default")) [
    | inr (zs, f) ↦ rw (group_zones, e, f) (find_group-AreNames zones "default" zs h f)
    | inl f ↦ absurd (ground (arith, rw f at d))
  ]
]

first-IsName :
    (zs : List String)
    → (length zs ≢ 0) × AreNames zs
    → (z : String) × (rest : List String) × (zs ≡ z ∷ rest) × IsName z
first-IsName [] (n, names) = absurd (n refl)
first-IsName (z ∷ rest) (n, (name, names)) = (z, rest, refl, name)

-- What a coordinator of version v2 knows.
abbrev IsCoordinator : Coordinator → Type 0
IsCoordinator s =
    (s.version ≡ "v2")
    × AreZones s.zone_map
    × (is_some (find_group s.zone_map "default") ≡ true)
    × (default_zone s.zone_map ≡ some s.zone)

new_server-IsCoordinator :
    (zone : String) (s : Coordinator) → new_server zone "v2" ≡ parsed (some s) → IsCoordinator s
unfolding new_server
new_server-IsCoordinator zone s h = elim (Parsed-cases (parse_zone_string zone)) [
  | inr (m, e) ↦ absurd (ground (arith, rw (new_server, e) at h))
  | inl (zones, e) ↦ elim (Option-cases (default_zone zones)) [
    | inl f ↦ absurd (ground (arith, rw (new_server, e, f) at h))
    | inr (z, f) ↦
        let (ok, def) = parse_zone_string-AreZones zone zones e in
        subst IsCoordinator (some-injective _ _ (parsed-injective _ _ (rw (new_server, e, f) at h)))
          (refl, ok, def, f)
  ]
]

default_zone-IsName :
    (zones : Zones) (z : String) → AreZones zones → default_zone zones ≡ some z → IsName z
unfolding default_zone
default_zone-IsName zones z ok h = elim (Option-cases (find_group zones "default")) [
  | inl e ↦ absurd (ground (arith, rw (default_zone, e) at h))
  | inr (zs, e) ↦
      let (first, rest, f, name) = first-IsName zs (find_group-AreNames zones "default" zs ok e) in
      subst IsName (some-injective _ _ (rw (default_zone, e, f) at h)) name
]

module _ (J : Json) (kept : String) where
  abbrev pub ask : Answer → String × Bool
  ask a = get_coordinator_zone J.unmarshal_list kept (some (received a))

  served_v1 : (s : Coordinator) → ask (handler_v1 s) ≡ (s.zone, true)
  unfolding get_coordinator_zone handler_v1 read_body
  served_v1 s = ground arith

  served_list :
      (version body z : String) (rest : List String)
      → version ≡ "v2"
      → J.unmarshal_list body ≡ some (z ∷ rest)
      → ask (record {
        status = 200;
        content_type = "application/json; charset=utf-8";
        api_version = version;
        body = body;
      })
        ≡ (z, true)
  unfolding get_coordinator_zone read_body
  served_list version body z rest e f = rw (get_coordinator_zone, read_body, e, f) refl

  served_object :
      (version body : String)
      → version ≡ "v2"
      → J.unmarshal_list body ≡ none
      → ask (record {
        status = 200;
        content_type = "application/json; charset=utf-8";
        api_version = version;
        body = body;
      })
        ≡ (kept, false)
  unfolding get_coordinator_zone read_body
  served_object version body e f = rw (get_coordinator_zone, read_body, e, f) refl

  trim_slash-cons :
      (slash : Char) (group : String)
      → code slash ≡ b'/'
      → trim_slash (String.◌∷◌ slash group) ≡ group
  unfolding trim_slash
  trim_slash-cons slash group e = ground arith

  served_group :
      (s : Coordinator) (slash : Char) (group : String)
      → IsCoordinator s
      → code slash ≡ b'/'
      → (group == "") ≡ false
      → (z : String) × (rest : List String) × (group_zones s.zone_map group ≡ z ∷ rest)
        × IsName z
        × (ask (handler_v2 J s (String.◌∷◌ slash group)) ≡ (z, true))
  unfolding handler_v2
  served_group s slash group (v2, ok, def, _) e g =
      let (z, rest, f, name) =
        first-IsName (group_zones s.zone_map group)
          (group_zones-AreNames s.zone_map group ok def) in
      (
        z,
        rest,
        f,
        name,
        rw (trim_slash-cons slash group e, g)
            (served_list s.version (J.marshal_list (group_zones s.zone_map group)) z rest v2
              (J.unmarshal-marshal (group_zones s.zone_map group) ∙ ap some f)),
      )

  served_map :
      (s : Coordinator) (path : String)
      → IsCoordinator s
      → trim_slash path ≡ ""
      → ask (handler_v2 J s path) ≡ (kept, false)
  unfolding handler_v2
  served_map s path (v2, _, _, _) e =
      rw e (served_object s.version (J.marshal_map s.zone_map) v2 (J.unmarshal-object s.zone_map))

  -- If a coordinator of version v2 is made from a text of zones, and with a JSON decoder that reads
  -- lists of texts back and refuses objects: an agent that asks for a group that is not empty gets
  -- the first zone of the group, or of the default group, which is a trimmed name; one that asks
  -- the first version of the interface gets the first default zone, a trimmed name too; and one
  -- that asks for all groups keeps the zone it has and does not count as connected.
  pub new_server-served :
      (zone : String) (s : Coordinator) (slash : Char) (group : String)
      → new_server zone "v2" ≡ parsed (some s)
      → code slash ≡ b'/'
      → (group == "") ≡ false
      → ((z : String) × (rest : List String) × (group_zones s.zone_map group ≡ z ∷ rest)
          × IsName z
          × (ask (handler_v2 J s (String.◌∷◌ slash group)) ≡ (z, true)))
        × ((default_zone s.zone_map ≡ some s.zone)
            × IsName s.zone
            × (ask (handler_v1 s) ≡ (s.zone, true)))
        × (ask (handler_v2 J s (String.◌∷◌ slash "")) ≡ (kept, false))
  new_server-served zone s slash group h e g =
      let c = new_server-IsCoordinator zone s h in
      (
        served_group s slash group c e g,
        (c.3, default_zone-IsName s.zone_map s.zone c.1 c.3, served_v1 s),
        served_map s (String.◌∷◌ slash "") c (trim_slash-cons slash "" e),
      )
