-- ===== src/Zone/Coordinator.antt =====
-- getActiveZone of internal/zone/zone_mgr.go: what the agent reads from the answer of the zone
-- coordinator. The HTTP client and the JSON decoder are parameters.
use election_agent.Prelude.{
  ℕ, String, Bool, true, false, ◌||◌, Option, none, some, List, [], ◌∷◌, ◌==◌, eqb, if◌then◌else◌,
  is_some,
}
use text.Mathlib.Text.{find?}
use election_agent.Zone.Watch.{Ttls, Watcher, check_active_zone}

-- The answer to the request; a body that cannot be read is `none`.
pub record HttpAnswer : Type 0 where
  pub status : ℕ
  pub api_version : String
  pub content_type : String
  pub body : Option String

-- strings.Contains
abbrev pub includes : String → String → Bool
includes s t = is_some (find? s t)

abbrev first_zone : String → Option (List String) → String × Bool
first_zone kept none = (kept, false)
first_zone kept (some []) = (kept, false)
first_zone kept (some (z ∷ zs)) = (z, true)

-- What the body says.
unfoldable pub read_body :
    (String → Option (List String)) → String → HttpAnswer → String → String × Bool
read_body unmarshal kept a body =
    if a.api_version == "v1" || includes a.content_type "text/plain"
    then (body, true)
    else if includes a.content_type "application/json"
    then first_zone kept (unmarshal body)
    else (kept, false)

-- getActiveZone; `none` is a request that failed, and `kept` the zone that the agent has
unfoldable pub get_coordinator_zone :
    (String → Option (List String)) → String → Option HttpAnswer → String × Bool
unfolding read_body
get_coordinator_zone unmarshal kept none = (kept, false)
get_coordinator_zone unmarshal kept (some a) = elim a.body [
  | none ↦ (kept, false)
  | some body ↦ if eqb a.status 200 then read_body unmarshal kept a body else (kept, false)
]

-- checkActiveZone on the answer
unfoldable pub watch_coordinator :
    (String → Option (List String))
    → Ttls
    → ℕ
    → Option HttpAnswer
    → String
    → Watcher
    → Watcher × (String × Bool × Bool)
watch_coordinator unmarshal ttls now answer stored z =
    let (zone, connected) = get_coordinator_zone unmarshal z.active_zone answer in
    check_active_zone ttls now (if connected then some zone else none) stored z
