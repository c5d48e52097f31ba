-- ===== src/Tests/Coordinators.antt =====
-- The zone coordinator and the agents that ask it, an operator, and the two front ends.
use election_agent.Prelude.{
  ℕ, ◌+◌, String, ◌≡◌, refl, ◌↔◌, true, false, ◌&&◌, none, some, List, [], ◌∷◌, arith, is_some,
}
use Prim.Native.Char.{Char}
use election_agent.Prelude.Int.{pos}
use election_agent.Agent.{valid_states, valid_modes, contains}
use election_agent.Lease.{RedisLease}
use election_agent.Lease.Cache.{Hasher, LeaseManager}
use election_agent.Lease.Manager.{Clock, gate, pre_hook}
use election_agent.Zone.Manager.{Process, invalid_argument, get_status, set_status}
use election_agent.Zone.Manager.Control.{set_status-gates}
use election_agent.Zc.Text.{trim, split, split_once}
use election_agent.Zc.{
  Zones, find_group, parsed, parse_values, parse_pair, parse_pairs, parse_zone_string, Coordinator,
  default_zone, new_server, handler_v1, handler_v2, group_zones,
}
use election_agent.Zc.Zones.{AreZones, IsName, parse_zone_string-AreZones}
use election_agent.Zc.Served.{ask, new_server-served}
use election_agent.Api.Server.{Enabled, ready_chan_size, signal, wait_ready}
use election_agent.Api.Server.Ready.{arrives, wait_ready_iff}
use election_agent.Api.Grpc.{LeaseService, Request, campaign, extend_elected_term, resign, handover}
use election_agent.Api.Http.{http_campaign, http_extend, http_handover, http_resign}
use election_agent.Api.Http.Agrees.{Agree, elected_of, as_http, http_agrees}
use election_agent.Tests.Fixtures.{thousandths, config}
use election_agent.Tests.Encoding.{coded}
use election_agent.Tests.Stores.{text_store, keys, full_cache}

abbrev zones : Zones
zones = ("default", "z2" ∷ "z1" ∷ []) ∷ ("test", "z1" ∷ []) ∷ []

trimmed : trim " a b " ≡ "a b"
unfolding trim
trimmed = refl

parse-zones : parse_zone_string "default: z2,z1 ; test:z1" ≡ parsed zones
unfolding parse_zone_string parse_pairs parse_pair parse_values split split_once trim
parse-zones = refl

parse_zone_string-AreZones_example : AreZones zones × (is_some (find_group zones "default") ≡ true)
parse_zone_string-AreZones_example =
    parse_zone_string-AreZones "default: z2,z1 ; test:z1" zones parse-zones

abbrev coordinator : Coordinator
coordinator = record { version = "v2"; zone = "z2"; zone_map = zones }

made : new_server "default: z2,z1 ; test:z1" "v2" ≡ parsed (some coordinator)
unfolding new_server default_zone
made = rw parse-zones refl

abbrev slash : Char
slash = "/"

new_server-served_example :
    ((z : String) × (rest : List String) × (group_zones zones "test" ≡ z ∷ rest)
      × IsName z
      × (ask coded "z9" (handler_v2 coded coordinator (String.◌∷◌ slash "test")) ≡ (z, true)))
    × ((default_zone zones ≡ some "z2")
        × IsName "z2"
        × (ask coded "z9" (handler_v1 coordinator) ≡ ("z2", true)))
    × (ask coded "z9" (handler_v2 coded coordinator (String.◌∷◌ slash "")) ≡ ("z9", false))
new_server-served_example =
    new_server-served coded "z9" "default: z2,z1 ; test:z1" coordinator slash "test" made refl refl

abbrev both : Enabled
both = record { grpc = true; http = true }

-- The first service has failed, and WaitReady still answers yes.
wait_ready_iff_example :
    (wait_ready both (signal false ∷ signal true ∷ []) ≡ some true)
    ↔ (arrives (ready_chan_size both) true (signal false ∷ signal true ∷ []) ≡ true)
wait_ready_iff_example = wait_ready_iff both (signal false ∷ signal true ∷ []) refl

abbrev counter : LeaseService
counter = record {
  World = ℕ;
  grant_lease = λ name kind holder ttl w. (w + 1, ((holder, kind), none));
  extend_lease = λ name kind holder ttl w. (w + 1, none);
  revoke_lease = λ name kind holder w. (w + 1, none);
  handover_lease = λ name kind holder ttl w. (w + 1, none);
  get_lease_holder = λ name kind w. (w, ("ann", none));
  get_lease_holders = λ kind w. (w, ([], none));
  sleep = λ ms w. w;
}

abbrev sent : Request
sent = record {
  election = "shop";
  kind = "default";
  holder = "ann";
  term = pos 3000;
  retries = pos 3;
  retry_interval = pos 10;
}

http_agrees_example :
    Agree counter
      (http_campaign counter (as_http sent) 0)
      (elected_of counter (campaign counter sent 0))
    × Agree counter (http_extend counter (as_http sent) 0) (extend_elected_term counter sent 0)
    × Agree counter (http_handover counter (as_http sent) 0) (handover counter sent 0)
    × Agree counter (http_resign counter (as_http sent) 0) (resign counter sent 0)
http_agrees_example = http_agrees counter sent 0

abbrev length_hash : Hasher
length_hash = record { hash = λ s. 7 }

abbrev manager : LeaseManager thousandths length_hash (full_cache (RedisLease thousandths))
manager = record {
  cfg = config;
  state = record { val = "active"; last = 1000; ttl = 5000 };
  cache = λ i. none;
}

abbrev process :
    Process thousandths length_hash (full_cache (RedisLease thousandths)) text_store keys
process = record {
  local = record {
    state = "active";
    mode = "normal";
    active_zone = "east";
    zc_connected = true;
    peer_connected = true;
  };
  managed = (manager, λ k. "");
}

abbrev clock : Clock
clock = record { checked = 6000; stored = 6000 }

set_status-gates_example :
    let C = full_cache (RedisLease thousandths) in
    let (p', reply) =
      set_status thousandths length_hash C text_store keys "standby" "normal" 2000 process in
    (contains valid_states "standby" && contains valid_modes "normal" ≡ false
      → (p' ≡ process) × (reply ≡ invalid_argument))
    × (contains valid_states "standby" && contains valid_modes "normal" ≡ true
        → (pre_hook thousandths length_hash C text_store keys clock p'.managed
            ≡ (p'.managed, gate "standby"))
          × ((get_status thousandths length_hash C text_store keys p').state ≡ "standby")
          × ((get_status thousandths length_hash C text_store keys p').mode ≡ "normal"))
set_status-gates_example =
    set_status-gates thousandths length_hash (full_cache (RedisLease thousandths)) text_store keys
      "standby" "normal" 2000 process clock refl (omega arith) (omega arith)
