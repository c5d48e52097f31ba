-- ===== src/Tests/Connections.antt =====
-- The setting redis.urls, and a connection that loses its server.
use election_agent.Prelude.{
  ℕ, String, ◌≡◌, refl, true, false, none, some, List, [], ◌∷◌, arith, ◌==◌, ltb, eqb,
  if◌then◌else◌, is_some, length,
}
use election_agent.Errors.{net_op}
use election_agent.Errors.Walk.{as_any}
use election_agent.Driver.Modes.{created, create_connections}
use election_agent.Driver.Modes.Urls.{UrlParser, rueidis_shards, parse_rueidis, parse_goredis}
use election_agent.Driver.Modes.Urls.Panics.{longer, panics, urls_panic}
use election_agent.Redlock.Rueidis.{
  RueidisConn, new_conn, begin_call, end_call, get_client, check_net_op_error, tick,
  not_accept_lock,
}
use election_agent.Redlock.Rueidis.Recovery.{
  Event, begins, ends, after_events, lost_call, not_accept_lock-after,
}

-- A URL with two addresses, and one with three.
abbrev addresses_of : String → List ℕ
addresses_of url = if url == "three" then 1 ∷ 2 ∷ 3 ∷ [] else 1 ∷ 2 ∷ []

abbrev numbered : UrlParser
numbered = record {
  Options = ℕ;
  parse = λ url. some (length (addresses_of url));
  addresses = λ n. if eqb n 3 then 1 ∷ 2 ∷ 3 ∷ [] else 1 ∷ 2 ∷ [];
}

abbrev two : List ℕ
two = 1 ∷ 2 ∷ []

abbrev three : List ℕ
three = 1 ∷ 2 ∷ 3 ∷ []

-- rueidis accepts URLs of two and of three addresses.
accepted :
    parse_rueidis numbered "sharding" ("two" ∷ "three" ∷ "two" ∷ [])
    ≡ created (two ∷ three ∷ two ∷ [])
unfolding parse_rueidis rueidis_shards
accepted = refl

urls_panic_example :
    (panics ℕ (create_connections ℕ 0 (two ∷ three ∷ two ∷ []))
      ≡ ltb 0 (longer two (three ∷ two ∷ [])))
    × (parse_goredis numbered "sharding" ("two" ∷ "three" ∷ "two" ∷ [])
          ≡ created (two ∷ three ∷ two ∷ [])
        → panics ℕ (create_connections ℕ 0 (two ∷ three ∷ two ∷ [])) ≡ false)
urls_panic_example =
    urls_panic numbered 0 ("two" ∷ "three" ∷ "two" ∷ []) two (three ∷ two ∷ []) (omega arith)

-- A call that ended with a network error.
abbrev losing : List Event
losing = begins ∷ ends true (some (net_op "broken pipe")) ∷ []

abbrev lost : RueidisConn
lost = record {
  client = true;
  last_err = some (net_op "broken pipe");
  recreate_time = 0;
  client_routine = false;
}

losing-lost : after_events losing (new_conn none) ≡ lost
unfolding new_conn begin_call get_client end_call check_net_op_error as_any
losing-lost = refl

not_found : (begin_call (after_events losing (new_conn none))).1 ≡ false
unfolding begin_call get_client
not_found = rw losing-lost refl

lost_call_example :
    let c' = (begin_call (after_events losing (new_conn none))).0 in
    let empty : String = "" in
    (is_some (end_call false empty ("ann", none) c').1.1 ≡ true)
    × ((end_call false empty ("ann", none) (tick none 7000 c')).1 ≡ (empty, none))
lost_call_example = lost_call {A = String} none losing "" ("ann", none) 7000 not_found

abbrev looked_after : RueidisConn
looked_after = record lost { client_routine = true }

not_accept_lock-after_example :
    not_accept_lock 3000006000 (after_events losing (tick none 7000 looked_after)) ≡ true
not_accept_lock-after_example =
    not_accept_lock-after looked_after 7000 3000006000 losing refl tt (omega arith)
