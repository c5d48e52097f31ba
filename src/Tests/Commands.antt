-- ===== src/Tests/Commands.antt =====
-- A client library over the servers of the other tests, and the commands of the wrappers on it.
use election_agent.Prelude.{
  ℕ, String, ◌≡◌, ◌⊎◌, refl, inl, inr, Bool, true, false, Option, none, some, List, [], ◌∷◌, map,
  ◌==◌, if◌then◌else◌,
}
use election_agent.Prelude.Int.{pos}
use election_agent.Errors.{Error, text}
use election_agent.Redlock.Script.{int, int64, status}
use election_agent.Redlock.Rueidis.{new_conn, get_client, check_net_op_error}
use election_agent.Redlock.Commands.{Library, Script, no_err_nil, goredis_eval, rueidis_eval}
use election_agent.Redlock.Commands.Faithful.{
  IsDocumented, Tables, put_pairs, shown, KnowsOrSays, evals_once,
}
use election_agent.Tests.Clients.{Node, down}

abbrev redis_nil : Error
redis_nil = text "redis: nil"

abbrev missing_script : Error
missing_script = text "NOSCRIPT No matching script"

abbrev has_text : String → Error → Bool
has_text m (text n) = n == m
has_text m _ = false

abbrev found : Option String → String × Option Error
found none = ("", some redis_nil)
found (some v) = (v, none)

abbrev write : List String → Node → Tables → Tables × (String × Option Error)
write pairs (n, true) w = (put_pairs n pairs w, ("OK", none))
write pairs (n, false) w = (w, ("", some down))

abbrev library : Library
library = record {
  Client = Node;
  World = Tables;
  get = λ k c w. (w, if c.1 then found (w c.0 k) else ("", some down));
  set = λ k v c w. write (k ∷ v ∷ []) c w;
  eval_sha = λ hash keys args c w. (w, (int64 (pos 0), some missing_script));
  eval = λ src keys args c w. (w, (status src, none));
  close = λ c w. (w, none);
  ping = λ c w. (w, if c.1 then ("PONG", none) else ("", some down));
  mget = λ ks c w. (w, if c.1 then (map (w c.0) ks, none) else ([], some down));
  mset = λ pairs c w. write pairs c w;
  scan = λ cursor match count c w. (w, (([], 0), none));
  is_nil = has_text "redis: nil";
  is_no_script = has_text "NOSCRIPT No matching script";
}

abbrev Failed : {A : Type 0} → A → A × Option Error → Type 0
Failed zero_value out = (e : Error) × (library.is_nil e ≡ false) × (out ≡ (zero_value, some e))

get-found :
    (key : String) (n : ℕ) (up : Bool) (w : Tables)
    → ((library.get key (n, up) w).1
        ≡ (elim (w n key) [ none ↦ ("", some redis_nil) | some v ↦ (v, none) ]))
      ⊎ Failed "" (library.get key (n, up) w).1
get-found key n false w = inr (down, refl, refl)
get-found key n true w = inl refl

mget-found :
    (keys : List String) (n : ℕ) (up : Bool) (w : Tables)
    → ((library.mget keys (n, up) w).1 ≡ (map (w n) keys, none))
      ⊎ Failed [] (library.mget keys (n, up) w).1
mget-found keys n true w = inl refl
mget-found keys n false w = inr (down, refl, refl)

write-done :
    (pairs : List String) (n : ℕ) (up : Bool) (w : Tables)
    → (((write pairs (n, up) w).1 ≡ ("OK", none))
        × ((write pairs (n, up) w).0 ≡ put_pairs n pairs w))
      ⊎ ((e : Error) × ((write pairs (n, up) w).1 ≡ ("", some e))
          × (((write pairs (n, up) w).0 ≡ w) ⊎ ((write pairs (n, up) w).0 ≡ put_pairs n pairs w)))
write-done pairs n true w = inl (refl, refl)
write-done pairs n false w = inr (down, refl, inl refl)

abbrev documented : IsDocumented library
documented = record {
  tables = λ w. w;
  server = λ c. c.0;
  nil_error = redis_nil;
  nil-is_nil = refl;
  get-frame = λ key c w. refl;
  get-answer = λ key (n, up) w. get-found key n up w;
  mget-frame = λ keys c w. refl;
  mget-answer = λ keys (n, up) w. mget-found keys n up w;
  set-answer = λ key value (n, up) w. write-done (key ∷ value ∷ []) n up w;
  mset-answer = λ pairs (n, up) w. write-done pairs n up w;
}

abbrev held : Tables → Node → String → String
held = shown library documented

abbrev keys : List String
keys = "k" ∷ "l" ∷ []

abbrev pairs : List String
pairs = "k" ∷ "1" ∷ "l" ∷ "2" ∷ []

abbrev script : Script
script = record { hash = "5e0f"; src = "return 1" }

abbrev node : Node
node = (1, true)

abbrev blank : Tables
blank n k = none

says : KnowsOrSays library script keys [] node blank
says = (refl, inr (refl, refl))

evals_once_example :
    (goredis_eval library script keys [] node blank
      ≡ (blank, (status "return 1", no_err_nil library none)))
    × (rueidis_eval library script keys [] node (new_conn none, blank) ≡ (
        if (get_client (new_conn none)).1
        then (
          (check_net_op_error none (get_client (new_conn none)).0, blank),
          (status "return 1", no_err_nil library none),
        )
        else (
          ((get_client (new_conn none)).0, blank),
          (int (pos 0), (get_client (new_conn none)).0.last_err),
        )))
evals_once_example = evals_once library script keys [] node blank (new_conn none) says
