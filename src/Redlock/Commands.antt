-- ===== src/Redlock/Commands.antt =====
-- The commands of goredisConn and rueidisConn, internal/driver/redlock/goredis.go and rueidis.go
-- beside it, which implement the interface Conn of conn.go. What the client libraries send and how
-- they decode is a parameter. A command of rueidisConn is here one run without a tick in between.
pub mod Faithful
use election_agent.Prelude.{
  ℕ, String, Bool, false, Option, none, some, List, [], ◌∷◌, map, ◌==◌, if◌then◌else◌,
}
use election_agent.Errors.{Error}
use election_agent.Redlock.Script.{Value, int}
use election_agent.Prelude.Int.{pos}
use election_agent.Redlock.Rueidis.{RueidisConn, get_client, begin_call, end_call}
use election_agent.Redlock.Store.{Clients}

-- A client library. An element of an MGET answer is none if it is not a text; `is_nil` tells the
-- error for a missing key, and `is_no_script` an error whose text has "NOSCRIPT " in it.
pub record Library : Type 1 where
  pub Client : Type 0
  pub World : Type 0
  pub get : String → Client → World → World × (String × Option Error)
  pub set : String → String → Client → World → World × (String × Option Error)
  pub eval_sha :
      String → List String → List String → Client → World → World × (Value × Option Error)
  pub eval : String → List String → List String → Client → World → World × (Value × Option Error)
  pub close : Client → World → World × Option Error
  pub ping : Client → World → World × (String × Option Error)
  pub mget : List String → Client → World → World × (List (Option String) × Option Error)
  pub mset : List String → Client → World → World × (String × Option Error)
  pub scan : ℕ → String → ℕ → Client → World → World × ((List String × ℕ) × Option Error)
  pub is_nil : Error → Bool
  pub is_no_script : Error → Bool

-- Script: its hash and its source
pub record Script : Type 0 where
  pub hash : String
  pub src : String

-- v.(string), or ToString, of an element
abbrev pub element : Option String → String
element none = ""
element (some v) = v

-- A reply that has to be a word.
abbrev pub replied : {W : Type 0} → String → W × (String × Option Error) → W × (Bool × Option Error)
replied word (w, (reply, err)) = (w, (reply == word, err))

-- The pairs of MSet, by two; an index out of range is a panic.
unfoldable pub pair_up : List String → Option (List String)
pair_up [] = some []
pair_up (k ∷ []) = none
pair_up (k ∷ v ∷ pairs) =
    let rest = pair_up pairs in elim rest [ none ↦ none | some kvs ↦ some (k ∷ v ∷ kvs) ]

module _ (L : Library) where
  open L use {Client, World, is_nil, is_no_script}

  -- noGoredisErrNil and noRueidisErrNil
  unfoldable pub no_err_nil : Option Error → Option Error
  no_err_nil none = none
  no_err_nil (some e) = if is_nil e then none else some e

  abbrev pub without_nil : {A : Type 0} → World × (A × Option Error) → World × (A × Option Error)
  without_nil (w, (a, err)) = (w, (a, no_err_nil err))

  abbrev pub no_script : Option Error → Bool
  no_script none = false
  no_script (some e) = is_no_script e

  -- EVALSHA, and EVAL if the server does not know the script
  unfoldable pub eval_script :
      Script → List String → List String → Client → World → World × (Value × Option Error)
  eval_script script keys args c w =
      let (w1, (v, err)) = L.eval_sha script.hash keys args c w in
      if no_script err then L.eval script.src keys args c w1 else (w1, (v, err))

  abbrev pub elements :
      World × (List (Option String) × Option Error) → World × (List String × Option Error)
  elements (w, (vals, err)) = (w, (map element vals, err))

  -- goredisConn
  unfoldable pub goredis_get : String → Client → World → World × (String × Option Error)
  goredis_get name c w = without_nil (L.get name c w)

  unfoldable pub goredis_set : String → String → Client → World → World × (Bool × Option Error)
  goredis_set name value c w = replied "OK" (L.set name value c w)

  unfoldable pub goredis_eval :
      Script → List String → List String → Client → World → World × (Value × Option Error)
  goredis_eval script keys args c w = without_nil (eval_script script keys args c w)

  unfoldable pub goredis_ping : Client → World → World × (Bool × Option Error)
  goredis_ping c w = replied "PONG" (L.ping c w)

  -- The error passes noGoredisErrNil twice.
  unfoldable pub goredis_mget : List String → Client → World → World × (List String × Option Error)
  goredis_mget keys c w = without_nil (elements (without_nil (L.mget keys c w)))

  unfoldable pub goredis_mset : List String → Client → World → World × (Bool × Option Error)
  goredis_mset pairs c w = replied "OK" (L.mset pairs c w)

  unfoldable pub goredis_scan :
      ℕ → String → ℕ → Client → World → World × ((List String × ℕ) × Option Error)
  goredis_scan cursor match count c w = L.scan cursor match count c w

  unfoldable pub goredis_not_accept_lock : Client → Bool
  goredis_not_accept_lock c = false

  -- goredisConn as a Conn
  abbrev pub goredis_clients : Clients
  goredis_clients = record {
    Conn = Client;
    World = World;
    ping = goredis_ping;
    get = goredis_get;
    set = goredis_set;
    mget = goredis_mget;
    mset = goredis_mset;
  }

  -- rueidisConn, with the client of its library.
  abbrev pub Linked : Type 0
  Linked = RueidisConn × World

  -- The shape of the commands: getClient; the zero value and lastErr, or the command, whose error
  -- passes checkNetOpError and then `keep`.
  unfoldable pub on_client :
      {A : Type 0}
      → A
      → (Option Error → Option Error)
      → (World → World × (A × Option Error))
      → Linked
      → Linked × (A × Option Error)
  on_client zero_value keep command (c, w) =
      let (c', found) = begin_call c in
      let (w', result) = command w in
      let (c'', (a, err)) = end_call found zero_value result c' in
      if found then ((c'', w'), (a, keep err)) else ((c'', w), (a, err))

  abbrev pub same_error : Option Error → Option Error
  same_error err = err

  unfoldable pub rueidis_get : String → Client → Linked → Linked × (String × Option Error)
  rueidis_get name c = on_client "" no_err_nil (L.get name c)

  unfoldable pub rueidis_set : String → String → Client → Linked → Linked × (Bool × Option Error)
  rueidis_set name value c = on_client false same_error (λ w. replied "OK" (L.set name value c w))

  unfoldable pub rueidis_eval :
      Script → List String → List String → Client → Linked → Linked × (Value × Option Error)
  rueidis_eval script keys args c =
      on_client (int (pos 0)) no_err_nil (eval_script script keys args c)

  unfoldable pub rueidis_close : Client → Linked → Linked × Option Error
  rueidis_close c (conn, w) =
      let (conn', found) = get_client conn in
      let (w', err) = L.close c w in if found then ((conn', w'), err) else ((conn', w), none)

  unfoldable pub rueidis_ping : Client → Linked → Linked × (Bool × Option Error)
  rueidis_ping c = on_client false same_error (λ w. replied "PONG" (L.ping c w))

  unfoldable pub rueidis_mget :
      List String → Client → Linked → Linked × (List String × Option Error)
  rueidis_mget keys c = on_client [] no_err_nil (λ w. elements (L.mget keys c w))

  -- Without a client the pairs are not looked at.
  unfoldable pub rueidis_mset :
      List String → Client → Linked → Option (Linked × (Bool × Option Error))
  rueidis_mset pairs c (conn, w) = elim (pair_up pairs) [
    | some kvs ↦ some (on_client false same_error (λ w. replied "OK" (L.mset kvs c w)) (conn, w))
    | none ↦
        if (get_client conn).1
        then none
        else some (on_client false same_error (λ w. (w, (false, none))) (conn, w))
  ]

  unfoldable pub rueidis_scan :
      ℕ → String → ℕ → Client → Linked → Linked × ((List String × ℕ) × Option Error)
  rueidis_scan cursor match count c = on_client ([], 0) same_error (L.scan cursor match count c)
