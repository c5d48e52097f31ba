-- ===== src/Redlock/Rueidis.antt =====
-- rueidisConn of internal/driver/redlock/rueidis.go: a connection that loses its server, and the
-- goroutine that makes a new client for it. Times are in nanoseconds; commands and the creation of
-- clients are the client library's.
pub mod Recovery
use election_agent.Prelude.{
  ℕ, ◌-◌, Bool, true, false, not, ◌&&◌, Option, none, some, ltb, if◌then◌else◌, is_some,
}
use election_agent.Errors.{Error}
use election_agent.Errors.Walk.{as_any, is_net_op}

-- The fields client (whether there is one), lastErr, recreateTime and clientRoutine.
pub record RueidisConn : Type 0 where
  pub client : Bool
  pub last_err : Option Error
  pub recreate_time : ℕ
  pub client_routine : Bool

-- CreateRueidisConnections, on the error of NewClient; the zero time is 0
unfoldable pub new_conn : Option Error → RueidisConn
new_conn err = record {
  client = not (is_some err);
  last_err = err;
  recreate_time = 0;
  client_routine = false;
}

-- createClient: whether it starts the goroutine
unfoldable pub create_client : RueidisConn → RueidisConn × Bool
create_client c =
    if c.client_routine then (c, false) else (record c { client_routine = true }, true)

-- getClient
unfoldable pub get_client : RueidisConn → RueidisConn × Bool
unfolding create_client
get_client c =
    if c.client && not (is_some c.last_err) then (c, true) else ((create_client c).0, false)

-- checkNetOpError
unfoldable pub check_net_op_error : Option Error → RueidisConn → RueidisConn
unfolding as_any
check_net_op_error none c = c
check_net_op_error (some e) c = if as_any is_net_op e then record c { last_err = some e } else c

-- One tick of the goroutine, on the error of NewClient, at a time; the goroutine ends with a client.
unfoldable pub tick : Option Error → ℕ → RueidisConn → RueidisConn
tick err now c =
    if not c.client_routine
    then c
    else if is_some err
    then record c { last_err = err }
    else record { client = true; last_err = none; recreate_time = now; client_routine = false }

-- NotAcceptLock, at a time
unfoldable pub not_accept_lock : ℕ → RueidisConn → Bool
not_accept_lock now c = ltb (now - c.recreate_time) 3000000000

-- The first half of Get, Set, Eval, Ping, MGet, MSet and Scan: the client, or none.
unfoldable pub begin_call : RueidisConn → RueidisConn × Bool
unfolding get_client
begin_call c = get_client c

-- The second half: with a client, the command's result; without one, the zero value and lastErr as
-- it then is.
unfoldable pub end_call :
    {A : Type 0} → Bool → A → A × Option Error → RueidisConn → RueidisConn × (A × Option Error)
unfolding check_net_op_error
end_call false zero_value result c = (c, (zero_value, c.last_err))
end_call true zero_value (a, err) c = (check_net_op_error err c, (a, err))
