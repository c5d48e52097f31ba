-- ===== src/Api/Server.antt =====
-- Server of internal/api/server.go: the start of its services and WaitReady. Listening and serving
-- are parameters; the ready signals are listed in the order in which WaitReady receives them.
pub mod Ready
use election_agent.Prelude.{
  ℕ, ◌+◌, Bool, false, ◌&&◌, Option, none, some, List, [], ◌∷◌, leb, if◌then◌else◌, is_some,
}
use election_agent.Errors.{Error}

-- cfg.GRPC.Enable and cfg.HTTP.Enable
pub record Enabled : Type 0 where
  pub grpc : Bool
  pub http : Bool

abbrev pub one_if : Bool → ℕ
one_if b = if b then 1 else 0

-- readyChanSize of NewServer and of WaitReady
unfoldable pub ready_chan_size : Enabled → ℕ
ready_chan_size enabled = one_if enabled.grpc + one_if enabled.http

-- Start, on what startGRPC and startHTTP return
unfoldable pub start : Enabled → Option Error → Option Error → Option Error
start enabled grpc_err http_err =
    if enabled.grpc && is_some grpc_err
    then grpc_err
    else if enabled.http && is_some http_err
    then http_err
    else none

-- What the loop of WaitReady receives.
pub data Event : Type 0 where
  signal : Bool → Event
  timeout : Event

-- The loop of WaitReady, whose counter is `count`; it waits for ever where no event is left.
unfoldable pub wait_loop : ℕ → ℕ → List Event → Option Bool
wait_loop size count [] = none
wait_loop size count (timeout ∷ events) = some false
wait_loop size count (signal v ∷ events) =
    let rest = wait_loop size (count + 1) events in if leb size (count + 1) then some v else rest

unfoldable pub wait_ready : Enabled → List Event → Option Bool
unfolding ready_chan_size wait_loop
wait_ready enabled events = wait_loop (ready_chan_size enabled) 0 events

-- Shutdown, on what the shutdown of the HTTP server returns
unfoldable pub shutdown : Enabled → Option Error → Option Error
shutdown enabled http_err = if enabled.http then http_err else none
