-- ===== src/Redlock/Rueidis/Recovery.antt =====
-- How a connection loses its server and gets it back.
use election_agent.Prelude.{
  ℕ, ◌+◌, ◌≤◌, ◌<◌, ◌≡◌, refl, ap, ◌∙◌, Bool, true, false, ◌||◌, Option, none, some, List, [], ◌∷◌,
  arith, is_some,
}
use election_agent.Errors.{Error}
use election_agent.Redlock.Rueidis.{
  RueidisConn, new_conn, create_client, get_client, check_net_op_error, tick, not_accept_lock,
  begin_call, end_call,
}

-- What happens to a connection between two points of time: calls begin and end, the goroutine ticks.
pub data Event : Type 0 where
  begins : Event
  ends : Bool → Option Error → Event
  ticks : Option Error → ℕ → Event

abbrev pub after_event : Event → RueidisConn → RueidisConn
after_event begins c = (begin_call c).0
after_event (ends found err) c = (end_call found tt (tt, err) c).0
after_event (ticks err now) c = tick err now c

abbrev pub after_events : List Event → RueidisConn → RueidisConn
after_events [] c = c
after_events (e ∷ events) c = after_events events (after_event e c)

-- Without a client there is an error.
abbrev pub is_sound : RueidisConn → Bool
is_sound c = c.client || is_some c.last_err

new_conn-is_sound : (err : Option Error) → is_sound (new_conn err) ≡ true
unfolding new_conn
new_conn-is_sound err = ground arith

begin_call-is_sound : (c : RueidisConn) → is_sound (begin_call c).0 ≡ is_sound c
unfolding begin_call get_client create_client
begin_call-is_sound c = ground arith

check_net_op_error-is_sound :
    (err : Option Error) (c : RueidisConn)
    → is_sound c ≡ true
    → is_sound (check_net_op_error err c) ≡ true
unfolding check_net_op_error
check_net_op_error-is_sound none c h = h
check_net_op_error-is_sound (some e) c h = ground arith

after_event-is_sound :
    (e : Event) (c : RueidisConn) → is_sound c ≡ true → is_sound (after_event e c) ≡ true
unfolding end_call tick
after_event-is_sound begins c h = begin_call-is_sound c ∙ h
after_event-is_sound (ends true err) c h = check_net_op_error-is_sound err c h
after_event-is_sound (ends false err) c h = h
after_event-is_sound (ticks err now) c h = ground arith

after_events-is_sound :
    (events : List Event) (c : RueidisConn)
    → is_sound c ≡ true
    → is_sound (after_events events c) ≡ true
after_events-is_sound [] c h = h
after_events-is_sound (e ∷ events) c h =
    after_events-is_sound events (after_event e c) (after_event-is_sound e c h)

lost-starts :
    (c : RueidisConn)
    → (begin_call c).1 ≡ false
    → ((begin_call c).0.client_routine ≡ true)
      × ((begin_call c).0.client ≡ c.client)
      × ((begin_call c).0.last_err ≡ c.last_err)
unfolding begin_call get_client create_client
lost-starts c h = ground arith

lost-error :
    (c : RueidisConn)
    → is_sound c ≡ true
    → (begin_call c).1 ≡ false
    → is_some (begin_call c).0.last_err ≡ true
unfolding begin_call get_client create_client
lost-error c s h = ground arith

tick-success :
    (now : ℕ) (c : RueidisConn) → c.client_routine ≡ true → (tick none now c).last_err ≡ none
unfolding tick
tick-success now c h = ground arith

-- A call that finds no client, on a connection with any history of calls and ticks, returns an
-- error if nothing happens before it reads the last error; if the goroutine makes a client in
-- between, it returns the zero value without an error.
pub lost_call :
    {A : Type 0} (err : Option Error) (events : List Event) (zero_value : A)
    (result : A × Option Error) (now : ℕ)
    → let c = after_events events (new_conn err) in
      (begin_call c).1 ≡ false
      → let c' = (begin_call c).0 in
        (is_some (end_call false zero_value result c').1.1 ≡ true)
        × ((end_call false zero_value result (tick none now c')).1 ≡ (zero_value, none))
unfolding end_call
lost_call err events zero_value result now h =
    let c = after_events events (new_conn err) in
    (
      lost-error c (after_events-is_sound events (new_conn err) (new_conn-is_sound err)) h,
      ap (λ e. (zero_value, e)) (tick-success now (begin_call c).0 (lost-starts c h).0),
    )

-- Ticks are not before a time.
abbrev pub NotBefore : ℕ → List Event → Type 0
NotBefore t [] = Unit
NotBefore t (ticks err now ∷ events) = (t ≤ now) × NotBefore t events
NotBefore t (_ ∷ events) = NotBefore t events

recreate_time-begin_call : (c : RueidisConn) → (begin_call c).0.recreate_time ≡ c.recreate_time
unfolding begin_call get_client create_client
recreate_time-begin_call c = ground arith

recreate_time-check_net_op_error :
    (err : Option Error) (c : RueidisConn)
    → (check_net_op_error err c).recreate_time ≡ c.recreate_time
unfolding check_net_op_error
recreate_time-check_net_op_error none c = refl
recreate_time-check_net_op_error (some e) c = ground arith

recreate_time-tick :
    (t : ℕ) (err : Option Error) (now : ℕ) (c : RueidisConn)
    → t ≤ now
    → t ≤ c.recreate_time
    → t ≤ (tick err now c).recreate_time
unfolding tick
recreate_time-tick t err now c h k = ground arith

recreate_time-after_events :
    (t : ℕ) (events : List Event) (c : RueidisConn)
    → NotBefore t events
    → t ≤ c.recreate_time
    → t ≤ (after_events events c).recreate_time
unfolding end_call
recreate_time-after_events t [] c h k = k
recreate_time-after_events t (begins ∷ events) c h k =
    recreate_time-after_events t events (begin_call c).0 h
      (omega (arith, recreate_time-begin_call c, k))
recreate_time-after_events t (ends true err ∷ events) c h k =
    recreate_time-after_events t events (check_net_op_error err c) h
      (omega (arith, recreate_time-check_net_op_error err c, k))
recreate_time-after_events t (ends false err ∷ events) c h k =
    recreate_time-after_events t events c h k
recreate_time-after_events t (ticks err now ∷ events) c (le, h) k =
    recreate_time-after_events t events (tick err now c) h (recreate_time-tick t err now c le k)

-- After the goroutine has made a new client, NotAcceptLock refuses locks for three seconds,
-- whatever calls and later ticks come in between.
pub not_accept_lock-after :
    (c : RueidisConn) (t now : ℕ) (events : List Event)
    → c.client_routine ≡ true
    → NotBefore t events
    → now < t + 3000000000
    → not_accept_lock now (after_events events (tick none t c)) ≡ true
unfolding not_accept_lock tick
not_accept_lock-after c t now events on later lt =
    ground (arith, recreate_time-after_events t events (tick none t c) later (ground arith))
