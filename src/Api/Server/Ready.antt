-- ===== src/Api/Server/Ready.antt =====
-- What WaitReady of internal/api/server.go answers.
use election_agent.Prelude.{
  ℕ, zero, suc, ◌+◌, ◌-◌, ◌≡◌, sym, ◌↔◌, Bool, true, false, not, ◌||◌, some, List, [], ◌∷◌, arith,
  leb, if◌then◌else◌,
}
use mathlib.Core.Path.{subst}
use election_agent.Api.Server.{
  Enabled, ready_chan_size, Event, signal, timeout, wait_loop, wait_ready,
}

-- The first `n` signals arrive before the time limit, and the last of them says `v`.
abbrev pub arrives : ℕ → Bool → List Event → Bool
arrives zero v events = false
arrives (suc n) v [] = false
arrives (suc n) v (timeout ∷ events) = false
arrives (suc zero) v (signal u ∷ events) = if v then u else not u
arrives (suc (suc n)) v (signal u ∷ events) = arrives (suc n) v events

wait_loop-arrives :
    (n size count : ℕ) (events : List Event)
    → size ≡ count + suc n
    → (wait_loop size count events ≡ some true) ↔ (arrives (suc n) true events ≡ true)
unfolding wait_loop
wait_loop-arrives n size count [] e = (λ h. absurd (ground arith), λ h. absurd (ground arith))
wait_loop-arrives n size count (timeout ∷ events) e =
    (λ h. absurd (ground arith), λ h. absurd (ground arith))
wait_loop-arrives zero size count (signal u ∷ events) e = (λ h. ground arith, λ h. ground arith)
wait_loop-arrives (suc n) size count (signal u ∷ events) e =
    let iff = wait_loop-arrives n size (count + 1) events (omega arith) in
    let more : leb size (count + 1) ≡ false = ground arith in rw (wait_loop, more) iff

size-positive :
    (enabled : Enabled)
    → (enabled.grpc || enabled.http) ≡ true
    → (n : ℕ) × (ready_chan_size enabled ≡ suc n)
unfolding ready_chan_size
size-positive enabled on = (ready_chan_size enabled - 1, ground arith)

-- With a service enabled, WaitReady answers yes exactly when as many signals as there are services
-- arrive before the time limit and the last of them says yes, whatever the others say.
pub wait_ready_iff :
    (enabled : Enabled) (events : List Event)
    → (enabled.grpc || enabled.http) ≡ true
    → (wait_ready enabled events ≡ some true)
      ↔ (arrives (ready_chan_size enabled) true events ≡ true)
unfolding wait_ready
wait_ready_iff enabled events on =
    let (n, e) = size-positive enabled on in
    subst (λ m. (wait_ready enabled events ≡ some true) ↔ (arrives m true events ≡ true)) (sym e)
      (wait_loop-arrives n (ready_chan_size enabled) 0 events (omega (arith, e)))
