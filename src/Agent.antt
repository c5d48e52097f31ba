-- ===== src/Agent.antt =====
-- internal/agent/agent_info.go: the agent's states and modes, its status and the state cache.
pub mod Laws
use election_agent.Prelude.{
  ℕ, ◌+◌, String, Bool, true, false, List, [], ◌∷◌, ◌==◌, ltb, eqb, if◌then◌else◌, ◌||◌,
}

abbrev pub active_state : String
active_state = "active"

abbrev pub standby_state : String
standby_state = "standby"

abbrev pub unavailable_state : String
unavailable_state = "unavailable"

abbrev pub empty_state : String
empty_state = "empty"

abbrev pub valid_states : List String
valid_states = active_state ∷ standby_state ∷ unavailable_state ∷ []

abbrev pub normal_mode : String
normal_mode = "normal"

abbrev pub orphan_mode : String
orphan_mode = "orphan"

abbrev pub unknown_mode : String
unknown_mode = "unknown"

abbrev pub valid_modes : List String
valid_modes = normal_mode ∷ orphan_mode ∷ unknown_mode ∷ []

-- slices.Contains
abbrev pub contains : List String → String → Bool
contains [] a = false
contains (x ∷ xs) a = x == a || contains xs a

pub record Status : Type 0 where
  pub state : String
  pub mode : String
  pub active_zone : String
  pub zc_connected : Bool
  pub peer_connected : Bool

-- The process-wide status before it is first set.
abbrev pub initial_local_status : Status
initial_local_status = record {
  state = unavailable_state;
  mode = unknown_mode;
  active_zone = "";
  zc_connected = false;
  peer_connected = false;
}

unfoldable pub flip_state : String → String
flip_state state =
    if state == active_state
    then standby_state
    else if state == standby_state
    then active_state
    else state

-- The state cache. Times are in nanoseconds.
pub record State : Type 0 where
  pub val : String
  pub last : ℕ
  pub ttl : ℕ

unfoldable pub new_state : String → ℕ → ℕ → State
new_state state ttl now = record { val = state; last = now; ttl = ttl }

unfoldable pub load : State → String
load s = s.val

unfoldable pub store : String → ℕ → State → State
store val now s = record s { val = val; last = now }

unfoldable pub expired : ℕ → State → Bool
expired now s = if eqb s.ttl 0 then true else ltb (s.last + s.ttl) now

-- IsActive, IsStandby and IsUnavailable
unfoldable pub is_active : State → Bool
unfolding load
is_active s = load s == active_state

unfoldable pub is_standby : State → Bool
unfolding load
is_standby s = load s == standby_state

unfoldable pub is_unavailable : State → Bool
unfolding load
is_unavailable s = load s == unavailable_state
