-- ===== src/Tests/Fixtures.antt =====
-- Test data: the parameters as concrete functions, three empty servers, mutexes and calls.
use election_agent.Prelude.{
  ℕ, ◌*◌, ◌/◌, String, refl, inr, true, false, Option, none, some, List, [], ◌∷◌,
}
use election_agent.Errors.{Error, nil, cons, snoc, multi, text, Multierror}
use election_agent.Config.{Config}
use election_agent.Redis.Table.{table_server, Table}
use election_agent.Redlock.Quorum.{Reply}
use election_agent.Redlock.Script.{answered, Request}
use election_agent.Redlock.Mutex.{Float64, Mutex, Call, Conn}

abbrev pub go_append : Option Error → Error → Error
go_append none e = multi (cons e nil)
go_append (some (multi es)) e = multi (snoc es e)
go_append (some d) e = multi (cons d (cons e nil))

instance abbrev pub go_multierror : Multierror
go_multierror = record {
  append = go_append;
  append-none = λ e h. refl;
  append-multi = λ es e h. refl;
}

-- Thousandths.
abbrev pub thousandths : Float64
thousandths = record {
  Float = ℕ;
  f_0_01 = 10;
  f_0_05 = 50;
  f_0_2 = 200;
  scale = λ e f. e * f / 1000;
}

abbrev pub empty_table : Table
empty_table = λ _. none

abbrev pub request : ℕ → Request
request t = record { fate = answered; at = t; not_accept_lock = false }

abbrev pub three : ℕ → Table → List (Conn table_server)
three t s = (request t, s) ∷ (request t, s) ∷ (request t, s) ∷ []

abbrev pub mutex_of : String → Mutex thousandths
mutex_of holder = record {
  name = "agent/lease/default/shop";
  value = holder;
  expiry = 3000000000;
  tries = 1;
  drift_factor = 10;
  timeout_factor = 200;
  op_timeout = 600000000;
  random_value = false;
}

abbrev pub call_at : ℕ → ℕ → Call
call_at t u = record { start = t; now = u; generated = inr (text "unused"); arrival = λ rs. rs }

abbrev pub reply_ok : ℕ → Reply
reply_ok n = record { node = n; status_ok = true; err = none }

abbrev pub reply_taken : ℕ → Reply
reply_taken n = record { node = n; status_ok = false; err = none }

abbrev pub reply_error : ℕ → Error → Reply
reply_error n e = record { node = n; status_ok = false; err = some e }

abbrev pub config : Config
config = record {
  env = "test";
  name = "agent-1";
  key_prefix = "agent";
  default_state = "active";
  state_cache_ttl = 5000000000;
  driver = "rueidis";
  redis_mode = "single";
  redis_primary = 0;
  lease_cache = true;
  zone_enable = true;
  zone_name = "east";
  http_enable = true;
  metric_enable = true;
}
