-- ===== src/Driver/Store/Default.antt =====
-- GetSetBool of internal/driver/redis_driver.go, whose interface says that it sets and returns the
-- default if the key does not exist.
use election_agent.Prelude.{ℕ, String, ◌≡◌, refl, Bool, false, Option, none, some}
use election_agent.Errors.{Error, Multierror}
use election_agent.Redlock.Shards.{RedLock}
use election_agent.Redlock.Store.{Clients, Turn, get_val, set_bool, is_bool_str_true}
use election_agent.Driver.Store.{get_set_bool}

pub get_set_bool-missing :
    (K : Clients) ⦃lib : Multierror⦄ (t u : Turn) (r : RedLock K.Conn) (key : String)
    (def_val : Bool) (w w1 w2 : K.World) (err : Option Error) (n : ℕ)
    → get_val K t r key w ≡ some (w1, ("", err))
    → set_bool K u r key def_val w1 ≡ some (w2, (n, none))
    → get_set_bool K t u r key def_val w ≡ some (w2, (false, err))
unfolding get_set_bool is_bool_str_true
get_set_bool-missing K t u r key def_val w w1 w2 err n e f = rw (get_set_bool, e, f) refl
