-- ===== src/Tests/Registers.antt =====
-- Registers and the agent's status in three servers, one of which is down.
use election_agent.Prelude.{
  ℕ, String, ◌≡◌, refl, ◌⊎◌, true, false, none, some, List, [], ◌∷◌, arith, is_some,
}
use mathlib.Core.List.Perm as Perms
use election_agent.Agent.{Status}
use election_agent.Redlock.Shards.{get_master_conns, get_conns}
use election_agent.Redlock.Store.{Turn, get_val, set_bool, mset_vals}
use election_agent.Redlock.Quorum.{act_status_op}
use election_agent.Redlock.Votes.{act_string_op}
use election_agent.Redlock.Store.Register.{
  StoreCall, read, write, read_all, Answer, AllAllowed, perform_all,
}
use election_agent.Redlock.Store.Register.Refines.{perform_all-registers}
use election_agent.Driver.AgentState.{unavailable_status, set_agent_status, get_agent_status}
use election_agent.Driver.Store.{quorum_store, store_mset, get_set_bool}
use election_agent.Driver.Store.Status.{AreDistinct, Reports, get_agent_status-Reports}
use election_agent.Driver.Store.Default.{get_set_bool-missing}
use election_agent.Tests.Fixtures.{go_multierror, config}
use election_agent.Tests.Stores.{keys}
use election_agent.Tests.Clients.{
  text_clients, text-IsFaithful, trio, trio_lock, trio-built, turn, only_identity, blank, put_pairs,
}

abbrev turns : ℕ → Turn
turns i = turn

abbrev calls : List StoreCall
calls = write "mode" "normal" ∷ read "mode" ∷ read_all ("mode" ∷ "state" ∷ []) ∷ []

perform_all-registers_example :
    (w' : ℕ → String → String) × (answers : List Answer) × (perform_all text_clients turns 0
        trio_lock calls blank
      ≡ some (w', answers))
    × AllAllowed (λ k. none) calls answers
perform_all-registers_example =
    perform_all-registers text-IsFaithful trio ((λ c. c) ∷ []) trio_lock turns only_identity
      trio-built (λ i. (λ A xs. Perms.refl xs, λ es. Perms.refl es)) (λ i. omega arith) calls blank

abbrev status : Status
status = record {
  state = "active";
  mode = "normal";
  active_zone = "east";
  zc_connected = true;
  peer_connected = true;
}

three_keys : AreDistinct keys
three_keys = (refl, refl, refl)

set_agent_status-trio :
    (set_agent_status (quorum_store text_clients turns trio_lock) keys status (some (blank, 0))).1
    ≡ none
unfolding set_agent_status store_mset mset_vals get_master_conns act_status_op
set_agent_status-trio = refl

trio-master : get_master_conns text_clients.Conn 0 trio_lock ≡ some (trio, 2)
unfolding get_master_conns
trio-master = refl

get_agent_status-Reports_example :
    let Q = quorum_store text_clients turns trio_lock in
    let (o, err) = set_agent_status Q keys status (some (blank, 0)) in
    let (o', (seen, err')) = get_agent_status Q keys config o in
    (is_some o' ≡ true) × ((seen ≡ unavailable_status) ⊎ Reports status seen)
get_agent_status-Reports_example =
    get_agent_status-Reports text-IsFaithful trio trio_lock turns keys config status 0 blank
      (λ i. (λ A xs. Perms.refl xs, λ es. Perms.refl es))
      (λ i. (trio, trio-master, Perms.refl trio)) three_keys refl refl set_agent_status-trio

get_val-blank : get_val text_clients turn trio_lock "flag" blank ≡ some (blank, ("", none))
unfolding get_val get_conns act_string_op
get_val-blank = refl

abbrev flagged : ℕ → String → String
flagged = put_pairs 3 ("flag" ∷ "1" ∷ []) (put_pairs 1 ("flag" ∷ "1" ∷ []) blank)

set_bool-blank : set_bool text_clients turn trio_lock "flag" true blank ≡ some (flagged, (2, none))
unfolding set_bool get_conns act_status_op
set_bool-blank = refl

get_set_bool-blank :
    get_set_bool text_clients turn turn trio_lock "flag" true blank ≡ some (flagged, (false, none))
get_set_bool-blank =
    get_set_bool-missing text_clients turn turn trio_lock "flag" true blank blank flagged none 2
      get_val-blank set_bool-blank
