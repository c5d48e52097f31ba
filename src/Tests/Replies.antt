-- ===== src/Tests/Replies.antt =====
-- The collected replies of three servers, the scripts on one, the mutex's options, and the shards.
use election_agent.Prelude.{
  ◌*◌, ◌≤◌, String, ◌≡◌, ◌↔◌, true, false, none, List, [], ◌∷◌, leb, count_if,
}
use mathlib.Core.List.Perm
use election_agent.Errors.{net_op}
use election_agent.Redis.{ns_per_ms}
use election_agent.Redlock.Quorum.{Reply, quorum_of, act_status_op}
use election_agent.Redlock.Quorum.Verdict.{
  is_ok, outcome, act_status_op-none_iff, act_status_op-perm,
}
use election_agent.Redlock.Mutex.{new_mutex, with_expiry}
use election_agent.Redlock.Mutex.Results.{new_mutex_timeout}
use election_agent.Driver.Health.{is_unhealthy}
use election_agent.Driver.Health.Majority.{net_failed, act_status_op-is_unhealthy}
use election_agent.Tests.Fixtures.{go_multierror, thousandths, reply_ok, reply_taken, reply_error}

abbrev two_of_three : List Reply
two_of_three = reply_ok 0 ∷ reply_taken 1 ∷ reply_ok 2 ∷ []

abbrev cut_off_replies : List Reply
cut_off_replies =
    reply_error 0 (net_op "refused") ∷ reply_ok 1 ∷ reply_error 2 (net_op "timeout") ∷ []

abbrev key : String
key = "agent/lease/default/shop"

act_status_op-none_iff_example :
    ((act_status_op true (quorum_of 3) two_of_three).1 ≡ none)
    ↔ (quorum_of 3 ≤ count_if is_ok two_of_three)
act_status_op-none_iff_example = act_status_op-none_iff true two_of_three

act_status_op-perm_example :
    outcome (act_status_op true 2 two_of_three).1 ≡ outcome (act_status_op false 2 two_of_three).1
act_status_op-perm_example = act_status_op-perm true false 2 (Perm.refl two_of_three)

act_status_op-is_unhealthy_example :
    is_unhealthy 2 (act_status_op true 2 cut_off_replies).1
    ≡ leb 2 (count_if net_failed cut_off_replies)
act_status_op-is_unhealthy_example = act_status_op-is_unhealthy true cut_off_replies

new_mutex_timeout_example :
    let m = new_mutex thousandths key "ann" (with_expiry 3000000000 ∷ []) in
    (500 * ns_per_ms ≤ m.op_timeout) × (m.op_timeout ≤ 1500 * ns_per_ms)
new_mutex_timeout_example = new_mutex_timeout thousandths key "ann" (with_expiry 3000000000 ∷ [])
