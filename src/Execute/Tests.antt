-- ===== src/Execute/Tests.antt =====
-- The theorems on requests at a network of one node that answers the third request.
use u2u_sdk_js.Common.{ℕ, ◌*◌, ◌≡◌, ◌≤◌, false, none, some, [], ◌∷◌, length, leb, if◌then◌else◌}
use u2u_sdk_js.Common.Int.{pos, negsuc}
use u2u_sdk_js.LockList
use u2u_sdk_js.Network.Node.{new_node, ms}
use u2u_sdk_js.Network.State.{Network}
use u2u_sdk_js.Network.Readmit.Balance.{balance}
use u2u_sdk_js.Execute.{
  new_request, Limits, Attempt, Run, Reply, grpc_error, response, finished, round, Client,
  attempts_allowed, execute,
}
use u2u_sdk_js.Execute.Rounds.{final, Sends, round-Sends}
use u2u_sdk_js.Execute.Attempts.{AllBelow, execute_bounds}

abbrev one : Network
one = record {
  store = λ k. new_node 0 "a:50211" "0.0.3";
  next_id = 1;
  nodes = 0 ∷ [];
  healthy = 0 ∷ [];
  network = ("0.0.3", 0 ∷ []) ∷ [];
  unhealthy_count = pos 0;
  ledger_id = none;
  min_backoff = 8;
  max_backoff = 100;
  max_node_attempts = negsuc 0;
  min_readmit_period = 10;
  max_readmit_period = 60;
  earliest_readmit_time = 10;
}

abbrev limits : Limits
limits = record { started = 0; timeout_after = none; low = 250; high = 8000 }

-- The node is unavailable twice and then answers.
abbrev reply_of : ℕ → Reply
reply_of k = if leb k 2 then grpc_error 14 false else response none finished

abbrev env : ℕ → Attempt
env k = record {
  start = k * 1000;
  choosing = k * 1000;
  checking = k * 1000;
  failing = k * 1000;
  random = 3;
  reply = reply_of k;
}

abbrev first_run : Run
first_run = record {
  network = one;
  node_ids = LockList.new;
  persistent_error = false;
  sent = [];
  delays = [];
}

round-Sends_example : Sends one.store (env 1) first_run (final (round limits 1 (env 1) first_run))
round-Sends_example = round-Sends limits 1 (env 1) first_run

-- The client allows five attempts; two of them fail, and the third is answered.
abbrev client : Client
client = record {
  client_max_attempts = some 5;
  client_min_backoff = 250;
  client_max_backoff = 8000;
  client_request_timeout = none;
}

execute_bounds_example :
    (length (execute env 0 none client new_request one).1.sent ≤ 5)
    × AllBelow (8000 * ms) (execute env 0 none client new_request one).1.delays
    × (balance (execute env 0 none client new_request one).1.network ≡ balance one)
unfolding attempts_allowed
execute_bounds_example = execute_bounds env 0 none client new_request one
