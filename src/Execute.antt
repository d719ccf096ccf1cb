-- ===== src/Execute.antt =====
-- Executing a request: the class of src/Executable.js over the network of src/client. A round takes
-- what the clock, `Math.random` and the node that is asked give from an environment, which is a
-- function of the number of the attempt; the hooks `_shouldRetry` and `_mapResponse` of a request are
-- part of the reply. Logging is left out, and so is the request that is built and sent.
pub mod Backoff
pub mod Rounds
pub mod Attempts
mod Tests
use Prim.Native.Nat.{min}
use Prim.Native.String.{String}
use u2u_sdk_js.Common.{
  ℕ, zero, suc, ◌+◌, ◌*◌, ◌/◌, ◌^◌, Bool, true, false, Option, none, some, List, [], ◌∷◌, ◌++◌, leb,
  ltb, ◌&&◌, ◌||◌, ◌==◌, if◌then◌else◌,
}
use u2u_sdk_js.LockList
use u2u_sdk_js.LockList.{LockList, Locked, done, list_is_locked}
use u2u_sdk_js.Enums.GrpcStatus.{timeout, unavailable, resource_exhausted, internal}
use u2u_sdk_js.Enums.GrpcStatus.Code.{code}
use u2u_sdk_js.Network.Node.{ms, get_channel, is_healthy}
use u2u_sdk_js.Network.State.{Network, update}
use u2u_sdk_js.Network.Readmit.{network_increase_backoff, network_decrease_backoff}
use u2u_sdk_js.Network.Choose.{Chosen, chosen, undefined, thrown, get_node}

-- The fields of a request, where null is `none`.
pub record Request : Type 0 where
  pub max_attempts : ℕ
  pub node_account_ids : LockList String
  pub min_backoff : Option ℕ
  pub max_backoff : Option ℕ
  pub request_timeout : Option ℕ

abbrev pub new_request : Request
new_request = record {
  max_attempts = 10;
  node_account_ids = LockList.new;
  min_backoff = none;
  max_backoff = some (8000 * ms);
  request_timeout = none;
}

-- The fields of the client that `execute` reads.
pub record Client : Type 0 where
  pub client_max_attempts : Option ℕ
  pub client_min_backoff : ℕ
  pub client_max_backoff : ℕ
  pub client_request_timeout : Option ℕ

pub data SetterError : Type 0 where
  backoff_is_null min_above_max max_below_min : SetterError

pub data SetResult : Type 0 where
  set_ok : Request → SetResult
  set_error : SetterError → SetResult

-- `b != null && test(b)`.
abbrev pub when_set : Option ℕ → (ℕ → Bool) → Bool
when_set none test = false
when_set (some b) test = test b

unfoldable pub set_min_backoff : Option ℕ → Request → SetResult
set_min_backoff none r = set_error backoff_is_null
set_min_backoff (some b) r =
    if when_set r.max_backoff (λ m. ltb m b)
    then set_error min_above_max
    else set_ok (record r { min_backoff = some b })

unfoldable pub set_max_backoff : Option ℕ → Request → SetResult
set_max_backoff none r = set_error backoff_is_null
set_max_backoff (some b) r =
    if when_set r.min_backoff (λ m. ltb b m)
    then set_error max_below_min
    else set_ok (record r { max_backoff = some b })

unfoldable pub set_node_account_ids : List (Option String) → Request → Option Request
set_node_account_ids ids r = elim (LockList.set_list ids r.node_account_ids) [
  | list_is_locked ↦ none
  | done l ↦ some (record r { node_account_ids = LockList.set_locked l })
]

-- What the call of a node comes to: an error of the transport, or a response with the error and the
-- state that `_shouldRetry` returns for it. The Boolean says that the message has the RST_STREAM text.
pub data ExecutionState : Type 0 where
  finished retry error : ExecutionState

pub data Reply : Type 0 where
  grpc_error : ℕ → Bool → Reply
  http_error other_error : Reply
  response : Option String → ExecutionState → Reply

-- `_shouldRetryExceptionally`, for an error that is a GrpcServiceError or an HttpError; any other
-- error is never retried.
unfoldable pub should_retry_exceptionally : Reply → Bool
unfolding code
should_retry_exceptionally (grpc_error c rst) =
    c == code timeout
    || c == code unavailable
    || c == code resource_exhausted
    || c == code internal && rst
should_retry_exceptionally http_error = true
should_retry_exceptionally _ = false

-- What an attempt meets: the times of the successive calls of `Date.now`, the random number, and the
-- reply of the node.
pub record Attempt : Type 0 where
  pub start : ℕ
  pub choosing : ℕ
  pub checking : ℕ
  pub failing : ℕ
  pub random : ℕ
  pub reply : Reply

pub data Outcome : Type 0 where
  returned : ℕ → Outcome
  status_error : ℕ → Outcome
  transport_error : Reply → Outcome
  timeout_exceeded not_recognized no_healthy_node max_attempts_reached : Outcome

-- The variables of the loop; `sent` lists the nodes that requests were sent to, with the times of the
-- health checks before, and `delays` the waits between attempts, the latest first.
pub record Run : Type 0 where
  pub network : Network
  pub node_ids : LockList String
  pub persistent_error : Bool
  pub sent : List (ℕ × ℕ)
  pub delays : List ℕ

-- The limits that `execute` has fixed before the loop.
pub record Limits : Type 0 where
  pub started : ℕ
  pub timeout_after : Option ℕ
  pub low : ℕ
  pub high : ℕ

-- `delayForAttempt`. All backoffs and delays are in ticks; `Math.floor` rounds to whole milliseconds, and
-- only what it is given, not the maximum.
unfoldable pub delay_for_attempt : ℕ → ℕ → ℕ → ℕ
delay_for_attempt attempt low high = min (low * 2 ^ attempt / ms * ms) high

-- The end of a round: an outcome, or the next attempt.
pub data Round : Type 0 where
  stop : Outcome → Run → Round
  again : Run → Round

-- After a response: `decreaseBackoff` and the switch over the execution state.
unfoldable pub on_response : Limits → ℕ → ℕ → Option String → ExecutionState → Run → Round
on_response limits attempt n err state r =
    let t : Run = record r {
      network = network_decrease_backoff n r.network;
      persistent_error = elim err [ none ↦ r.persistent_error | some _ ↦ true ];
    } in
    elim state [
      | retry ↦
          again (record t { delays = delay_for_attempt attempt limits.low limits.high ∷ t.delays })
      | finished ↦ stop (returned n) t
      | error ↦ stop (status_error n) t
    ]

-- After an error of the transport: it is retried, with a longer backoff of the node, or thrown.
unfoldable pub on_failure : Attempt → ℕ → Reply → Run → Round
on_failure a n failure r =
    let t : Run = record r { persistent_error = true } in
    if should_retry_exceptionally failure
    then again (record t { network = network_increase_backoff a.failing n t.network })
    else stop (transport_error failure) t

-- The request is sent, and is answered or fails.
unfoldable pub on_reply : Limits → ℕ → Attempt → ℕ → Reply → Run → Round
on_reply limits attempt a n (response err state) r = on_response limits attempt n err state r
on_reply limits attempt a n failure r = on_failure a n failure r

-- The part of a round that follows the choice of the node `n`.
unfoldable pub on_node : Limits → ℕ → Attempt → ℕ → Run → Round
on_node limits attempt a n r =
    let t : Run = record r {
      network = record r.network { store = update r.network.store n get_channel };
      node_ids = (LockList.advance r.node_ids).1;
    } in
    if is_healthy a.checking (t.network.store n)
    then on_reply limits attempt a n a.reply (record t { sent = (n, a.checking) ∷ t.sent })
    else again t

-- `setList([nodeAccountId])` on a list that is not locked.
unfoldable pub list_of : Network → ℕ → LockList String → LockList String
list_of network n l = elim (LockList.set_list (some (network.store n).key ∷ []) l) [
  | list_is_locked ↦ l
  | done m ↦ m
]

-- The choice of the node: from the locked list of ids, or from the whole network.
unfoldable pub key_of : Run → Option String
key_of r = if r.node_ids.locked then LockList.current r.node_ids else none

unfoldable pub timed_out : Limits → ℕ → Bool
timed_out limits now = when_set limits.timeout_after (λ t. leb (limits.started + t) now)

-- What follows the call of `getNode`, by its result.
unfoldable pub on_choice : Limits → ℕ → Attempt → Run → Network → Chosen → Round
on_choice limits attempt a r network thrown = stop no_healthy_node (record r { network = network })
on_choice limits attempt a r network undefined =
    stop not_recognized (record r { network = network })
on_choice limits attempt a r network (chosen n) = on_node limits attempt a n (record r {
  network = network;
  node_ids = if r.node_ids.locked then r.node_ids else list_of network n r.node_ids;
})

unfoldable pub round : Limits → ℕ → Attempt → Run → Round
round limits attempt a r =
    let (c, network) = get_node a.choosing a.random (key_of r) r.network in
    if timed_out limits a.start
    then stop timeout_exceeded r
    else on_choice limits attempt a r network c

-- The loop ends after a round that stops, and goes on with `rest` after another.
unfoldable pub follow : Round → (Run → Outcome × Run) → Outcome × Run
follow (stop o t) rest = (o, t)
follow (again t) rest = rest t

-- The retry loop, with the number of attempts that are left and the number of the next one.
unfoldable pub attempts : Limits → (ℕ → Attempt) → ℕ → ℕ → Run → Outcome × Run
attempts limits env zero attempt r = (max_attempts_reached, r)
attempts limits env (suc left) attempt r =
    follow (round limits attempt (env attempt) r) (attempts limits env left (suc attempt))

abbrev pub or_else : Option ℕ → ℕ → ℕ
or_else none d = d
or_else (some n) d = n

-- `maxAttempts`: the client's number if it has one.
unfoldable pub attempts_allowed : Client → Request → ℕ
attempts_allowed client r = or_else client.client_max_attempts r.max_attempts

-- `execute`, with its second argument, from the loop's preparation on. The hook `_beforeExecute`, which
-- subclasses fill, has run before; that the resolved limits are also stored in the request is left out.
unfoldable pub execute : (ℕ → Attempt) → ℕ → Option ℕ → Client → Request → Network → Outcome × Run
execute env now request_timeout client r network =
    let timeout : Option ℕ = elim r.request_timeout [
      | some t ↦ some t
      | none ↦ elim request_timeout [ some t ↦ some t | none ↦ client.client_request_timeout ]
    ] in
    attempts
      (record {
        started = now;
        timeout_after = timeout;
        low = or_else r.min_backoff client.client_min_backoff;
        high = or_else r.max_backoff client.client_max_backoff;
      })
      env (attempts_allowed client r) 1
      (record {
        network = network;
        node_ids = r.node_account_ids;
        persistent_error = false;
        sent = [];
        delays = [];
      })
