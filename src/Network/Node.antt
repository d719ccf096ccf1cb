-- ===== src/Network/Node.antt =====
-- One node with its backoff, the class of src/ManagedNode.js with the key of src/Node.js.
--
-- A time is a number of ticks of 2^-52 milliseconds, so that halving a backoff, which is exact in
-- doubles, is exact here: from a whole number of milliseconds below 2^52 down to one millisecond there
-- are at most 52 halvings. The address is the text of a ManagedNodeAddress, a host and a port with a
-- colon between them; for another text its constructor throws, which is not modelled. `now` stands for `Date.now()`. Channels are only open or closed.
pub mod Backoff
pub mod Clone
use Prim.Native.Nat.{min, max}
use Prim.Native.Char.{code}
use Prim.Native.String.{String}
use u2u_sdk_js.Common.{
  ℕ, suc, ◌+◌, ◌-◌, ◌*◌, ◌/◌, ◌^◌, Bool, true, false, Option, none, some, leb, ◌==◌, if◌then◌else◌,
}
use u2u_sdk_js.Common.Int.{ℤ, pos, sub_ℕ, ◌-ℤ◌}

pub record Node : Type 0 where
  pub address : String
  pub key : String
  pub open_channel : Bool
  pub current_backoff : ℕ
  pub last_used : ℕ
  pub readmit_time : ℕ
  pub use_count : ℕ
  pub bad_grpc_status_count : ℕ
  pub min_backoff : ℕ
  pub max_backoff : ℕ

-- The text before the last colon of an address, if it has one.
unfoldable pub before_colon : String → Option String
before_colon String.[] = none
before_colon (String.◌∷◌ c s) = elim (before_colon s) [
  | some h ↦ some (String.◌∷◌ c h)
  | none ↦ if code c == b':' then some String.[] else none
]

-- `_address` of a ManagedNodeAddress: the first group of `HOST_AND_PORT`, which is greedy.
unfoldable pub host : String → String
unfolding before_colon
host address = elim (before_colon address) [ none ↦ address | some h ↦ h ]

-- One millisecond in ticks.
abbrev pub ms : ℕ
ms = 2 ^ 52

-- The constructor with `newNode`.
unfoldable pub new_node : ℕ → String → String → Node
new_node now address key = record {
  address = address;
  key = key;
  open_channel = false;
  current_backoff = 8000 * ms;
  last_used = now;
  readmit_time = now;
  use_count = 0;
  bad_grpc_status_count = 0;
  min_backoff = 8000 * ms;
  max_backoff = 1000 * 60 * 60 * ms;
}

-- The constructor with `cloneNode`. It copies the fields, and takes the new maximal backoff from the
-- minimal backoff of the node.
unfoldable pub clone_node : String → Node → Node
clone_node address node = record node { address = address; max_backoff = node.min_backoff }

unfoldable pub set_min_backoff : ℕ → Node → Node
set_min_backoff b node = record node {
  current_backoff = if leb node.current_backoff b then b else node.current_backoff;
  min_backoff = b;
}

unfoldable pub set_max_backoff : ℕ → Node → Node
set_max_backoff b node = record node {
  current_backoff = if leb node.current_backoff b then b else node.current_backoff;
  max_backoff = b;
}

-- `getChannel` writes the time to a field `__lastUsed`, which nothing reads, and leaves `_lastUsed`.
unfoldable pub get_channel : Node → Node
get_channel node = record node { use_count = node.use_count + 1; open_channel = true }

unfoldable pub is_healthy : ℕ → Node → Bool
is_healthy now node = leb node.readmit_time now

unfoldable pub increase_backoff : ℕ → Node → Node
increase_backoff now node =
    let backoff = min (node.current_backoff * 2) node.max_backoff in
    record node { current_backoff = backoff; readmit_time = now + backoff }

unfoldable pub decrease_backoff : Node → Node
decrease_backoff node = record node {
  current_backoff = max (node.current_backoff / 2) node.min_backoff;
}

unfoldable pub get_remaining_time : Node → ℤ
get_remaining_time node = sub_ℕ node.readmit_time node.last_used

abbrev pub is_zero : ℤ → Bool
is_zero (pos n) = n == 0
is_zero _ = false

-- The first difference that is not 0, or the last one.
abbrev pub first_difference : ℤ → ℤ → ℤ
first_difference d rest = if is_zero d then rest else d

-- `compare`, where a negative number says that `a` is before `b`.
unfoldable pub compare_node : Node → Node → ℤ
compare_node a b = first_difference (get_remaining_time a -ℤ get_remaining_time b) (
    first_difference (sub_ℕ a.current_backoff b.current_backoff) (
      first_difference (sub_ℕ a.bad_grpc_status_count b.bad_grpc_status_count)
        (first_difference (sub_ℕ a.use_count b.use_count) (sub_ℕ a.last_used b.last_used))))

unfoldable pub close : Node → Node
close node = record node { open_channel = false }
