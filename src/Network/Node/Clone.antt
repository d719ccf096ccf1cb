-- ===== src/Network/Node/Clone.antt =====
-- What a clone of a node, and the setter of the maximal backoff, do to the bounds of the backoff.
use Prim.Native.Nat.{max}
use Prim.Native.String.{String}
use u2u_sdk_js.Common.{ℕ, suc, ◌≤◌, ◌≡◌, arith, ℕ}
use u2u_sdk_js.Network.Node.{Node, clone_node, increase_backoff, set_max_backoff}
use u2u_sdk_js.Network.Node.Backoff.{increases, increases_backoff}

-- However often a clone fails, from its first failure on its backoff is at most the minimal backoff
-- of the node that was cloned, whatever the maximal backoff of that node is.
pub clone_node_backoff :
    (k now : ℕ) (address : String) (node : Node)
    → (increases (suc k) now (clone_node address node)).current_backoff ≤ node.min_backoff
unfolding clone_node increase_backoff
clone_node_backoff k now address node =
    omega (arith, increases_backoff k now (increase_backoff now (clone_node address node)))

-- `setMaxBackoff` raises the backoff to the new maximum where it is below it, and leaves it above a
-- new maximum that is less.
pub set_max_backoff_lem :
    (b : ℕ) (node : Node) → (set_max_backoff b node).current_backoff ≡ max node.current_backoff b
unfolding set_max_backoff
set_max_backoff_lem b node = ground arith
