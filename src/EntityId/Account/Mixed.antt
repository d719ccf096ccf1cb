-- ===== src/EntityId/Account/Mixed.antt =====
-- Where `compare` of account ids is an order, and where it is not.
use u2u_sdk_js.Common.{ℕ, ◌≡◌, true, none, some, List, arith}
use u2u_sdk_js.EntityId.Id.{EntityId, greater, compare}
use u2u_sdk_js.EntityId.Id.Order.{compare_long_same}
use u2u_sdk_js.EntityId.Account.{Account, compare_evm, compare_alias, compare_account, is_null}

abbrev pub id_of_account : Account → EntityId
id_of_account a = record { shard = a.shard; realm = a.realm; num = a.num }

abbrev pub IsPlain : Account → Type 0
IsPlain a = (a.alias_key ≡ none) × (a.evm_address ≡ none)

-- On ids with neither an alias key nor an EVM address the order is that of entity ids.
pub compare_account_plain :
    (a b : Account)
    → IsPlain a
    → IsPlain b
    → compare_account a b ≡ compare (id_of_account a) (id_of_account b)
unfolding compare_account compare_alias compare_evm compare
compare_account_plain a b ha hb = ground arith

-- Of two ids of one shard and realm, one with an alias key and the other without one, and not both
-- with an EVM address, each compares as greater than the other.
pub compare_account_mixed :
    (a b : Account) {key : List ℕ}
    → a.shard ≡ b.shard
    → a.realm ≡ b.realm
    → a.alias_key ≡ some key
    → b.alias_key ≡ none
    → is_null a.evm_address ≡ true
    → (compare_account a b ≡ greater) × (compare_account b a ≡ greater)
unfolding compare_account compare_alias compare_evm
compare_account_mixed a b {key} s r k n e = (
  ground (arith, compare_long_same a.shard b.shard, compare_long_same a.realm b.realm),
  ground (arith, compare_long_same b.shard a.shard, compare_long_same b.realm a.realm),
)
