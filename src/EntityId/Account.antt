-- ===== src/EntityId/Account.antt =====
-- The order of account ids, `compare` of src/account/AccountId.js. The texts that an alias key and an
-- EVM address are printed as are lists of character codes.
pub mod Mixed
use u2u_sdk_js.Common.{
  ℕ, Bool, true, false, Option, none, some, List, [], ◌∷◌, ltb, ◌&&◌, if◌then◌else◌,
}
use u2u_sdk_js.Common.Int.{ℤ}
use u2u_sdk_js.EntityId.Id.{Comparison, less, same, greater, is_same, compare_long}

pub record Account : Type 0 where
  pub shard : ℤ
  pub realm : ℤ
  pub num : ℤ
  pub alias_key : Option (List ℕ)
  pub evm_address : Option (List ℕ)

-- The order of texts by `<` and `>`.
unfoldable pub compare_text : List ℕ → List ℕ → Comparison
compare_text [] [] = same
compare_text [] (_ ∷ _) = less
compare_text (_ ∷ _) [] = greater
compare_text (x ∷ xs) (y ∷ ys) =
    let rest = compare_text xs ys in if ltb x y then less else if ltb y x then greater else rest

abbrev pub is_null : Option (List ℕ) → Bool
is_null none = true
is_null (some _) = false

-- What follows the comparison of the alias keys, where they are not both set: the EVM addresses if
-- both are set, and the numbers if nothing is.
unfoldable pub compare_evm : Account → Account → Option (List ℕ) → Option (List ℕ) → Comparison
compare_evm a b (some t) (some o) = compare_text t o
compare_evm a b none none =
    if is_null a.alias_key && is_null b.alias_key then compare_long a.num b.num else greater
compare_evm a b _ _ = greater

unfoldable pub compare_alias : Account → Account → Option (List ℕ) → Option (List ℕ) → Comparison
compare_alias a b (some t) (some o) = compare_text t o
compare_alias a b _ _ = compare_evm a b a.evm_address b.evm_address

unfoldable pub compare_account : Account → Account → Comparison
compare_account a b =
    if is_same (compare_long a.shard b.shard)
    then if is_same (compare_long a.realm b.realm)
      then compare_alias a b a.alias_key b.alias_key
      else compare_long a.realm b.realm
    else compare_long a.shard b.shard
