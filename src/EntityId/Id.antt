-- ===== src/EntityId/Id.antt =====
-- An entity id and its order: `constructor` and `compare` of src/EntityIdHelper.js. A `Long` is an
-- integer, `Long.fromValue` keeps the value, and null is `none`.
pub mod Order
use u2u_sdk_js.Common.{Bool, true, false, Option, none, some, ◌&&◌, ◌||◌, if◌then◌else◌}
use u2u_sdk_js.Common.Int.{ℤ, pos, negsuc, ltb_ℤ}

pub record EntityId : Type 0 where
  pub shard : ℤ
  pub realm : ℤ
  pub num : ℤ

-- What `constructor` is called with first: a number or a Long, or an object with the three fields.
pub data Props : Type 0 where
  number : ℤ → Props
  fields : Option ℤ → Option ℤ → ℤ → Props

pub data IdError : Type 0 where
  invalid_entity_id negative_number : IdError

pub data Created : Type 0 where
  created : EntityId → Created
  refused : IdError → Created

abbrev pub is_null : Option ℤ → Bool
is_null none = true
is_null (some _) = false

abbrev pub or_zero : Option ℤ → ℤ
or_zero none = pos 0
or_zero (some n) = n

abbrev pub is_negative : ℤ → Bool
is_negative (pos _) = false
is_negative (negsuc _) = true

-- The three Longs that `constructor` picks from its arguments.
unfoldable pub pick : Props → Option ℤ → Option ℤ → EntityId
pick (number n) realm num = record {
  shard = if is_null num then pos 0 else n;
  realm = or_zero realm;
  num = elim num [ none ↦ n | some k ↦ k ];
}
pick (fields shard realm num) _ _ = record {
  shard = or_zero shard;
  realm = or_zero realm;
  num = num;
}

unfoldable pub construct : Props → Option ℤ → Option ℤ → Created
unfolding pick
construct props realm num =
    if is_null realm && (if is_null num then false else true)
    then refused invalid_entity_id
    else if (if is_null realm then false else true) && is_null num
    then refused invalid_entity_id
    else if is_negative (pick props realm num).shard
        || is_negative (pick props realm num).realm
        || is_negative (pick props realm num).num
    then refused negative_number
    else created (pick props realm num)

-- The results -1, 0 and 1 of a comparison.
pub data Comparison : Type 0 where
  less same greater : Comparison

abbrev pub is_same : Comparison → Bool
is_same same = true
is_same _ = false

-- `Long.compare`: by value.
unfoldable pub compare_long : ℤ → ℤ → Comparison
compare_long a b = if ltb_ℤ a b then less else if ltb_ℤ b a then greater else same

unfoldable pub compare : EntityId → EntityId → Comparison
compare a b =
    if is_same (compare_long a.shard b.shard)
    then if is_same (compare_long a.realm b.realm)
      then compare_long a.num b.num
      else compare_long a.realm b.realm
    else compare_long a.shard b.shard
