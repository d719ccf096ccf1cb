-- ===== src/EntityId/Id/Order.antt =====
-- `constructor` accepts exactly the ids without negative parts, and `compare` is a total order.
use u2u_sdk_js.Common.{◌≡◌, ◌↔◌, false, Option, arith}
use u2u_sdk_js.Common.Int.{ℤ}
use u2u_sdk_js.EntityId.Id.{
  EntityId, Props, created, is_null, is_negative, pick, construct, Comparison, less, same, greater,
  compare_long, compare,
}

-- The second and the third argument are both null, or neither is.
abbrev pub Paired : Option ℤ → Option ℤ → Type 0
Paired realm num = is_null realm ≡ is_null num

abbrev pub IsNatural : EntityId → Type 0
IsNatural i =
    (is_negative i.shard ≡ false) × (is_negative i.realm ≡ false) × (is_negative i.num ≡ false)

-- `constructor` returns an id exactly if its last two arguments are both null or both given and no
-- part is negative; it returns the parts that it picks, and otherwise the error that names the reason.
pub construct_iff :
    (props : Props) (realm num : Option ℤ) (i : EntityId)
    → (construct props realm num ≡ created i)
      ↔ (Paired realm num × IsNatural i × (pick props realm num ≡ i))
unfolding construct
construct_iff props realm num i = (ground arith, ground arith)

pub compare_long_same : (a b : ℤ) → (compare_long a b ≡ same) ↔ (a ≡ b)
unfolding compare_long
compare_long_same a b = ground arith

-- The comparison the other way round.
abbrev pub opposite : Comparison → Comparison
opposite less = greater
opposite same = same
opposite greater = less

compare_long-opposite : (a b : ℤ) → compare_long b a ≡ opposite (compare_long a b)
unfolding compare_long
compare_long-opposite a b = ground arith

compare_long_trans :
    (a b c : ℤ) → compare_long a b ≡ less → compare_long b c ≡ less → compare_long a c ≡ less
unfolding compare_long
compare_long_trans a b c h k = ground arith

-- Two ids compare as equal exactly if they are equal.
pub compare_same : (a b : EntityId) → (compare a b ≡ same) ↔ (a ≡ b)
unfolding compare
compare_same a b = (
  ground (
    arith,
    compare_long_same a.shard b.shard,
    compare_long_same a.realm b.realm,
    compare_long_same a.num b.num,
  ),
  ground (
    arith,
    compare_long_same a.shard b.shard,
    compare_long_same a.realm b.realm,
    compare_long_same a.num b.num,
  ),
)

-- Exchanging the arguments turns the result round.
pub compare-opposite : (a b : EntityId) → compare b a ≡ opposite (compare a b)
unfolding compare
compare-opposite a b = ground (
  arith,
  compare_long-opposite a.shard b.shard,
  compare_long-opposite a.realm b.realm,
  compare_long-opposite a.num b.num,
)

-- The order is transitive.
pub compare_trans :
    (a b c : EntityId) → compare a b ≡ less → compare b c ≡ less → compare a c ≡ less
unfolding compare
compare_trans a b c h k = ground (
  arith,
  compare_long_same a.shard b.shard,
  compare_long_same b.shard c.shard,
  compare_long_same a.realm b.realm,
  compare_long_same b.realm c.realm,
  compare_long_trans a.shard b.shard c.shard,
  compare_long_trans a.realm b.realm c.realm,
  compare_long_trans a.num b.num c.num,
)
