-- ===== src/Timestamp/Tests.antt =====
-- Examples of times.
use u2u_sdk_js.Common.{ℕ, ◌+◌, ◌-◌, ◌*◌, ◌/◌, ◌%◌, ◌<◌, ◌≡◌, refl, arith}
use u2u_sdk_js.Common.Int.{ℤ, pos}
use u2u_sdk_js.EntityId.Id.{compare_long}
use u2u_sdk_js.Timestamp.{LongDivision, max_ns, plus_nanos, generate, compare_time}
use u2u_sdk_js.Timestamp.Total.{at_time, plus_nanos_total, compare_total, generate_past}

abbrev divide : ℤ → ℤ → ℤ
divide (pos a) (pos b) = pos (a / b)
divide a _ = a

abbrev remainder : ℤ → ℤ → ℤ
remainder (pos a) (pos b) = pos (a % b)
remainder a _ = a

abbrev some_division : LongDivision
some_division = record {
  mul = λ a b. a;
  div = divide;
  mod_long = remainder;
  div_pos = λ a b h. refl;
  mod_pos = λ a b h. refl;
}

plus_nanos_total_example :
    (s a : ℕ) × (plus_nanos some_division (pos 2500000000) (at_time 7 900000000) ≡ at_time s a)
    × (s * max_ns + a ≡ 7 * max_ns + 900000000 + 2500000000)
    × (a < max_ns)
plus_nanos_total_example = plus_nanos_total some_division 7 900000000 2500000000 (omega arith)

compare_total_example :
    compare_time (at_time 7 5) (at_time 7 6)
    ≡ compare_long (pos (7 * max_ns + 5)) (pos (7 * max_ns + 6))
compare_total_example = compare_total 7 5 7 6 (omega arith) (omega arith)

generate_past_example :
    (s a : ℕ) × (generate 1700000000000 0 4000 999 ≡ at_time s a)
    × (a < max_ns)
    × ((1700000000000 - 13000) * 1000000 < s * max_ns + a)
    × (s * max_ns + a < (1700000000000 - 7999) * 1000000)
generate_past_example =
    generate_past 1700000000000 4000 999 (omega arith) (omega arith) (omega arith)
