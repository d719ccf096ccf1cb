-- ===== src/Timestamp.antt =====
-- Points in time: the class of src/Timestamp.js. Seconds and nanoseconds are Longs; `mul`, `div` and `mod`
-- of the Long library are a parameter. `Date.parse` and `Date.now` give milliseconds, which are arguments.
pub mod Total
mod Tests
use u2u_sdk_js.Common.{ℕ, ◌+◌, ◌-◌, ◌*◌, ◌/◌, ◌%◌, ◌^◌, ◌<◌, ◌≡◌, Option, none, some}
use u2u_sdk_js.Common.Int.{ℤ, pos, negsuc}
use u2u_sdk_js.Transfer.Long.{add_long}
use u2u_sdk_js.EntityId.Id.{Comparison, same, less, greater, compare_long}

pub record Timestamp : Type 0 where
  pub seconds : ℤ
  pub nanos : ℤ

-- What the code asks of the Long library: division and remainder of numbers that are not negative.
pub record LongDivision : Type 0 where
  pub mul : ℤ → ℤ → ℤ
  pub div : ℤ → ℤ → ℤ
  pub mod_long : ℤ → ℤ → ℤ
  pub div_pos : (a b : ℕ) → 0 < b → div (pos a) (pos b) ≡ pos (a / b)
  pub mod_pos : (a b : ℕ) → 0 < b → mod_long (pos a) (pos b) ≡ pos (a % b)

abbrev pub max_ns : ℕ
max_ns = 1000000000

-- The argument of `fromDate`: a number is taken as nanoseconds, a text and a Date as milliseconds.
pub data DateValue : Type 0 where
  number text date : ℤ → DateValue
  other : DateValue

module _ (long : LongDivision) where
  open long use {mul, div, mod_long}

  unfoldable pub plus_nanos : ℤ → Timestamp → Timestamp
  plus_nanos nanos t =
      let ns = add_long t.nanos nanos in
      record {
        seconds = add_long t.seconds (div ns (pos max_ns));
        nanos = mod_long ns (pos max_ns);
      }

  -- A value of another type is a TypeError.
  unfoldable pub from_date : DateValue → Option Timestamp
  unfolding plus_nanos
  from_date value =
      let from_nanos : ℤ → Option Timestamp =
        λ n. some (plus_nanos n (record { seconds = pos 0; nanos = pos 0 })) in
      elim value [
        | number n ↦ from_nanos n
        | text ms ↦ from_nanos (mul ms (pos 1000000))
        | date ms ↦ from_nanos (mul ms (pos 1000000))
        | other ↦ none
      ]

-- `generate`, from the time, the drift of the cache, and the two random numbers: the jitter in
-- milliseconds below 5000, and the nanoseconds below a million. The time is later than the jitter.
unfoldable pub generate : ℕ → ℕ → ℕ → ℕ → Timestamp
generate now drift jitter random =
    let ms = now - (jitter + 8000) in
    record { seconds = pos (ms / 1000 + drift); nanos = pos (ms % 1000 * 1000000 + random) }

abbrev pub or_compare : Comparison → Comparison → Comparison
or_compare same c = c
or_compare c _ = c

unfoldable pub compare_time : Timestamp → Timestamp → Comparison
compare_time a b = or_compare (compare_long a.seconds b.seconds) (compare_long a.nanos b.nanos)
