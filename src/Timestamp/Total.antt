-- ===== src/Timestamp/Total.antt =====
-- Times of src/Timestamp.js as one number of nanoseconds.
use u2u_sdk_js.Common.{ℕ, ◌+◌, ◌-◌, ◌*◌, ◌/◌, ◌%◌, ◌^◌, ◌<◌, ◌≡◌, refl, arith}
use u2u_sdk_js.Common.Int.{pos}
use u2u_sdk_js.Transfer.Long.{add_long_fits}
use u2u_sdk_js.EntityId.Id.{compare_long}
use u2u_sdk_js.Timestamp.{Timestamp, LongDivision, max_ns, plus_nanos, generate, compare_time}

abbrev pub at_time : ℕ → ℕ → Timestamp
at_time s n = record { seconds = pos s; nanos = pos n }

-- For seconds, nanoseconds and an amount that are not negative and whose sum fits a Long, adding the
-- amount adds it to the number of nanoseconds since the epoch, and leaves less than a second of
-- nanoseconds.
pub plus_nanos_total :
    (long : LongDivision) (s a n : ℕ)
    → s + a + n < 2 ^ 63
    → (s' a' : ℕ) × (plus_nanos long (pos n) (at_time s a) ≡ at_time s' a')
      × (s' * max_ns + a' ≡ s * max_ns + a + n)
      × (a' < max_ns)
unfolding plus_nanos
plus_nanos_total long s a n b =
    let d = long.div_pos (a + n) max_ns (omega arith) in
    let m = long.mod_pos (a + n) max_ns (omega arith) in
    (
      s + (a + n) / max_ns,
      (a + n) % max_ns,
      rw (add_long_fits a n (omega arith), d, m, add_long_fits s ((a + n) / max_ns) (omega arith))
          refl,
      omega arith,
      omega arith,
    )

-- The order of times whose seconds are not negative and whose nanoseconds are not negative and less
-- than a second is the order of their numbers of nanoseconds since the epoch.
pub compare_total :
    (s a t b : ℕ)
    → a < max_ns
    → b < max_ns
    → compare_time (at_time s a) (at_time t b)
      ≡ compare_long (pos (s * max_ns + a)) (pos (t * max_ns + b))
unfolding compare_time compare_long
compare_total s a t b l m = ground arith

-- A time that is generated without drift of the cache, at a clock of more than thirteen seconds, has
-- less than a second of nanoseconds, and is less than thirteen seconds and more than 7.999 seconds in
-- the past: the random nanoseconds can take up to a millisecond from the eight seconds.
pub generate_past :
    (now jitter random : ℕ)
    → jitter < 5000
    → random < 1000000
    → 13000 < now
    → (s a : ℕ) × (generate now 0 jitter random ≡ at_time s a)
      × (a < max_ns)
      × ((now - 13000) * 1000000 < s * max_ns + a)
      × (s * max_ns + a < (now - 7999) * 1000000)
unfolding generate
generate_past now jitter random j r n =
    let ms = now - (jitter + 8000) in
    (ms / 1000 + 0, ms % 1000 * 1000000 + random, refl, omega arith, omega arith, omega arith)
