-- ===== src/Worker/Tasks/Millis.antt =====
-- The milliseconds of a timestamp or a duration.
use sdk_elixir.Base.{◌≤◌, ◌≡◌, arith}
use sdk_elixir.Base.Int.{pos_part, neg_part, ◌+ℤ◌, times, div_trunc}
use sdk_elixir.Worker.{Timestamp}
use sdk_elixir.Worker.Tasks.{millis}

-- The bounds that the protocol gives: a timestamp lies in the years 1 to 9999, a duration within
-- ten thousand years, and the nanoseconds are less than a second.
pub record InProtocol (t : Timestamp) : Type 0 where
  pub seconds_above : pos_part t.seconds ≤ 315576000000
  pub seconds_below : neg_part t.seconds ≤ 315576000000
  pub nanos_above : pos_part t.nanos ≤ 999999999
  pub nanos_below : neg_part t.nanos ≤ 999999999

-- Within the bounds of the protocol nothing wraps: the result is the exact sum of the seconds times
-- 1000 and the nanoseconds divided by a million, rounded towards zero.
pub millis_exact :
    (t : Timestamp) → InProtocol t → millis t ≡ times t.seconds 1000 +ℤ div_trunc t.nanos 1000000
unfolding millis
millis_exact t b = ground arith
