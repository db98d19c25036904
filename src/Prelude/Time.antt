-- ===== src/Prelude/Time.antt =====
-- Go's `time.Time` and `time.Duration`. A time is the number of nanoseconds since the zero time, so
-- `t.IsZero()` is `t == 0` and no time lies before the zero time. A duration is an `int64`.
use Prim.Native.Nat.{ℕ, ◌/◌, ◌≤◌, ◌+◌, ◌-◌, ◌^◌, ◌<◌}
use mathlib.Core.Path.{◌≡◌}
use mathlib.Core.Bool.{Bool}
use native.Mathlib.Omega.{arith}
use qperf_go.Prelude.Tests.{leb, ◌==◌, if◌then◌else◌}
use qperf_go.Prelude.Int.{sub_ℕ, ℤ, pos, negsuc, pos_part, neg_part}

abbrev pub is_zero_time : ℕ → Bool
is_zero_time t = t == 0

-- `t.Add(d)`
abbrev pub add_time : ℕ → ℤ → ℕ
add_time t d = t + pos_part d - neg_part d

-- `t.Sub(u)`: the difference, kept within the range of a duration.
unfoldable pub sub_time : ℕ → ℕ → ℤ
sub_time t u =
    if leb u t
    then (if leb (2 ^ 63) (t - u) then pos (2 ^ 63 - 1) else pos (t - u))
    else if leb (2 ^ 63) (u - t)
    then negsuc (2 ^ 63 - 1)
    else negsuc (u - t - 1)

pub sub_time_exact : (t d : ℕ) → d < 2 ^ 63 → sub_time (t + d) t ≡ pos d
unfolding sub_time
sub_time_exact t d h = ground arith

abbrev pub second : ℕ
second = 1_000_000_000

abbrev pub millisecond : ℕ
millisecond = 1_000_000

-- `t.Unix()`: whole seconds since 1970, which began so many seconds after the zero time.
abbrev pub unix_epoch : ℕ
unix_epoch = 62_135_596_800

abbrev pub unix : ℕ → ℤ
unix t = sub_ℕ (t / second) unix_epoch

pub unix-pos : (t : ℕ) → unix_epoch ≤ t / second → unix t ≡ pos (t / second - unix_epoch)
unix-pos t h = ground arith
