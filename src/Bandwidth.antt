-- ===== src/Bandwidth.antt =====
-- internal/congestion/bbr/bandwidth.go, and the conversions of bandwidth_sampler.go.
-- A `Bandwidth` is a `uint64` in bits per second. Division by zero panics, which is `none`.
pub mod Rates
use qperf_go.Prelude.{
  ℕ, ◌*◌, ◌-◌, ◌/◌, ◌^◌, Option, none, some, ℤ, pos, ◌*i◌, div_i, to_u64, to_i64, u64, ◌==◌,
  if◌then◌else◌,
}
use qperf_go.Prelude.Time.{second}

abbrev pub inf_bandwidth : ℕ
inf_bandwidth = 2 ^ 64 - 1

abbrev pub bits_per_second : ℕ
bits_per_second = 1

abbrev pub bytes_per_second : ℕ
bytes_per_second = 8 * bits_per_second

unfoldable pub bandwidth_from_delta : ℤ → ℤ → Option ℕ
bandwidth_from_delta bytes delta =
    if to_u64 delta == 0
    then none
    else some (u64 (u64 (to_u64 bytes * second) / to_u64 delta * bytes_per_second))

unfoldable pub bytes_from_bandwidth_and_time_delta : ℕ → ℤ → ℤ
bytes_from_bandwidth_and_time_delta bandwidth delta = div_i (to_i64 bandwidth *i delta) (second * 8)

unfoldable pub bdp_from_rtt_and_bandwidth : ℤ → ℕ → ℤ
bdp_from_rtt_and_bandwidth rtt bandwidth =
    div_i (div_i (rtt *i to_i64 bandwidth) bytes_per_second) second
