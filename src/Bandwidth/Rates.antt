-- ===== src/Bandwidth/Rates.antt =====
-- A rate over a time that has passed is never a division by zero.
use qperf_go.Prelude.{
  ℕ, ◌*◌, ◌/◌, ◌<◌, ◌≡◌, refl, false, some, ℤ, pos, to_u64, bits64, u64, leb_ℤ, ◌==◌, arith,
}
use qperf_go.Prelude.Time.{sub_time, second}
use qperf_go.Bandwidth.{bandwidth_from_delta, bytes_per_second}

pub sub_time-not_zero : (t u : ℕ) → u < t → (to_u64 (sub_time t u) == 0) ≡ false
unfolding sub_time bits64
sub_time-not_zero t u h = ground arith

pub sub_time-positive : (t u : ℕ) → leb_ℤ (sub_time t u) (pos 0) ≡ false → u < t
unfolding sub_time
sub_time-positive t u h = ground arith

abbrev pub rate : ℤ → ℤ → ℕ
rate bytes delta = u64 (u64 (to_u64 bytes * second) / to_u64 delta * bytes_per_second)

pub bandwidth_from_delta-some :
    (bytes : ℤ) (t u : ℕ)
    → u < t
    → bandwidth_from_delta bytes (sub_time t u) ≡ some (rate bytes (sub_time t u))
unfolding bandwidth_from_delta
bandwidth_from_delta-some bytes t u h = rw (sub_time-not_zero t u h) refl
