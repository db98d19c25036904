-- ===== src/Cubic.antt =====
-- internal/congestion/cubic/cubic.go: the window of TCP Cubic.
-- A method that changes `*c` returns the new value. `cbrt x` is `uint32(math.Cbrt(float64(x)))`. The
-- clock is not read by any method and is left out.
pub mod Curve
pub mod Growth
pub mod Epoch
pub mod Concrete
mod Tests
use qperf_go.Prelude.{
  ℕ, ◌+◌, ◌-◌, ◌*◌, ◌/◌, ◌^◌, Bool, if◌then◌else◌, ℤ, pos, negsuc, ltb_ℤ, leb_ℤ, min_ℤ, ◌+i◌, ◌-i◌,
  ◌*i◌, div_i, shr_i,
}
use qperf_go.Prelude.Float.{Float32}
use qperf_go.Prelude.Time.{is_zero_time, add_time, sub_time}

abbrev pub cube_scale : ℕ
cube_scale = 40

abbrev pub cube_congestion_window_scale : ℕ
cube_congestion_window_scale = 410

-- `maxDatagramSize`, a constant here.
abbrev pub cubic_datagram_size : ℕ
cubic_datagram_size = 1252

abbrev pub cube_factor : ℕ
cube_factor = 2 ^ cube_scale / cube_congestion_window_scale / cubic_datagram_size

pub record Cubic : Type 0 where
  pub num_connections : ℤ
  pub epoch : ℕ
  pub last_max_congestion_window : ℤ
  pub acked_bytes_count : ℤ
  pub estimated_tcp_congestion_window : ℤ
  pub origin_point_congestion_window : ℤ
  pub time_to_origin_point : ℕ
  pub last_target_congestion_window : ℤ

-- `Reset`
unfoldable pub reset_cubic : Cubic → Cubic
reset_cubic c = record {
  num_connections = c.num_connections;
  epoch = 0;
  last_max_congestion_window = pos 0;
  acked_bytes_count = pos 0;
  estimated_tcp_congestion_window = pos 0;
  origin_point_congestion_window = pos 0;
  time_to_origin_point = 0;
  last_target_congestion_window = pos 0;
}

abbrev pub new_cubic : Cubic
new_cubic = record {
  num_connections = pos 1;
  epoch = 0;
  last_max_congestion_window = pos 0;
  acked_bytes_count = pos 0;
  estimated_tcp_congestion_window = pos 0;
  origin_point_congestion_window = pos 0;
  time_to_origin_point = 0;
  last_target_congestion_window = pos 0;
}

-- `OnApplicationLimited`
abbrev pub cubic_application_limited : Cubic → Cubic
cubic_application_limited c = record c { epoch = 0 }

abbrev pub set_num_connections : Cubic → ℤ → Cubic
set_num_connections c n = record c { num_connections = n }

-- The time since the start of the epoch, in 1024ths of a second.
unfoldable pub elapsed_time : ℕ → ℕ → ℤ → ℤ
elapsed_time epoch event_time delay_min =
    div_i (div_i (sub_time (add_time event_time delay_min) epoch) 1000 *i pos 1024) 1_000_000

unfoldable pub abs_i : ℤ → ℤ
abs_i offset = if ltb_ℤ offset (pos 0) then pos 0 -i offset else offset

-- How far the curve lies from its origin so many 1024ths of a second away from it.
unfoldable pub cube_delta : ℤ → ℤ
cube_delta offset =
    shr_i
      (pos cube_congestion_window_scale *i offset *i offset *i offset *i pos cubic_datagram_size)
      cube_scale

-- The window on the cubic curve.
unfoldable pub cubic_target : ℤ → ℕ → ℤ → ℤ
cubic_target origin time_to_origin elapsed =
    let delta = cube_delta (abs_i (pos time_to_origin -i elapsed)) in
    if ltb_ℤ (pos time_to_origin) elapsed then origin +i delta else origin -i delta

module _ (cbrt : ℤ → ℕ) where
  -- The first acknowledgement after a loss event.
  unfoldable pub start_epoch : Cubic → ℤ → ℤ → ℕ → Cubic
  start_epoch c acked_bytes current event_time =
      let below = ltb_ℤ current c.last_max_congestion_window in
      record c {
        epoch = event_time;
        acked_bytes_count = acked_bytes;
        estimated_tcp_congestion_window = current;
        time_to_origin_point =
            if below
            then cbrt (pos cube_factor *i (c.last_max_congestion_window -i current))
            else 0;
        origin_point_congestion_window = if below then c.last_max_congestion_window else current;
      }

  unfoldable pub count_acked : Cubic → ℤ → ℤ → ℕ → Cubic
  count_acked c acked_bytes current event_time =
      if is_zero_time c.epoch
      then start_epoch c acked_bytes current event_time
      else record c { acked_bytes_count = c.acked_bytes_count +i acked_bytes }

module _ (g : Float32) where
  -- `beta()` and `betaLastMax()`.
  unfoldable pub beta : Cubic → g.F
  beta c = let n = g.of_int c.num_connections in g.div (g.add (g.sub n (g.lit 1 1)) (g.lit 7 10)) n

  unfoldable pub beta_last_max : Cubic → g.F
  beta_last_max c =
      let n = g.of_int c.num_connections in g.div (g.add (g.sub n (g.lit 1 1)) (g.lit 85 100)) n

  unfoldable pub alpha : Cubic → g.F
  alpha c =
      let n = g.of_int c.num_connections in
      let b = beta c in
      g.div (g.mul (g.mul (g.mul (g.lit 3 1) n) n) (g.sub (g.lit 1 1) b)) (g.add (g.lit 1 1) b)

  -- The new window and the new state.
  unfoldable pub congestion_window_after_packet_loss : Cubic → ℤ → ℤ × Cubic
  congestion_window_after_packet_loss c current = (
    g.to_int (g.mul (g.of_int current) (beta c)),
    record c {
      epoch = 0;
      last_max_congestion_window =
          if ltb_ℤ (current +i pos cubic_datagram_size) c.last_max_congestion_window
          then g.to_int (g.mul (beta_last_max c) (g.of_int current))
          else current;
    },
  )

  -- What the window of an equivalent Reno sender grows by.
  unfoldable pub tcp_growth : Cubic → ℤ
  tcp_growth c = g.to_int (
      g.div
        (g.mul (g.mul (g.of_int c.acked_bytes_count) (alpha c))
          (g.of_int (pos cubic_datagram_size)))
        (g.of_int c.estimated_tcp_congestion_window))

  -- `target` is the window of the cubic curve.
  unfoldable pub grow_window : Cubic → ℤ → ℤ → ℤ × Cubic
  grow_window c current target =
      let limited = min_ℤ target (current +i div_i c.acked_bytes_count 2) in
      let estimated = c.estimated_tcp_congestion_window +i tcp_growth c in
      (
        (if ltb_ℤ limited estimated then estimated else limited),
        record c {
          estimated_tcp_congestion_window = estimated;
          acked_bytes_count = pos 0;
          last_target_congestion_window = limited;
        },
      )

  unfoldable pub congestion_window_after_ack : (ℤ → ℕ) → Cubic → ℤ → ℤ → ℤ → ℕ → ℤ × Cubic
  congestion_window_after_ack cbrt c acked_bytes current delay_min event_time =
      let c1 = count_acked cbrt c acked_bytes current event_time in
      grow_window c1 current (
        cubic_target c1.origin_point_congestion_window c1.time_to_origin_point
          (elapsed_time c1.epoch event_time delay_min))
