-- ===== src/Pacer.antt =====
-- internal/congestion/common/pacer.go: the token bucket that paces outgoing packets.
-- `getBandwidth` reads the sender that owns the pacer; each method takes its present value, in bytes
-- per second. The constants of quic-go's `congestion` package are parameters. A method that changes
-- `*p` returns the new pacer.
pub mod Bounds
mod Tests
use qperf_go.Prelude.{
  ℕ, ◌-◌, ◌^◌, Bool, ℤ, pos, ltb_ℤ, leb_ℤ, ◌+i◌, ◌-i◌, ◌*i◌, div_i, if◌then◌else◌,
}
use qperf_go.Prelude.Float.{Float64}
use qperf_go.Prelude.Time.{is_zero_time, sub_time, add_time, millisecond, second}

pub record Pacer : Type 0 where
  pub budget_at_last_sent : ℤ
  pub max_datagram_size : ℤ
  pub last_sent_time : ℕ

abbrev pub max_burst_packets : ℤ
max_burst_packets = pos 10

unfoldable pub max_byte_count : ℤ → ℤ → ℤ
max_byte_count a b = if ltb_ℤ a b then b else a

unfoldable pub min_byte_count : ℤ → ℤ → ℤ
min_byte_count a b = if ltb_ℤ a b then a else b

unfoldable pub max_duration : ℤ → ℤ → ℤ
max_duration a b = if ltb_ℤ b a then a else b

unfoldable pub set_max_datagram_size : Pacer → ℤ → Pacer
set_max_datagram_size p s = record p { max_datagram_size = s }

-- `initialPacketSize` is `congestion.InitialPacketSizeIPv4`.
unfoldable pub new_pacer : ℤ → Pacer
new_pacer initial_packet_size = record {
  budget_at_last_sent = max_burst_packets *i initial_packet_size;
  max_datagram_size = initial_packet_size;
  last_sent_time = 0;
}

-- `minPacingDelay` is `congestion.MinPacingDelay`, a duration.
module _ (min_pacing_delay : ℤ) where
  unfoldable pub max_burst_size : Pacer → ℤ → ℤ
  max_burst_size p bandwidth =
      max_byte_count (div_i ((min_pacing_delay +i pos millisecond) *i bandwidth) second)
        (max_burst_packets *i p.max_datagram_size)

  -- The budget before it is cut to a burst.
  unfoldable pub grown_budget : Pacer → ℤ → ℕ → ℤ
  grown_budget p bandwidth now =
      let budget =
        p.budget_at_last_sent +i div_i (bandwidth *i sub_time now p.last_sent_time) second in
      if ltb_ℤ budget (pos 0) then pos (2 ^ 62 - 1) else budget

  unfoldable pub budget : Pacer → ℤ → ℕ → ℤ
  budget p bandwidth now =
      if is_zero_time p.last_sent_time
      then max_burst_size p bandwidth
      else min_byte_count (max_burst_size p bandwidth) (grown_budget p bandwidth now)

  unfoldable pub sent_packet : Pacer → ℤ → ℕ → ℤ → Pacer
  sent_packet p bandwidth send_time size =
      let available = budget p bandwidth send_time in
      record p {
        budget_at_last_sent = if ltb_ℤ available size then pos 0 else available -i size;
        last_sent_time = send_time;
      }

  -- The zero time stands for "at once".
  unfoldable pub time_until_send : (f : Float64) → Pacer → ℤ → ℕ
  time_until_send f p bandwidth =
      if leb_ℤ p.max_datagram_size p.budget_at_last_sent
      then 0
      else add_time p.last_sent_time (
          max_duration min_pacing_delay (
            f.to_int (
              f.ceil (
                f.div
                  (f.mul (f.of_int (p.max_datagram_size -i p.budget_at_last_sent)) (f.lit second 1))
                  (f.of_int bandwidth)))
            *i pos 1))
