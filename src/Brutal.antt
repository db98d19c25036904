-- ===== src/Brutal.antt =====
-- internal/congestion/brutal/brutal.go: a sender with a fixed rate, corrected by the share of packets
-- that were acknowledged in the last seconds.
-- A method that changes `*b` returns the new sender; a panic is `none`. Printing for debugging is left
-- out. The quic-go constants and what `rttStats` answers are parameters.
pub mod Recent
pub mod Slots
pub mod Rate
mod Tests
use qperf_go.Prelude.{
  ℕ, ◌+◌, ◌-◌, ◌%◌, suc, Bool, Option, none, some, List, [], ◌∷◌, ◌==◌, ltb, if◌then◌else◌, ◌>>=◌,
  length, get_or, set, ℤ, pos, negsuc, ltb_ℤ, leb_ℤ, eqb_ℤ, ◌-i◌, u64, to_i64,
}
use qperf_go.Prelude.Float.{Float64}
use qperf_go.Prelude.Time.{unix}
use qperf_go.Pacer as Pacing
use qperf_go.Pacer.{Pacer, new_pacer, budget, time_until_send}
use qperf_go.Sampler.{AckedPacket, LostPacket}

abbrev pub pkt_info_slot_count : ℕ
pkt_info_slot_count = 5

abbrev pub min_sample_count : ℕ
min_sample_count = 50

pub record PktInfo : Type 0 where
  pub timestamp : ℤ
  pub ack_count : ℕ
  pub loss_count : ℕ

abbrev pub no_info : PktInfo
no_info = record { timestamp = pos 0; ack_count = 0; loss_count = 0 }

pub record BrutalSender (F : Type 0) : Type 0 where
  pub bps : ℤ
  pub max_datagram_size : ℤ
  pub pacer : Pacer
  pub pkt_info_slots : List PktInfo
  pub ack_rate : F

-- `currentTimestamp % pktInfoSlotCount`, as an index: below 0 it is out of range.
unfoldable pub slot_of : ℤ → Option ℕ
slot_of (pos n) = some (n % pkt_info_slot_count)
slot_of (negsuc n) = if suc n % pkt_info_slot_count == 0 then some 0 else none

-- A slot of the present second counts on; an older one starts again.
unfoldable pub count_in : ℤ → ℕ → ℕ → PktInfo → PktInfo
count_in timestamp acks losses info =
    if eqb_ℤ info.timestamp timestamp
    then record {
      timestamp = timestamp;
      ack_count = u64 (info.ack_count + acks);
      loss_count = u64 (info.loss_count + losses);
    }
    else record { timestamp = timestamp; ack_count = acks; loss_count = losses }

unfoldable pub count_packets : List PktInfo → ℤ → ℕ → ℕ → Option (List PktInfo)
count_packets slots timestamp acks losses = do
  slot ← slot_of timestamp
  some (set slots slot (count_in timestamp acks losses (get_or slots slot no_info)))

-- The loop of `updateAckRate`, for one of its two sums.
unfoldable pub sum_recent : (PktInfo → ℕ) → ℤ → ℕ → List PktInfo → ℕ
sum_recent count min_timestamp sum [] = sum
sum_recent count min_timestamp sum (info ∷ infos) =
    sum_recent count min_timestamp
      (if ltb_ℤ info.timestamp min_timestamp then sum else u64 (sum + count info)) infos

abbrev pub acks_of : PktInfo → ℕ
acks_of info = info.ack_count

abbrev pub losses_of : PktInfo → ℕ
losses_of info = info.loss_count

module _ (f : Float64) where
  abbrev pub min_ack_rate : f.F
  min_ack_rate = f.lit 8 10

  -- The rate for so many acknowledged and lost packets.
  unfoldable pub rate_of : ℕ → ℕ → f.F
  rate_of ack_count loss_count =
      let rate = f.div (f.of_u64 ack_count) (f.of_u64 (u64 (ack_count + loss_count))) in
      if ltb (u64 (ack_count + loss_count)) min_sample_count
      then f.lit 1 1
      else if f.less rate min_ack_rate
      then min_ack_rate
      else rate

  unfoldable pub update_ack_rate : BrutalSender f.F → ℤ → BrutalSender f.F
  update_ack_rate b timestamp =
      let min_timestamp = timestamp -i pos pkt_info_slot_count in
      record b {
        ack_rate =
            rate_of (sum_recent acks_of min_timestamp 0 b.pkt_info_slots)
              (sum_recent losses_of min_timestamp 0 b.pkt_info_slots);
      }

  unfoldable pub on_congestion_event_ex :
      BrutalSender f.F → ℕ → List AckedPacket → List LostPacket → Option (BrutalSender f.F)
  on_congestion_event_ex b event_time acked lost = do
    slots ← count_packets b.pkt_info_slots (unix event_time) (length acked) (length lost)
    some (update_ack_rate (record b { pkt_info_slots = slots }) (unix event_time))

  -- `initial_packet_size` is `congestion.InitialPacketSizeIPv4`.
  unfoldable pub new_brutal_sender : ℤ → ℕ → BrutalSender f.F
  new_brutal_sender initial_packet_size bps = record {
    bps = to_i64 bps;
    max_datagram_size = initial_packet_size;
    pacer = new_pacer initial_packet_size;
    pkt_info_slots = no_info ∷ no_info ∷ no_info ∷ no_info ∷ no_info ∷ [];
    ack_rate = f.lit 1 1;
  }

  -- What the pacer's callback answers.
  unfoldable pub pacer_bandwidth : BrutalSender f.F → ℤ
  pacer_bandwidth b = f.to_int (f.div (f.of_int b.bps) b.ack_rate)

  -- `seconds` is the `Seconds` method of a duration, `smoothed_rtt` what `SmoothedRTT()` answers.
  unfoldable pub get_congestion_window : BrutalSender f.F → (ℤ → f.F) → ℤ → ℤ
  get_congestion_window b seconds smoothed_rtt =
      if leb_ℤ smoothed_rtt (pos 0)
      then pos 10240
      else f.to_int
          (f.div (f.mul (f.mul (f.of_int b.bps) (seconds smoothed_rtt)) (f.lit 2 1)) b.ack_rate)

  unfoldable pub can_send : BrutalSender f.F → (ℤ → f.F) → ℤ → ℤ → Bool
  can_send b seconds smoothed_rtt bytes_in_flight =
      ltb_ℤ bytes_in_flight (get_congestion_window b seconds smoothed_rtt)

  -- `min_pacing_delay` is `congestion.MinPacingDelay`.
  module _ (min_pacing_delay : ℤ) where
    unfoldable pub time_until_send_brutal : BrutalSender f.F → ℕ
    time_until_send_brutal b = time_until_send min_pacing_delay f b.pacer (pacer_bandwidth b)

    unfoldable pub has_pacing_budget : BrutalSender f.F → ℕ → Bool
    has_pacing_budget b now =
        leb_ℤ b.max_datagram_size (budget min_pacing_delay b.pacer (pacer_bandwidth b) now)

    unfoldable pub on_packet_sent : BrutalSender f.F → ℕ → ℤ → BrutalSender f.F
    on_packet_sent b sent_time bytes = record b {
      pacer = Pacing.sent_packet min_pacing_delay b.pacer (pacer_bandwidth b) sent_time bytes;
    }

module _ {F : Type 0} where
  unfoldable pub set_max_datagram_size : BrutalSender F → ℤ → BrutalSender F
  set_max_datagram_size b size = record b {
    max_datagram_size = size;
    pacer = Pacing.set_max_datagram_size b.pacer size;
  }
