-- ===== src/Rl.antt =====
-- internal/congestion/rl/rl.go and mq.go: a sender whose window an agent steers, by messages.
-- A method that changes its receiver returns the new value. `System` is the sender with its message
-- manager and the three goroutines that `NewRLSender` starts; `step` is one step of one of them, and
-- `none` where it has to wait. The action channel holds one message; a send waits while it is full.
-- Redis and JSON are libraries: what a message reads as is part of the step.
pub mod Steps
pub mod Delivery
pub mod Drain
mod Tests
use qperf_go.Prelude.{
  ℕ, ◌+◌, Bool, true, false, not, Option, none, some, List, [], ◌∷◌, ◌++◌, if◌then◌else◌, ℤ, pos,
  negsuc, ltb_ℤ, leb_ℤ, eqb_ℤ, ◌+i◌, ◌*i◌,
}
use qperf_go.Prelude.Float.{Float64}
use qperf_go.Pacer as Pacing
use qperf_go.Pacer.{Pacer, new_pacer, budget, time_until_send}

pub record StateMsg : Type 0 where
  pub seq : ℤ
  pub cwnd : ℤ
  pub rtt : ℤ
  pub fin : Bool

pub record ActionMsg : Type 0 where
  pub seq : ℤ
  pub action : ℤ

pub record RlSender : Type 0 where
  pub max_datagram_size : ℤ
  pub pacer : Pacer
  pub cwnd : ℤ

abbrev pub initial_congestion_window : ℤ
initial_congestion_window = pos 20

-- `initial_packet_size` is `congestion.InitialPacketSizeIPv4`.
unfoldable pub new_rl_sender : ℤ → RlSender
new_rl_sender initial_packet_size = record {
  max_datagram_size = initial_packet_size;
  pacer = new_pacer initial_packet_size;
  cwnd = initial_congestion_window *i initial_packet_size;
}

-- `actionMap`, where a missing key reads as 0.
abbrev pub action_map : List (ℤ × ℤ)
action_map =
    (pos 0, negsuc 2) ∷ (pos 1, negsuc 0) ∷ (pos 2, pos 0) ∷ (pos 3, pos 1) ∷ (pos 4, pos 3) ∷ []

unfoldable pub look_up : List (ℤ × ℤ) → ℤ → ℤ
look_up [] key = pos 0
look_up (e ∷ es) key = let rest = look_up es key in if eqb_ℤ e.0 key then e.1 else rest

unfoldable pub floor_window : ℤ → ℤ
floor_window cwnd = if ltb_ℤ cwnd (pos 0) then pos 10240 else cwnd

unfoldable pub apply_action : RlSender → ActionMsg → RlSender
apply_action b a = record b {
  cwnd = floor_window (b.cwnd +i (look_up action_map a.action *i b.max_datagram_size));
}

abbrev pub rl_can_send : RlSender → ℤ → Bool
rl_can_send b bytes_in_flight = ltb_ℤ bytes_in_flight b.cwnd

-- The pacer's callback answers the window. `min_pacing_delay` is `congestion.MinPacingDelay`.
module _ (min_pacing_delay : ℤ) where
  unfoldable pub rl_time_until_send : Float64 → RlSender → ℕ
  rl_time_until_send f b = time_until_send min_pacing_delay f b.pacer b.cwnd

  unfoldable pub rl_has_pacing_budget : RlSender → ℕ → Bool
  rl_has_pacing_budget b now =
      leb_ℤ b.max_datagram_size (budget min_pacing_delay b.pacer b.cwnd now)

  unfoldable pub rl_on_packet_sent : RlSender → ℕ → ℤ → RlSender
  rl_on_packet_sent b sent_time bytes = record b {
    pacer = Pacing.sent_packet min_pacing_delay b.pacer b.cwnd sent_time bytes;
  }

unfoldable pub rl_set_max_datagram_size : RlSender → ℤ → RlSender
rl_set_max_datagram_size b size = record b {
  max_datagram_size = size;
  pacer = Pacing.set_max_datagram_size b.pacer size;
}

-- The message that the ticker publishes, for the smoothed round trip in microseconds.
unfoldable pub state_msg : RlSender → ℤ → ℤ → StateMsg
state_msg b seq rtt = record {
  seq = seq;
  cwnd = b.cwnd *i b.max_datagram_size;
  rtt = rtt;
  fin = false;
}

abbrev pub fin_msg : ℤ → StateMsg
fin_msg seq = record { seq = seq; cwnd = pos 0; rtt = pos 0; fin = true }

abbrev pub next_seq : ℤ → ℤ
next_seq seq = seq +i pos 1
