-- ===== src/State.antt =====
-- common/state.go and common/time_utils.go: what a transfer has received, and its reports; the state
-- tracers of common/state_tracer.go count packets in it.
-- A method that changes `*s` returns the new value, a panic is `none`, and `now` is what `time.Now()`
-- answers. The methods that goroutines share hold the mutex throughout, so calls of them are steps of
-- a sequence.
pub mod Calls
pub mod Reports
pub mod Steps
pub mod Outcomes
mod Tests
use qperf_go.Prelude.{
  ℕ, ◌+◌, ◌-◌, ◌^◌, Bool, Option, none, some, List, [], ◌∷◌, if◌then◌else◌, ltb, ◌==◌, not, ◌&&◌,
  u64, ℤ,
}
use qperf_go.Prelude.Time.{is_zero_time, sub_time}

pub record State : Type 0 where
  pub start_time : ℕ
  pub first_byte_time : ℕ
  pub establishment_time : ℕ
  pub total_received_bytes : ℕ
  pub total_received_packets : ℕ
  pub last_report_time : ℕ
  pub last_report_received_bytes : ℕ
  pub last_report_received_packets : ℕ

-- The zero value, which a new transfer starts with.
abbrev pub new_state : State
new_state = record {
  start_time = 0;
  first_byte_time = 0;
  establishment_time = 0;
  total_received_bytes = 0;
  total_received_packets = 0;
  last_report_time = 0;
  last_report_received_bytes = 0;
  last_report_received_packets = 0;
}

-- `MaxTime`, from the latest time so far on.
unfoldable pub later_of : ℕ → List ℕ → ℕ
later_of max_time [] = max_time
later_of max_time (t ∷ ts) = later_of (if ltb max_time t then t else max_time) ts

abbrev pub max_time : List ℕ → ℕ
max_time ts = later_of 0 ts

unfoldable pub add_received_bytes : State → ℕ → ℕ → State
add_received_bytes s bytes now =
    let total = u64 (s.total_received_bytes + bytes) in
    record s {
      total_received_bytes = total;
      first_byte_time =
          if is_zero_time s.first_byte_time && not (total == 0) then now else s.first_byte_time;
    }

unfoldable pub add_received_packets : State → ℕ → State
add_received_packets s packets = record s {
  total_received_packets = u64 (s.total_received_packets + packets);
}

-- `ReceivedLongHeaderPacket` and `ReceivedShortHeaderPacket` of `StateConnectionTracer`.
abbrev pub received_header_packet : State → State
received_header_packet s = add_received_packets s 1

pub record Report : Type 0 where
  pub received_bytes : ℕ
  pub received_packets : ℕ
  pub delta : ℤ

-- `a - b` of `uint64` values.
unfoldable pub sub_u64 : ℕ → ℕ → ℕ
sub_u64 a b = u64 (a + (2 ^ 64 - b))

unfoldable pub get_and_reset_report : State → ℕ → Report × State
get_and_reset_report s now = (
  record {
    received_bytes = sub_u64 s.total_received_bytes s.last_report_received_bytes;
    received_packets = sub_u64 s.total_received_packets s.last_report_received_packets;
    delta = sub_time now (max_time (s.last_report_time ∷ s.first_byte_time ∷ s.start_time ∷ []));
  },
  record s {
    last_report_time = now;
    last_report_received_bytes = s.total_received_bytes;
    last_report_received_packets = s.total_received_packets;
  },
)

abbrev pub total : State → ℕ × ℕ
total s = (s.total_received_bytes, s.total_received_packets)

unfoldable pub set_start_time : State → ℕ → Option State
set_start_time s now =
    if is_zero_time s.start_time then some (record s { start_time = now }) else none

unfoldable pub get_first_byte_time : State → Option ℕ
get_first_byte_time s = if is_zero_time s.first_byte_time then none else some s.first_byte_time

unfoldable pub set_establishment_time : State → ℕ → Option State
set_establishment_time s now =
    if is_zero_time s.establishment_time then some (record s { establishment_time = now }) else none
