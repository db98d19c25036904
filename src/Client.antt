-- ===== src/Client.antt =====
-- client/client.go: what the client receives and reports; quic-go, HTTP/3 and files are libraries.
-- A read of the stream is what it answers, with the time at which the state notes it. The loop of
-- `receive` and the reports of `Run` are goroutines: `step` is one turn of one of them, and `none`
-- where the loop has ended. A panic ends the loop as `panicked`, and the process with it: no turn
-- follows.
pub mod History
mod Tests
use qperf_go.Prelude.{
  ℕ, ◌+◌, Bool, true, false, Option, none, some, List, [], ◌∷◌, if◌then◌else◌, ◌==◌, ℤ, pos, ◌>>=◌,
}
use qperf_go.Prelude.Float.{Float64}
use qperf_go.Prelude.Time.{sub_time}
use qperf_go.Prelude.Float.{Float64}
use qperf_go.Prelude.Time.{sub_time}
use qperf_go.State.{State, Report, add_received_bytes, get_and_reset_report, get_first_byte_time}

-- An error that is a `*quic.ApplicationError` has its code.
pub data ReadError : Type 0 where
  no_error : ReadError
  application_error : ℕ → ReadError
  other_error : ReadError

pub record Read : Type 0 where
  pub received : ℕ
  pub error : ReadError
  pub now : ℕ

-- `common.RuntimeReachedErrorCode`
abbrev pub runtime_reached : ℕ
runtime_reached = 0

-- The loop of `receiveFirstByte`: the state and the reads that are left, an error, or it still waits.
pub data FirstByte : Type 0 where
  first_byte : State → List Read → FirstByte
  failed : FirstByte
  waiting : FirstByte

unfoldable pub first_read : Read → List Read → State → FirstByte → FirstByte
first_read r rs s rest =
    if r.received == 0 then rest else first_byte (add_received_bytes s r.received r.now) rs

unfoldable pub read_or_fail : ReadError → FirstByte → FirstByte
read_or_fail no_error r = r
read_or_fail (application_error code) r = failed
read_or_fail other_error r = failed

unfoldable pub receive_first_byte : State → List Read → FirstByte
receive_first_byte s [] = waiting
receive_first_byte s (r ∷ rs) = read_or_fail r.error (first_read r rs s (receive_first_byte s rs))

-- What has become of the loop of `receive`.
pub data Loop : Type 0 where
  reading : Loop
  returned : Loop
  panicked : Loop

-- After an application error with another code the loop reads on.
unfoldable pub after_error : ReadError → Loop
after_error no_error = reading
after_error (application_error code) = if code == runtime_reached then returned else reading
after_error other_error = panicked

-- `read r`, or a report at two readings of the clock, its own and that of `GetAndResetReport`.
pub data Turn : Type 0 where
  read : Read → Turn
  report_at : ℕ → ℕ → Turn

-- One entry of the history.
pub record States (F : Type 0) : Type 0 where
  pub rate_bits : F
  pub bytes : ℕ
  pub second : ℤ
  pub packets : ℕ

-- `states_history` is newest first.
pub record Client (F : Type 0) : Type 0 where
  pub state : State
  pub states_history : List (States F)
  pub loop : Loop

module _ {F : Type 0} where
  unfoldable pub receive : Client F → Read → Client F
  receive c r = record c {
    state = add_received_bytes c.state r.received r.now;
    loop = after_error r.error;
  }

  unfoldable pub receive_step : Loop → Client F → Read → Option (Client F)
  receive_step reading c r = some (receive c r)
  receive_step returned c r = none
  receive_step panicked c r = none

-- `seconds` is the `Seconds` method of a duration.
module _ (f : Float64) (seconds : ℤ → f.F) where
  unfoldable pub history_entry : Report → ℕ → ℕ → States f.F
  history_entry r later first = record {
    rate_bits = f.div (f.mul (f.of_u64 r.received_bytes) (f.lit 8 1)) (seconds r.delta);
    bytes = r.received_bytes;
    second = f.to_int (seconds (sub_time later first));
    packets = r.received_packets;
  }

  -- `GetFirstByteTime` panics before the first byte.
  unfoldable pub add_report : Client f.F → Report × State → ℕ → Option ℕ → Option (Client f.F)
  add_report c r later none = none
  add_report c r later (some first) =
      some (record c {
        state = r.1;
        states_history = history_entry r.0 later first ∷ c.states_history;
      })

  unfoldable pub report : Client f.F → ℕ → ℕ → Option (Client f.F)
  report c now later =
      let r = get_and_reset_report c.state now in add_report c r later (get_first_byte_time r.1)

  -- The reports go on when the loop has returned.
  unfoldable pub report_step : Loop → Client f.F → ℕ → ℕ → Option (Client f.F)
  report_step reading c now later = report c now later
  report_step returned c now later = report c now later
  report_step panicked c now later = none

  unfoldable pub step : Client f.F → Turn → Option (Client f.F)
  step c (read r) = receive_step c.loop c r
  step c (report_at now later) = report_step c.loop c now later

  -- Turns, newest first.
  unfoldable pub run : Client f.F → List Turn → Option (Client f.F)
  run c [] = some c
  run c (t ∷ ts) = do d ← run c ts; step d t
