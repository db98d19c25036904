-- ===== src/Server.antt =====
-- server/server.go, server/qperf_server_session.go and server/qperf_server_stream.go: the parts that
-- are the server's own; quic-go, HTTP/3, TLS and the sockets are libraries.
-- A panic is `none`. A stream is what its reads and writes answer. The streams of a session run in
-- goroutines of their own; `sync.Once` makes each `close` one step, and a stream counts as one event,
-- at the time of its last step.
pub mod Data
pub mod Session
mod Tests
use qperf_go.Prelude.{
  ℕ, zero, suc, ◌+◌, ◌*◌, ◌%◌, ◌^◌, Bool, true, false, Option, none, some, List, [], ◌∷◌,
  if◌then◌else◌, ltb, ◌==◌, u64,
}
use qperf_go.ByteCount.{same_text}

-- `generatePRData`: a seed for each byte.
abbrev pub next_seed : ℕ → ℕ
next_seed seed = u64 (seed * 48271) % 2_147_483_647

unfoldable pub pr_data_from : ℕ → ℕ → List ℕ
pr_data_from zero seed = []
pr_data_from (suc l) seed = next_seed seed % 256 ∷ pr_data_from l (next_seed seed)

abbrev pub generate_pr_data : ℕ → List ℕ
generate_pr_data l = pr_data_from l 1

-- The receive window and the congestion window of `Run`.
unfoldable pub max_receive_window_of : ℕ → ℕ → ℕ
max_receive_window_of initial most = if ltb most initial then initial else most

unfoldable pub initial_congestion_window_of : ℕ → ℕ → ℕ
initial_congestion_window_of initial least = if ltb initial least then least else initial

-- The congestion control of a connection: `cubic` leaves quic-go's own, any other name panics.
pub data Cc : Type 0 where
  quic_go_default : Cc
  use_rl : Cc
  use_brutal : ℕ → Cc

-- `common.CC_CUBIC`, `CC_RL` and `CC_BRUTAL`, as bytes: "cubic", "rl" and "brutal".
abbrev pub cc_cubic : List ℕ
cc_cubic = 99 ∷ 117 ∷ 98 ∷ 105 ∷ 99 ∷ []

abbrev pub cc_rl : List ℕ
cc_rl = 114 ∷ 108 ∷ []

abbrev pub cc_brutal : List ℕ
cc_brutal = 98 ∷ 114 ∷ 117 ∷ 116 ∷ 97 ∷ 108 ∷ []

unfoldable pub select_cc : List ℕ → Option Cc
select_cc cc =
    if same_text cc_cubic cc
    then some quic_go_default
    else if same_text cc_rl cc
    then some use_rl
    else if same_text cc_brutal cc
    then some (use_brutal (5 * 1024 * 1024))
    else none

-- `application_error` has the code of a `*quic.ApplicationError`.
pub data CloseError : Type 0 where
  application_error : ℕ → CloseError
  unknown_message : CloseError
  other_error : CloseError

pub data LogLine : Type 0 where
  session_open : LogLine
  stream_open : LogLine
  session_close : LogLine
  close_with_error : CloseError → LogLine
  stream_error : CloseError → LogLine

-- `log` is newest first, `buffers` counts the buffers written.
pub record QperfServerSession : Type 0 where
  pub closed : Bool
  pub log : List LogLine
  pub buffers : ℕ

abbrev pub new_session : QperfServerSession
new_session = record { closed = false; log = []; buffers = 0 }

abbrev pub runtime_reached_error_code : ℕ
runtime_reached_error_code = 0

unfoldable pub close_line : CloseError → LogLine
close_line (application_error code) =
    if code == runtime_reached_error_code
    then session_close
    else close_with_error (application_error code)
close_line unknown_message = close_with_error unknown_message
close_line other_error = close_with_error other_error

unfoldable pub log_line : QperfServerSession → LogLine → QperfServerSession
log_line s line = record s { log = line ∷ s.log }

unfoldable pub close : QperfServerSession → CloseError → QperfServerSession
close s err = if s.closed then s else record (log_line s (close_line err)) { closed = true }

-- What reading the whole request comes to: the start request, another one, or an error.
pub data Request : Type 0 where
  start_sending : Request
  other_request : Request
  read_error : CloseError → Request

-- The loop of writes, for what each write answers; where the list ends, the next write has not
-- returned.
unfoldable pub write_loop : QperfServerSession → List (Option CloseError) → QperfServerSession
write_loop s [] = s
write_loop s (none ∷ ws) = write_loop (record s { buffers = suc s.buffers }) ws
write_loop s (some err ∷ ws) = close s err

unfoldable pub serve : QperfServerSession → Request → List (Option CloseError) → QperfServerSession
serve s (read_error err) ws = log_line (close s err) (stream_error err)
serve s other_request ws = close s unknown_message
serve s start_sending ws = write_loop s ws

-- `run` of a stream, and of a session: `AcceptStream` answers streams until it fails.
abbrev pub run_stream : QperfServerSession → Request → List (Option CloseError) → QperfServerSession
run_stream s request ws = serve (log_line s stream_open) request ws

pub data Event : Type 0 where
  stream : Request → List (Option CloseError) → Event
  accept_failed : CloseError → Event

unfoldable pub handle : QperfServerSession → Event → QperfServerSession
handle s (stream request ws) = run_stream s request ws
handle s (accept_failed err) = close s err

-- Events, newest first.
unfoldable pub run_session : QperfServerSession → List Event → QperfServerSession
run_session s [] = log_line s session_open
run_session s (e ∷ es) = handle (run_session s es) e
