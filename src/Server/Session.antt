-- ===== src/Server/Session.antt =====
-- A session is closed once, by the first failure of any of its goroutines.
use qperf_go.Prelude.{
  suc, ◌≡◌, refl, ap, ◌∙◌, Bool, true, false, Option, none, some, List, [], ◌∷◌, if◌then◌else◌,
  ◌==◌, Bool-cases, inl, inr,
}
use qperf_go.Server.{
  CloseError, application_error, unknown_message, other_error, LogLine, session_open, stream_open,
  session_close, close_with_error, stream_error, QperfServerSession, new_session,
  runtime_reached_error_code, close_line, log_line, close, Request, start_sending, other_request,
  read_error, write_loop, serve, Event, stream, accept_failed, handle, run_session,
}

-- The failures among the writes of a stream, in a stream, and in all events, the first one first.
abbrev pub write_failure : List (Option CloseError) → Option CloseError
write_failure [] = none
write_failure (none ∷ ws) = write_failure ws
write_failure (some err ∷ ws) = some err

abbrev pub stream_failure : Request → List (Option CloseError) → Option CloseError
stream_failure (read_error err) ws = some err
stream_failure other_request ws = some unknown_message
stream_failure start_sending ws = write_failure ws

abbrev pub failure : Event → Option CloseError
failure (stream request ws) = stream_failure request ws
failure (accept_failed err) = some err

abbrev pub earlier_of : Option CloseError → Option CloseError → Option CloseError
earlier_of (some err) later = some err
earlier_of none later = later

abbrev pub first_failure : List Event → Option CloseError
first_failure [] = none
first_failure (e ∷ es) = earlier_of (first_failure es) (failure e)

-- The lines of the log that say that the session was closed.
abbrev pub is_close_line : LogLine → Bool
is_close_line session_close = true
is_close_line (close_with_error err) = true
is_close_line session_open = false
is_close_line stream_open = false
is_close_line (stream_error err) = false

abbrev pub close_lines : List LogLine → List LogLine
close_lines [] = []
close_lines (l ∷ ls) = if is_close_line l then l ∷ close_lines ls else close_lines ls

abbrev pub lines_of : Option CloseError → List LogLine
lines_of none = []
lines_of (some err) = close_line err ∷ []

abbrev pub is_some : Option CloseError → Bool
is_some none = false
is_some (some err) = true

-- Closed, with one line, exactly if something failed.
abbrev ClosedBy : Option CloseError → QperfServerSession → Type 0
ClosedBy f s = (s.closed ≡ is_some f) × (close_lines s.log ≡ lines_of f)

close_line-is :
    (err : CloseError) (ls : List LogLine)
    → close_lines (close_line err ∷ ls) ≡ close_line err ∷ close_lines ls
unfolding close_line
close_line-is (application_error code) ls = elim (Bool-cases (code == runtime_reached_error_code)) [
  | inl t ↦ rw t refl
  | inr t ↦ rw t refl
]
close_line-is unknown_message ls = refl
close_line-is other_error ls = refl

close-ClosedBy :
    (f : Option CloseError) (s : QperfServerSession) (err : CloseError)
    → ClosedBy f s
    → ClosedBy (earlier_of f (some err)) (close s err)
unfolding close log_line
close-ClosedBy none s err (c, l) =
    simp c (refl, close_line-is err s.log ∙ ap (λ ls. close_line err ∷ ls) l)
close-ClosedBy (some e) s err (c, l) = simp c (refl, l)

open-ClosedBy :
    (f : Option CloseError) (s : QperfServerSession)
    → ClosedBy f s
    → ClosedBy f (log_line s stream_open)
unfolding log_line
open-ClosedBy f s h = h

error-ClosedBy :
    (f : Option CloseError) (s : QperfServerSession) (err : CloseError)
    → ClosedBy f s
    → ClosedBy f (log_line s (stream_error err))
unfolding log_line
error-ClosedBy f s err h = h

earlier_of-none : (f : Option CloseError) → earlier_of f none ≡ f
earlier_of-none none = refl
earlier_of-none (some e) = refl

write-ClosedBy :
    (f : Option CloseError) (s : QperfServerSession) (ws : List (Option CloseError))
    → ClosedBy f s
    → ClosedBy (earlier_of f (write_failure ws)) (write_loop s ws)
unfolding write_loop
write-ClosedBy f s [] h = rw (earlier_of-none f) h
write-ClosedBy f s (none ∷ ws) h = write-ClosedBy f (record s { buffers = suc s.buffers }) ws h
write-ClosedBy f s (some err ∷ ws) h = close-ClosedBy f s err h

handle-ClosedBy :
    (f : Option CloseError) (s : QperfServerSession) (e : Event)
    → ClosedBy f s
    → ClosedBy (earlier_of f (failure e)) (handle s e)
unfolding handle serve
handle-ClosedBy f s (accept_failed err) h = close-ClosedBy f s err h
handle-ClosedBy f s (stream (read_error err) ws) h =
    error-ClosedBy (earlier_of f (some err)) (close (log_line s stream_open) err) err
      (close-ClosedBy f (log_line s stream_open) err (open-ClosedBy f s h))
handle-ClosedBy f s (stream other_request ws) h =
    close-ClosedBy f (log_line s stream_open) unknown_message (open-ClosedBy f s h)
handle-ClosedBy f s (stream start_sending ws) h =
    write-ClosedBy f (log_line s stream_open) ws (open-ClosedBy f s h)

-- After any events of a session the log has no line about closing if nothing failed, and otherwise
-- one, for the first failure; the session is closed exactly if something failed.
pub session_lem :
    (es : List Event)
    → ((run_session new_session es).closed ≡ is_some (first_failure es))
      × (close_lines (run_session new_session es).log ≡ lines_of (first_failure es))
unfolding run_session log_line
session_lem [] = (refl, refl)
session_lem (e ∷ es) =
    handle-ClosedBy (first_failure es) (run_session new_session es) e (session_lem es)
