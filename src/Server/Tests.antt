-- ===== src/Server/Tests.antt =====
-- A session with a stream that breaks and an end by the client.
use qperf_go.Prelude.{ℕ, suc, ◌≡◌, ◌<◌, ◌%◌, ◌^◌, none, some, List, [], ◌∷◌, get_elem?, length}
use qperf_go.Server.{
  application_error, other_error, start_sending, new_session, Event, stream, accept_failed,
  run_session, generate_pr_data,
}
use qperf_go.Server.Data.{generate_lem}
use qperf_go.Server.Session.{first_failure, close_lines, lines_of, is_some, session_lem}

generate_lem_example :
    (length (generate_pr_data 1000) ≡ 1000)
    × ((i : ℕ)
        → i < 1000
        → get_elem? (generate_pr_data 1000) i ≡ some (48271 ^ suc i % 2_147_483_647 % 256))
generate_lem_example = generate_lem 1000

abbrev events : List Event
events =
    accept_failed (application_error 0)
    ∷ stream start_sending (none ∷ none ∷ some other_error ∷ [])
    ∷ []

session_lem_example :
    ((run_session new_session events).closed ≡ is_some (first_failure events))
    × (close_lines (run_session new_session events).log ≡ lines_of (first_failure events))
session_lem_example = session_lem events
