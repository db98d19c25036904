-- ===== src/State/Calls.antt =====
-- Sequences of the calls that change a transfer's state, newest first. `GetFirstByteTime`, which
-- panics before the first byte, only reads it.
use qperf_go.Prelude.{ℕ, Option, none, some, List, [], ◌∷◌, ◌>>=◌}
use qperf_go.State.{
  State, Report, add_received_bytes, add_received_packets, get_and_reset_report, set_start_time,
  set_establishment_time,
}

pub data Call : Type 0 where
  bytes : ℕ → ℕ → Call
  packets : ℕ → Call
  report : ℕ → Call
  started : ℕ → Call
  established : ℕ → Call

-- The state and the reports so far.
abbrev pub Outcome : Type 0
Outcome = State × List Report

abbrev pub reported : Report × State → List Report → Outcome
reported r rs = (r.1, r.0 ∷ rs)

abbrev pub with_reports : List Report → Option State → Option Outcome
with_reports rs none = none
with_reports rs (some s) = some (s, rs)

unfoldable pub step : Outcome → Call → Option Outcome
step o (bytes n now) = some (add_received_bytes o.0 n now, o.1)
step o (packets n) = some (add_received_packets o.0 n, o.1)
step o (report now) = some (reported (get_and_reset_report o.0 now) o.1)
step o (started now) = with_reports o.1 (set_start_time o.0 now)
step o (established now) = with_reports o.1 (set_establishment_time o.0 now)

unfoldable pub run : Outcome → List Call → Option Outcome
run o [] = some o
run o (x ∷ xs) = do p ← run o xs; step p x
