-- ===== src/State/Reports.antt =====
-- The reports account for what was received.
use qperf_go.Prelude.{ℕ, ◌+◌, ◌^◌, ◌<◌, ◌≡◌, List, [], ◌∷◌, arith, u64}
use qperf_go.State.{Report, sub_u64}
use qperf_go.State.Calls.{Call, bytes, packets, report, started, established, Outcome}

-- All the bytes and packets that the calls added.
abbrev pub bytes_in : List Call → ℕ
bytes_in [] = 0
bytes_in (bytes n now ∷ xs) = bytes_in xs + n
bytes_in (packets n ∷ xs) = bytes_in xs
bytes_in (report now ∷ xs) = bytes_in xs
bytes_in (started now ∷ xs) = bytes_in xs
bytes_in (established now ∷ xs) = bytes_in xs

abbrev pub packets_in : List Call → ℕ
packets_in [] = 0
packets_in (bytes n now ∷ xs) = packets_in xs
packets_in (packets n ∷ xs) = packets_in xs + n
packets_in (report now ∷ xs) = packets_in xs
packets_in (started now ∷ xs) = packets_in xs
packets_in (established now ∷ xs) = packets_in xs

abbrev pub reported_bytes : List Report → ℕ
reported_bytes [] = 0
reported_bytes (r ∷ rs) = reported_bytes rs + r.received_bytes

abbrev pub reported_packets : List Report → ℕ
reported_packets [] = 0
reported_packets (r ∷ rs) = reported_packets rs + r.received_packets

-- A counter: the total, what the last report stood at, and the sum of all reports.
pub record Counts (added total last reports : ℕ) : Type 0 where
  pub total_is : total ≡ u64 added
  pub last_is : last ≡ u64 reports
  pub small : last < 2 ^ 64

pub add-Counts :
    (added total last reports n : ℕ)
    → Counts added total last reports
    → Counts (added + n) (u64 (total + n)) last reports
add-Counts added total last reports n c = record {
  total_is = omega (arith, c.total_is);
  last_is = c.last_is;
  small = c.small;
}

pub report-Counts :
    (added total last reports : ℕ)
    → Counts added total last reports
    → Counts added total total (reports + sub_u64 total last)
unfolding sub_u64
report-Counts added total last reports c = record {
  total_is = c.total_is;
  last_is = omega (arith, c.total_is, c.last_is);
  small = omega (arith, c.total_is);
}

abbrev pub Accounted : List Call → Outcome → Type 0
Accounted xs o =
    Counts (bytes_in xs) o.0.total_received_bytes o.0.last_report_received_bytes
      (reported_bytes o.1)
    × Counts (packets_in xs) o.0.total_received_packets o.0.last_report_received_packets
        (reported_packets o.1)
