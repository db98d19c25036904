-- ===== src/State/Tests.antt =====
-- A transfer with two reports, and one whose start is recorded twice.
use qperf_go.Prelude.{
  ℕ, ◌≡◌, ◌↔◌, inl, inr, refl, none, some, List, [], ◌∷◌, arith, u64, if◌then◌else◌, ◌==◌,
}
use qperf_go.Sampler.Safety.{Returns}
use qperf_go.State.{total, get_and_reset_report, get_first_byte_time}
use qperf_go.State.Calls.{Call, bytes, packets, report, started, run}
use qperf_go.State.Reports.{bytes_in, packets_in, reported_bytes, reported_packets}
use qperf_go.State.Outcomes.{panics_lem, accounts_lem, first_byte_lem}
use qperf_go.State.Steps.{Twice, Positive, first_arrival, start}

abbrev transfer : List Call
transfer = bytes 300 9 ∷ report 8 ∷ packets 2 ∷ bytes 500 7 ∷ bytes 0 6 ∷ started 5 ∷ []

transfer-Positive : Positive transfer
transfer-Positive = (omega arith, (omega arith, (omega arith, (omega arith, omega arith))))

transfer-Twice : ¬ Twice transfer
transfer-Twice (inl h) = absurd (omega arith)
transfer-Twice (inr h) = absurd (omega arith)

accounts_lem_example :
    Returns
      (λ o.
        (total o.0 ≡ (u64 (bytes_in transfer), u64 (packets_in transfer)))
        × ((now : ℕ)
            → (u64 (reported_bytes ((get_and_reset_report o.0 now).0 ∷ o.1))
                ≡ u64 (bytes_in transfer))
              × (u64 (reported_packets ((get_and_reset_report o.0 now).0 ∷ o.1))
                  ≡ u64 (packets_in transfer))))
      (run start transfer)
accounts_lem_example = accounts_lem transfer transfer-Positive transfer-Twice

first_byte_lem_example :
    Returns
      (λ o.
        get_first_byte_time o.0
        ≡ (if bytes_in transfer == 0 then none else some (first_arrival transfer)))
      (run start transfer)
first_byte_lem_example = first_byte_lem transfer transfer-Positive transfer-Twice (omega arith)

first_at_seven : first_arrival transfer ≡ 7
first_at_seven = refl

abbrev restarted : List Call
restarted = started 9 ∷ transfer

panics_lem_example : (run start restarted ≡ none) ↔ Twice restarted
panics_lem_example = panics_lem restarted (omega arith, transfer-Positive)
