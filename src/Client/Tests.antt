-- ===== src/Client/Tests.antt =====
-- A transfer of three reads and a report.
use qperf_go.Prelude.{ℕ, ◌+◌, ◌≡◌, refl, List, [], ◌∷◌, ◌++◌, arith, u64, ℤ, div_i}
use qperf_go.Prelude.FixedPoint.{thousandths}
use qperf_go.Sampler.Safety.{Returns}
use qperf_go.State.{State, new_state, add_received_bytes}
use qperf_go.Client.{
  no_error, application_error, Read, first_byte, receive_first_byte, after_error, step, Turn, read,
  report_at, run,
}
use qperf_go.Client.History.{received_in, bytes_of, begun, history_lem}

abbrev nothing : Read
nothing = record { received = 0; error = no_error; now = 3 }

abbrev one : Read
one = record { received = 1; error = no_error; now = 4 }

abbrev more : Read
more = record { received = 65_536; error = no_error; now = 5 }

abbrev last : Read
last = record { received = 0; error = application_error 0; now = 9 }

abbrev turns : List Turn
turns = report_at 7 8 ∷ read more ∷ []

-- The seconds of a duration, in thousandths.
abbrev seconds : ℤ → ℤ
seconds d = div_i d 1_000_000

-- The state once the start and the establishment are recorded.
abbrev established : State
established = record new_state { start_time = 1; establishment_time = 2 }

history_lem_example :
    (receive_first_byte established ((nothing ∷ []) ++ (one ∷ more ∷ []))
      ≡ first_byte (add_received_bytes established one.received one.now) (more ∷ []))
    × Returns
        (λ c.
          (c.state.total_received_bytes ≡ u64 (one.received + received_in (read last ∷ turns)))
          × ((now later : ℕ)
              → Returns
                  (λ d.
                    u64 (bytes_of d.states_history)
                    ≡ u64 (one.received + received_in (read last ∷ turns)))
                  (step thousandths seconds c (report_at now later))))
        (run thousandths seconds
          (begun (add_received_bytes established one.received one.now))
          (read last ∷ turns))
unfolding after_error
history_lem_example =
    history_lem thousandths seconds established (nothing ∷ []) one (more ∷ []) last turns
      (record { arrival = refl; total = refl; last = refl }) (refl, refl, omega arith) refl refl
      (omega arith) (omega arith) (refl, omega arith) (λ e. cc)
