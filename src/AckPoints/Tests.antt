-- ===== src/AckPoints/Tests.antt =====
-- Three candidates in a full buffer that goes round its end.
use qperf_go.Prelude.{ℕ, ◌≡◌, refl, true, some, [], ◌∷◌, pos, arith}
use qperf_go.RingBuffer.{RingBuffer, len}
use qperf_go.RingBuffer.Inv.{IsValid}
use qperf_go.RingBuffer.Window.{contents}
use qperf_go.AckPoints.{AckPoint, point_zero, choose_a0_point}
use qperf_go.AckPoints.Choice.{choice, choose_a0_point_lem}

abbrev point : ℕ → ℕ → AckPoint
point t n = record { ack_time = t; total_bytes_acked = pos n }

abbrev candidates : RingBuffer AckPoint
candidates = record {
  ring = point 30 3000 ∷ point 10 1000 ∷ point 20 2000 ∷ [];
  head_pos = 1;
  tail_pos = 1;
  full = true;
}

candidates-IsValid : IsValid candidates
candidates-IsValid = record {
  head_in = omega arith;
  tail_in = omega arith;
  full_meets = λ e. refl;
  full_room = λ e. omega arith;
}

choose_a0_point_lem_example :
    (q : RingBuffer AckPoint) × (choose_a0_point candidates (pos 2500)
      ≡ some (q, choice (pos 2500) (contents candidates)))
    × IsValid q
choose_a0_point_lem_example = choose_a0_point_lem candidates (pos 2500) candidates-IsValid

chosen_point : choice (pos 2500) (contents candidates) ≡ some (point 20 2000)
unfolding len
chosen_point = refl
