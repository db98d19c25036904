-- ===== src/Cubic/Tests.antt =====
-- A Cubic epoch after a loss.
use qperf_go.Prelude.{ℕ, ◌+◌, ◌*◌, ◌≤ℤ◌, refl, [], ◌∷◌, pos, arith}
use qperf_go.Prelude.FixedPoint.{thousandths32}
use qperf_go.Cubic.{Cubic, new_cubic}
use qperf_go.Cubic.Concrete.{cube_root, cube_root-Cubes, thousandths-Grows}
use qperf_go.Cubic.Epoch.{Ack, run, grows_lem}

-- 100,000 bytes of window after a loss at 150,000.
abbrev cut : Cubic
cut = record new_cubic { last_max_congestion_window = pos 150_000 }

abbrev ack_at : ℕ → Ack
ack_at ms = record { bytes = 1200; time = 1_000_000_000 + ms * 1_000_000; min_rtt = 20_000_000 }

grows_lem_example :
    (pos 100_000 ≤ℤ (run cube_root thousandths32 (pos 100_000, cut) (ack_at 0) (ack_at 900 ∷ [])).0)
    × ((run cube_root thousandths32 (pos 100_000, cut) (ack_at 0) (ack_at 900 ∷ [])).0
        ≤ℤ (run cube_root thousandths32
            (pos 100_000, cut)
            (ack_at 0)
            (ack_at 5_000 ∷ ack_at 900 ∷ [])).0)
grows_lem_example =
    grows_lem cube_root thousandths32 cube_root-Cubes thousandths-Grows 100_000 150_000 cut
      (ack_at 0) (ack_at 5_000) (ack_at 900 ∷ [])
      (record {
        epoch = refl;
        last_max = refl;
        connections = refl;
        near = omega arith;
        window = omega arith;
        some_window = omega arith;
      })
      (omega arith) (omega arith)
      (omega arith, omega arith, (omega arith, omega arith, omega arith))
