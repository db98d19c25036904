-- ===== src/Bbr/ProbeLaws.antt =====
-- How long PROBE_RTT lasts, over any sequence of events.
use qperf_go.Prelude.{
  ℕ, ◌≡◌, refl, ap, ◌∙◌, Bool, true, false, not, ◌&&◌, ◌||◌, List, [], ◌∷◌, ℤ, pos, leb, leb_ℤ,
  arith,
}
use qperf_go.Prelude.Float.{Float64}
use qperf_go.Prelude.Time.{sub_time, is_zero_time}
use qperf_go.Sampler.{on_app_limited}
use qperf_go.Bbr.{Sender, is_probe_rtt, enter_startup_mode}
use qperf_go.Bbr.Cycle.{enter_probe_bandwidth_mode}
use qperf_go.Bbr.Modes.{
  enter_probe_rtt, leave_probe_rtt, await_exit, in_probe_rtt, maybe_enter_or_exit_probe_rtt,
}

-- What `maybeEnterOrExitProbeRtt` is told at one event: the time, the random number, and whether a
-- round starts.
pub record Moment : Type 0 where
  pub now : ℕ
  pub rand : ℕ
  pub is_round_start : Bool

-- Whether a round has started in a history of events, newest first.
abbrev pub passed : Bool → List Moment → Bool
passed start [] = start
passed start (e ∷ es) = e.is_round_start || passed start es

-- Whether some event came at `exit` or later, with a round started by then.
abbrev pub done : ℕ → Bool → List Moment → Bool
done exit start [] = false
done exit start (e ∷ es) = done exit start es || (leb exit e.now && passed start (e ∷ es))

sub_time-sign : (t u : ℕ) → leb_ℤ (pos 0) (sub_time t u) ≡ leb u t
unfolding sub_time
sub_time-sign t u = ground arith

module _ (f : Float64) (buffer : ℤ) where
  -- The sender after the events, none of which finds the minimum RTT expired.
  unfoldable pub stay : Sender f.F → List Moment → Sender f.F
  stay b [] = b
  stay b (e ∷ es) =
      maybe_enter_or_exit_probe_rtt f (stay b es) buffer e.rand e.now e.is_round_start false

  -- The sender waits in PROBE_RTT until `exit`, or has left it.
  pub record Status (exit : ℕ) (round left : Bool) (b : Sender f.F) : Type 0 where
    pub mode : is_probe_rtt b.mode ≡ not left
    pub exit_at : left ≡ false → b.exit_probe_rtt_at ≡ exit
    pub round_passed : left ≡ false → b.probe_rtt_round_passed ≡ round

  await-Status :
      (exit : ℕ) (round : Bool) (b : Sender f.F) (e : Moment)
      → Status exit round false b
      → Status exit
          (e.is_round_start || round)
          (leb exit e.now && (e.is_round_start || round))
          (await_exit f b e.rand e.now e.is_round_start)
  unfolding await_exit leave_probe_rtt enter_probe_bandwidth_mode enter_startup_mode
  await-Status exit round b e h =
      let sign = sub_time-sign e.now b.exit_probe_rtt_at in
      let x = h.exit_at refl in
      let r = h.round_passed refl in
      record {
        mode = ground (arith, sign, x, r, h.mode);
        exit_at = λ l. ground (arith, sign, x, r, l);
        round_passed = λ l. ground (arith, sign, x, r, l);
      }

  step-Status :
      (exit : ℕ) (round left : Bool) (b : Sender f.F) (e : Moment)
      → is_zero_time exit ≡ false
      → Status exit round left b
      → Status exit
          (e.is_round_start || round)
          (left || (leb exit e.now && (e.is_round_start || round)))
          (maybe_enter_or_exit_probe_rtt f b buffer e.rand e.now e.is_round_start false)
  unfolding maybe_enter_or_exit_probe_rtt enter_probe_rtt in_probe_rtt
  step-Status exit round true b e z h =
      rw h.mode
        (record { mode = h.mode; exit_at = λ l. absurd (cc); round_passed = λ l. absurd (cc) })
  step-Status exit round false b e z h =
      let c : Sender f.F = record b { sampler = on_app_limited b.sampler } in
      let waits : is_zero_time c.exit_probe_rtt_at ≡ false = ap is_zero_time (h.exit_at refl) ∙ z in
      let g =
        await-Status exit round c e
          (record { mode = h.mode; exit_at = h.exit_at; round_passed = h.round_passed }) in
      rw (h.mode, waits)
        (record { mode = g.mode; exit_at = g.exit_at; round_passed = g.round_passed })

  -- A sender in PROBE_RTT whose time to leave is set: after any events that do not find the minimum
  -- RTT expired again, it has left PROBE_RTT exactly if some event came at that time or later, with a
  -- round started by then (since the time was set, or at that event).
  pub stay_lem :
      (b : Sender f.F) (es : List Moment)
      → is_probe_rtt b.mode ≡ true
      → is_zero_time b.exit_probe_rtt_at ≡ false
      → is_probe_rtt (stay b es).mode ≡ not (done b.exit_probe_rtt_at b.probe_rtt_round_passed es)
  unfolding stay
  stay_lem b es m z = (status es).mode
    where
      status :
          (es : List Moment)
          → Status b.exit_probe_rtt_at
              (passed b.probe_rtt_round_passed es)
              (done b.exit_probe_rtt_at b.probe_rtt_round_passed es)
              (stay b es)
      status [] = record { mode = m; exit_at = λ l. refl; round_passed = λ l. refl }
      status (e ∷ es) =
          step-Status b.exit_probe_rtt_at (passed b.probe_rtt_round_passed es)
            (done b.exit_probe_rtt_at b.probe_rtt_round_passed es) (stay b es) e z (status es)
