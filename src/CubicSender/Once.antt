-- ===== src/CubicSender/Once.antt =====
-- One reduction of the window for the losses of one flight of packets.
use qperf_go.Prelude.{
  ℕ, ◌≤◌, ◌<◌, ◌≡◌, refl, true, false, List, [], ◌∷◌, ℤ, pos, ◌<ℤ◌, ◌≤ℤ◌, arith, sym, subst, ◌∙◌,
  Bool-cases, inl, inr, leb_ℤ,
}
use qperf_go.Prelude.Float.{Float64, Float32}
use qperf_go.Sampler.Safety.{Returns}
use qperf_go.CubicSender.{
  Undeclared, Sender, recovery, maybe_trace_state_change, in_slow_start, on_packet_sent,
}
use qperf_go.CubicSender.Events.{cut_back, on_congestion_event}
use qperf_go.CubicSender.Calls.{Call, sent, acked, lost, maybe_exit, timeout, migration, apply, run}
use qperf_go.CubicSender.Cutback.{Same, trace-Same, exit-Same, acked-Same}

-- The largest packet sent, after calls that followed one when it was `last`.
abbrev pub newest : ℤ → List Call → ℤ
newest last [] = last
newest last (sent smoothed time number bytes true ∷ xs) = number
newest last (sent smoothed time number bytes false ∷ xs) = newest last xs
newest last (acked number bytes prior min_rtt time ∷ xs) = newest last xs
newest last (lost number ∷ xs) = newest last xs
newest last (maybe_exit latest min_rtt ∷ xs) = newest last xs
newest last (timeout again ∷ xs) = newest last xs
newest last (migration ∷ xs) = newest last xs

-- No timeout and no migration, and no packet number below one sent before.
abbrev pub InTurn : ℤ → List Call → Type 0
InTurn last [] = 0 ≤ 0
InTurn last (sent smoothed time number bytes true ∷ xs) =
    (newest last xs ≤ℤ number) × InTurn last xs
InTurn last (sent smoothed time number bytes false ∷ xs) = InTurn last xs
InTurn last (acked number bytes prior min_rtt time ∷ xs) = InTurn last xs
InTurn last (lost number ∷ xs) = InTurn last xs
InTurn last (maybe_exit latest min_rtt ∷ xs) = InTurn last xs
InTurn last (timeout again ∷ xs) = 1 ≤ 0
InTurn last (migration ∷ xs) = 1 ≤ 0

-- The last reduction came after the packet `first` was sent, and `last` is the largest packet sent.
record Marked (u : Undeclared) (s : ℕ) (first last : ℤ) (c : Sender u) : Type 0 where
  largest : c.largest_sent_packet_number ≡ last
  cutback : first ≤ℤ c.largest_sent_at_last_cutback
  ordered : c.largest_sent_at_last_cutback ≤ℤ c.largest_sent_packet_number
  size : c.max_datagram_size ≡ pos s

module _ (u : Undeclared) (s : ℕ) (positive : 0 < s) where
  Same-Marked :
      (first last : ℤ) (c d : Sender u)
      → Marked u s first last c
      → Same u c d
      → Marked u s first last d
  Same-Marked first last c d m k = record {
    largest = k.0 ∙ m.largest;
    cutback = subst (λ x. first ≤ℤ x) (sym k.1) m.cutback;
    ordered = rw (k.0, k.1) m.ordered;
    size = k.2 ∙ m.size;
  }

  sent-Marked :
      (first last number smoothed bytes : ℤ) (time : ℕ) (c : Sender u)
      → Marked u s first last c
      → last ≤ℤ number
      → Marked u s first number (on_packet_sent u c smoothed time number bytes true)
  unfolding on_packet_sent
  sent-Marked first last number smoothed bytes time c m h = record {
    largest = refl;
    cutback = m.cutback;
    ordered = ground (arith, m.largest, m.ordered, h);
    size = m.size;
  }

  quiet-Marked :
      (first last number smoothed bytes : ℤ) (time : ℕ) (c : Sender u)
      → Marked u s first last c
      → Marked u s first last (on_packet_sent u c smoothed time number bytes false)
  unfolding on_packet_sent
  quiet-Marked first last number smoothed bytes time c m = record {
    largest = m.largest;
    cutback = m.cutback;
    ordered = m.ordered;
    size = m.size;
  }

  module _ (cbrt : ℤ → ℕ) (f : Float64) (g : Float32) where
    cut_back-Marked :
        (first last : ℤ) (c : Sender u)
        → c.largest_sent_packet_number ≡ last
        → first ≤ℤ last
        → c.max_datagram_size ≡ pos s
        → Marked u s first last (cut_back u cbrt f g c)
    unfolding cut_back
    cut_back-Marked first last c e h k = record {
      largest = e;
      cutback = rw e h;
      ordered = omega arith;
      size = k;
    }

    -- A loss of a packet that was sent after the last reduction.
    reduce-Marked :
        (first last number : ℤ) (c : Sender u)
        → leb_ℤ number c.largest_sent_at_last_cutback ≡ false
        → c.largest_sent_packet_number ≡ last
        → first ≤ℤ last
        → c.max_datagram_size ≡ pos s
        → Marked u s first last (on_congestion_event u cbrt f g c number)
    unfolding on_congestion_event
    reduce-Marked first last number c t e h k =
        let d : Sender u = record c { last_cutback_exited_slowstart = in_slow_start u c } in
        let same = trace-Same u d recovery in
        rw t (
          cut_back-Marked first last (maybe_trace_state_change u d recovery) (same.0 ∙ e) h
            (same.2 ∙ k))

    lost-Marked :
        (first last number : ℤ) (c : Sender u)
        → Marked u s first last c
        → Marked u s first last (on_congestion_event u cbrt f g c number)
    unfolding on_congestion_event
    lost-Marked first last number c m =
        elim (Bool-cases (leb_ℤ number c.largest_sent_at_last_cutback)) [
          | inl t ↦ rw t m
          | inr t ↦
              reduce-Marked first last number c t m.largest
                (ground (arith, m.largest, m.cutback, m.ordered)) m.size
        ]

    all-Marked :
        (first last : ℤ) (c : Sender u) (xs : List Call)
        → Marked u s first last c
        → InTurn last xs
        → Returns (Marked u s first (newest last xs)) (run u cbrt f g c xs)
    unfolding run apply
    all-Marked first last c [] m o = (c, refl, m)
    all-Marked first last c (sent smoothed time number bytes true ∷ xs) m o =
        let r = all-Marked first last c xs m o.1 in
        (
          on_packet_sent u r.0 smoothed time number bytes true,
          rw r.1 refl,
          sent-Marked first (newest last xs) number smoothed bytes time r.0 r.2 o.0,
        )
    all-Marked first last c (sent smoothed time number bytes false ∷ xs) m o =
        let r = all-Marked first last c xs m o in
        (
          on_packet_sent u r.0 smoothed time number bytes false,
          rw r.1 refl,
          quiet-Marked first (newest last xs) number smoothed bytes time r.0 r.2,
        )
    all-Marked first last c (acked number bytes prior min_rtt time ∷ xs) m o =
        let r = all-Marked first last c xs m o in
        let d =
          acked-Same u s positive cbrt f g r.0 number (pos bytes) prior min_rtt time r.2.size in
        (d.0, rw r.1 d.1, Same-Marked first (newest last xs) r.0 d.0 r.2 d.2)
    all-Marked first last c (lost number ∷ xs) m o =
        let r = all-Marked first last c xs m o in
        (
          on_congestion_event u cbrt f g r.0 number,
          rw r.1 refl,
          lost-Marked first (newest last xs) number r.0 r.2,
        )
    all-Marked first last c (maybe_exit latest min_rtt ∷ xs) m o =
        let r = all-Marked first last c xs m o in
        let d = exit-Same u s positive r.0 latest min_rtt r.2.size in
        (d.0, rw r.1 d.1, Same-Marked first (newest last xs) r.0 d.0 r.2 d.2)
    all-Marked first last c (timeout again ∷ xs) m o = absurd (omega arith)
    all-Marked first last c (migration ∷ xs) m o = absurd (omega arith)

    ignored :
        (c : Sender u) (number : ℤ)
        → number ≤ℤ c.largest_sent_at_last_cutback
        → on_congestion_event u cbrt f g c number ≡ c
    unfolding on_congestion_event
    ignored c number h =
        let t : leb_ℤ number c.largest_sent_at_last_cutback ≡ true = ground (arith, h) in rw t refl

    -- After a loss that reduced the window, and any calls but timeouts, migrations and changes of the
    -- datagram size, with packets sent in the order of their numbers and a datagram size above 0: no call has panicked, and the
    -- loss of a packet that was sent before that reduction changes nothing any more.
    pub once_lem :
        (c : Sender u) (number again : ℤ) (xs : List Call)
        → c.max_datagram_size ≡ pos s
        → c.largest_sent_at_last_cutback <ℤ number
        → InTurn c.largest_sent_packet_number xs
        → again ≤ℤ c.largest_sent_packet_number
        → Returns
            (λ d. on_congestion_event u cbrt f g d again ≡ d)
            (run u cbrt f g (on_congestion_event u cbrt f g c number) xs)
    once_lem c number again xs size h o l =
        let last = c.largest_sent_packet_number in
        let t : leb_ℤ number c.largest_sent_at_last_cutback ≡ false = ground (arith, h) in
        let m = reduce-Marked again last number c t refl l size in
        let r = all-Marked again last (on_congestion_event u cbrt f g c number) xs m o in
        (r.0, r.1, ignored r.0 again r.2.cutback)
