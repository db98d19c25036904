-- ===== src/Bbr/Reach.antt =====
-- The senders that the calls lead to from `NewBbrSender`, and what holds of each of them.
use qperf_go.Prelude.{
  some_inj, none-neq-some, ℕ, pos, ◌<◌, ◌≤ℤ◌, ◌≡◌, refl, sym, ap, subst, ◌∙◌, none, Bool, some, ℤ,
  ◌*i◌, arith, length, ◌+◌, InI64, ltb_ℤ, eqb_ℤ, if◌then◌else◌, Bool-cases, inl, inr,
}
use qperf_go.Prelude.Float.{Float64}
use qperf_go.RingBuffer.Inv.{init-IsValid}
use qperf_go.AckPoints.{point_zero}
use qperf_go.PacketQueue.Inv.{max_packets}
use qperf_go.PacketQueue.Emplace.{new_queue-Inv}
use qperf_go.Sampler.{sent_packet_zero}
use qperf_go.Sampler.Accounting.{AckedInRange, LostInRange}
use qperf_go.Sampler.Sent.{on_packet_sent-IsReady}
use qperf_go.Sampler.Event.{new_bandwidth_sampler}
use qperf_go.Pacer as Pacing
use qperf_go.Bbr.{
  Sender, Constants, new_bbr_sender, new_bbr_sender_from, fresh_sender, enter_startup_mode,
  set_high_cwnd_gain, set_max_datagram_size, get_congestion_window,
  default_minimum_congestion_window, initial_congestion_window_packets, in_recovery,
}
use qperf_go.Bbr.Event.{Event, on_packet_sent_bbr, on_congestion_event_ex}
use qperf_go.Bbr.ModeLaws.{InMode}
use qperf_go.Bbr.WindowLaws.{window_in_limits}
use qperf_go.Bbr.EventLaws.{WellFormed, on_congestion_event_ex_lem}

-- An event that quic-go reports: it has a packet, and its RTT and packet numbers are `int64`s.
abbrev pub Proper : Event → Type 0
Proper e =
    (0 < length e.acked + length e.lost) × InI64 e.rtt × AckedInRange e.acked × LostInRange e.lost

-- `SetMaxDatagramSize` after its check.
abbrev resize : {F : Type 0} → Sender F → ℤ → Sender F
resize b s = record b {
  max_datagram_size = s;
  congestion_window =
      if eqb_ℤ b.congestion_window b.min_congestion_window
      then b.min_congestion_window
      else b.congestion_window;
  pacer = Pacing.set_max_datagram_size b.pacer s;
}

module _ (f : Float64) (k : Constants) where
  -- One call that returned. QUIC's packet numbers are below 2^62.
  pub data Call : Sender f.F → Sender f.F → Type 0 where
    sent :
        (b : Sender f.F) (time : ℕ) (flight : ℤ) (number : ℕ) (bytes : ℤ) (retransmittable : Bool)
        → number < max_packets
        → Call b (on_packet_sent_bbr f k b time flight (pos number) bytes retransmittable)
    event :
        (b : Sender f.F) (e : Event) (c : Sender f.F)
        → Proper e
        → on_congestion_event_ex f k b e ≡ some c
        → Call b c
    resized :
        (b : Sender f.F) (s : ℤ) (c : Sender f.F) → set_max_datagram_size b s ≡ some c → Call b c

  pub data Reachable (datagram : ℤ) : Sender f.F → Type 0 where
    start : Reachable datagram (new_bbr_sender f k datagram)
    call : {b c : Sender f.F} → Reachable datagram b → Call b c → Reachable datagram c

  -- What holds of a reachable sender.
  pub record Sound (datagram : ℤ) (b : Sender f.F) : Type 0 where
    pub at_least : default_minimum_congestion_window k ≤ℤ get_congestion_window b
    pub at_most : get_congestion_window b ≤ℤ k.max_congestion_window_packets *i datagram
    pub in_mode : InMode b.mode b.is_at_full_bandwidth
    pub offset : b.cycle_current_offset < 8
    pub next : (e : Event) → Proper e → (c : Sender f.F) × (on_congestion_event_ex f k b e ≡ some c)

  abbrev window_limits : ℤ → ℤ × ℤ
  window_limits datagram =
      (default_minimum_congestion_window k, k.max_congestion_window_packets *i datagram)

  new-WellFormed :
      (datagram : ℤ)
      → default_minimum_congestion_window k ≤ℤ initial_congestion_window_packets *i datagram
      → initial_congestion_window_packets *i datagram ≤ℤ k.max_congestion_window_packets *i datagram
      → WellFormed f k (window_limits datagram) (new_bbr_sender f k datagram)
  unfolding new_bbr_sender new_bbr_sender_from fresh_sender enter_startup_mode set_high_cwnd_gain
      new_bandwidth_sampler in_recovery
  new-WellFormed datagram p q = record {
    state = record {
      in_mode = refl;
      offset = omega arith;
      limits = (p, q);
      ready = (refl, (init-IsValid 256, new_queue-Inv ⦃z = sent_packet_zero⦄ 256));
    };
    recovering = λ t. absurd (cc);
    fixed = refl;
  }

  sent-WellFormed :
      {m : ℤ × ℤ} (b : Sender f.F) (time : ℕ) (flight : ℤ) (number : ℕ) (bytes : ℤ)
      (retransmittable : Bool)
      → number < max_packets
      → WellFormed f k m b
      → WellFormed f k m (on_packet_sent_bbr f k b time flight (pos number) bytes retransmittable)
  unfolding on_packet_sent_bbr in_recovery
  sent-WellFormed b time flight number bytes retransmittable l h =
      let g = h.state in
      record {
        state = record {
          in_mode = g.in_mode;
          offset = g.offset;
          limits = g.limits;
          ready = (
            g.ready.0,
            on_packet_sent-IsReady b.sampler time number bytes flight retransmittable g.ready.1 l,
          );
        };
        recovering = h.recovering;
        fixed = h.fixed;
      }

  resize-WellFormed :
      {m : ℤ × ℤ} (b : Sender f.F) (s : ℤ) → WellFormed f k m b → WellFormed f k m (resize b s)
  unfolding in_recovery
  resize-WellFormed b s h =
      let g = h.state in
      record {
        state = record {
          in_mode = g.in_mode;
          offset = g.offset;
          limits = ground (arith, g.limits);
          ready = g.ready;
        };
        recovering = h.recovering;
        fixed = h.fixed;
      }

  resized-WellFormed :
      {m : ℤ × ℤ} (b : Sender f.F) (s : ℤ) (c : Sender f.F)
      → set_max_datagram_size b s ≡ some c
      → WellFormed f k m b
      → WellFormed f k m c
  unfolding set_max_datagram_size in_recovery
  resized-WellFormed {m} b s c e h = elim (Bool-cases (ltb_ℤ s b.max_datagram_size)) [
    | inl t ↦ absurd (none-neq-some (sym (ap (λ z. if z then none else some (resize b s)) t) ∙ e))
    | inr t ↦
        subst (WellFormed f k m)
          (some_inj (sym (ap (λ z. if z then none else some (resize b s)) t) ∙ e))
          (resize-WellFormed b s h)
  ]

  Call-WellFormed :
      {m : ℤ × ℤ} {b c : Sender f.F} → Call b c → WellFormed f k m b → WellFormed f k m c
  Call-WellFormed (sent b time flight number bytes r l) h =
      sent-WellFormed b time flight number bytes r l h
  Call-WellFormed {m} (event b e c p q) h =
      let (d, r, g) = on_congestion_event_ex_lem f k m b e h p.1 p.0 p.2 p.3 in
      subst (WellFormed f k m) (some_inj (sym r ∙ q)) g
  Call-WellFormed (resized b s c e) h = resized-WellFormed b s c e h

  Reachable-WellFormed :
      (datagram : ℤ)
      → default_minimum_congestion_window k ≤ℤ initial_congestion_window_packets *i datagram
      → initial_congestion_window_packets *i datagram ≤ℤ k.max_congestion_window_packets *i datagram
      → {b : Sender f.F} → Reachable datagram b
      → WellFormed f k (window_limits datagram) b
  Reachable-WellFormed datagram p q start = new-WellFormed datagram p q
  Reachable-WellFormed datagram p q (call r c) =
      Call-WellFormed c (Reachable-WellFormed datagram p q r)

  -- For a datagram size whose initial window of 32 datagrams lies between four initial packets and
  -- the largest number of datagrams: of every sender that calls of `OnPacketSent`,
  -- `OnCongestionEventEx` and `SetMaxDatagramSize` that returned lead to from `NewBbrSender`, with
  -- packets sent under numbers below 2^62 and events with packets and `int64`s, whatever the
  -- floating-point operations answer, the window in force lies between four initial packets and
  -- the largest number of datagrams, DRAIN and PROBE_BW have the full bandwidth and STARTUP does
  -- not, the offset lies within the gain cycle, and the next event that has a packet, with an RTT and
  -- packet numbers that are `int64`s, returns without a panic.
  pub Reachable-Sound :
      (datagram : ℤ)
      → default_minimum_congestion_window k ≤ℤ initial_congestion_window_packets *i datagram
      → initial_congestion_window_packets *i datagram ≤ℤ k.max_congestion_window_packets *i datagram
      → {b : Sender f.F} → Reachable datagram b
      → Sound datagram b
  Reachable-Sound datagram p q {b} r =
      let h = Reachable-WellFormed datagram p q r in
      let w = window_in_limits b h.state h.recovering in
      record {
        at_least = subst (λ m. m.0 ≤ℤ get_congestion_window b) h.fixed w.0;
        at_most = subst (λ m. get_congestion_window b ≤ℤ m.1) h.fixed w.1;
        in_mode = h.state.in_mode;
        offset = h.state.offset;
        next = λ e p.
            (let (c, q, _) =
                on_congestion_event_ex_lem f k (window_limits datagram) b e h p.1 p.0 p.2 p.3 in
              (c, q));
      }
