-- ===== src/Sampler/Sent.antt =====
-- A packet that is sent and acknowledged.
use qperf_go.Prelude.{
  ℕ, ◌<◌, ◌^◌, ◌≡◌, refl, ap, sym, subst, ◌∙◌, Bool, true, false, ◌&&◌, ◌||◌, some, ◌==◌,
  if◌then◌else◌, ℤ, pos, ltb_ℤ, eqb_ℤ, ◌+i◌, arith,
}
use qperf_go.RingBuffer.Inv.{IsValid}
use qperf_go.AckPoints.{point_zero}
use qperf_go.PacketQueue.{emplace, get_entry, is_empty, last_packet}
use qperf_go.PacketQueue.Inv.{Inv, max_packets}
use qperf_go.PacketQueue.Emplace.{emplace_lem}
use qperf_go.Sampler.{
  Sampler, SentPacket, sent_packet_zero, on_packet_sent, record_sent, leave_quiescence,
  restart_points, new_sent_packet,
}
use qperf_go.Sampler.Ack.{on_packet_acknowledged}
use qperf_go.Sampler.Safety.{
  Returns, IsReady, acked_total, returned, on_packet_acknowledged_lem, on_packet_sent-IsValid,
}

choose_same :
    {A : Type 0} (o : Bool) (k : ℕ) (x y : A) → o ≡ true → (if o && (k == k) then x else y) ≡ x
choose_same o k x y h = ground arith

choose_other :
    {A : Type 0} (o same : Bool) (x y : A) → same ≡ false → (if o && same then x else y) ≡ y
choose_other true same x y h = rw h refl
choose_other false same x y h = refl

-- What sending packet `k` records, and what its acknowledgement then does.
pub record SentAndAcked {F : Type 0} (b : Sampler F) (k : ℕ) (bytes : ℤ) (ack_time : ℕ)
    (c : Sampler F) : Type 0 where
  pub inv : Inv c.connection_state_map
  pub sent : c.total_bytes_sent ≡ b.total_bytes_sent +i bytes
  pub packet : SentPacket
  pub found : get_entry c.connection_state_map (pos k) ≡ some (some packet)
  pub size : packet.size ≡ bytes
  pub sent_after : packet.send_time_state.total_bytes_sent ≡ c.total_bytes_sent
  pub flag : packet.send_time_state.is_app_limited ≡ b.is_app_limited
  pub others :
      (m : ℕ)
      → m < 2 ^ 63
      → (m == k) ≡ false
      → get_entry c.connection_state_map (pos m) ≡ get_entry b.connection_state_map (pos m)
  pub acked :
      Returns
        (λ out. out.0.total_bytes_acked ≡ b.total_bytes_acked +i bytes)
        (on_packet_acknowledged c ack_time (pos k))

module _ {F : Type 0} where
  -- The sampler just before a packet is recorded.
  abbrev prepared : Sampler F → ℕ → ℤ → ℤ → ℤ → Sampler F
  prepared b now k bytes flight =
      let added : Sampler F = record b {
        last_sent_packet = k;
        total_bytes_sent = b.total_bytes_sent +i bytes;
      } in
      if eqb_ℤ flight (pos 0) then leave_quiescence added now else added

  prepared-fields :
      (b : Sampler F) (now : ℕ) (k bytes flight : ℤ)
      → ((prepared b now k bytes flight).connection_state_map ≡ b.connection_state_map)
        × ((prepared b now k bytes flight).total_bytes_sent ≡ b.total_bytes_sent +i bytes)
        × ((prepared b now k bytes flight).total_bytes_acked ≡ b.total_bytes_acked)
        × ((prepared b now k bytes flight).is_app_limited ≡ b.is_app_limited)
  unfolding leave_quiescence restart_points
  prepared-fields b now k bytes flight = (ground arith, ground arith, ground arith, ground arith)

  -- What the sampler keeps between two calls survives the sending of a packet.
  pub on_packet_sent-IsReady :
      (b : Sampler F) (now k : ℕ) (bytes flight : ℤ) (retransmittable : Bool)
      → IsReady b
      → k < max_packets
      → IsReady (on_packet_sent b now (pos k) bytes flight retransmittable)
  unfolding on_packet_sent record_sent
  on_packet_sent-IsReady b now k bytes flight false r l = r
  on_packet_sent-IsReady b now k bytes flight true r l =
      let x = prepared b now (pos k) bytes flight in
      let same = (prepared-fields b now (pos k) bytes flight).0 in
      (
        on_packet_sent-IsValid b now (pos k) bytes flight true r.0,
        (emplace_lem x.connection_state_map k (new_sent_packet x now bytes (flight +i bytes))
            (subst Inv (sym same) r.1) l).inv,
      )

  -- For a packet number below 2^62 past all recorded ones: sending a retransmittable packet counts its
  -- bytes and records it, with its size and the app-limited phase at that time, under its number alone,
  -- and an acknowledgement of it, at any time, then counts just its bytes.
  pub sent_and_acked_lem :
      (b : Sampler F) (now k : ℕ) (bytes flight : ℤ) (ack_time : ℕ)
      → Inv b.connection_state_map
      → IsValid b.a0_candidates
      → k < max_packets
      → (is_empty b.connection_state_map || ltb_ℤ (last_packet b.connection_state_map) (pos k))
        ≡ true
      → SentAndAcked b k bytes ack_time (on_packet_sent b now (pos k) bytes flight true)
  unfolding on_packet_sent record_sent new_sent_packet
  sent_and_acked_lem b now k bytes flight ack_time i v l past =
      let x = prepared b now (pos k) bytes flight in
      let (same, sent, acked, limited) = prepared-fields b now (pos k) bytes flight in
      let p = new_sent_packet x now bytes (flight +i bytes) in
      let e = emplace_lem x.connection_state_map k p (subst Inv (sym same) i) l in
      let stored : (emplace x.connection_state_map (pos k) (some p)).1 ≡ true =
        e.stored ∙ (ap (λ q. is_empty q || ltb_ℤ (last_packet q) (pos k)) same ∙ past) in
      let c = on_packet_sent b now (pos k) bytes flight true in
      let found : get_entry c.connection_state_map (pos k) ≡ some (some p) =
        e.shows k (omega (arith, l))
        ∙ choose_same (emplace x.connection_state_map (pos k) (some p)).1 k (some (some p))
            (get_entry x.connection_state_map (pos k)) stored in
      let (out, r, a) =
        on_packet_acknowledged_lem c ack_time (pos k)
          (on_packet_sent-IsValid b now (pos k) bytes flight true v, e.inv) (omega (arith, l)) in
      record {
        inv = e.inv;
        sent = sent;
        packet = p;
        found = found;
        size = refl;
        sent_after = refl;
        flag = limited;
        others = λ m h n.
            e.shows m h
            ∙ (choose_other (emplace x.connection_state_map (pos k) (some p)).1 (m == k)
                  (some (some p)) (get_entry x.connection_state_map (pos m)) n
                ∙ ap (λ q. get_entry q (pos m)) same);
        acked = (
          out,
          r,
          a.acked
              ∙ (ap (λ o. acked_total c.total_bytes_acked (returned o)) found
                  ∙ ap (λ t. t +i bytes) acked),
        );
      }
