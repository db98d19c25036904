-- ===== src/PacketQueue/Emplace.antt =====
-- `Emplace`, against what `GetEntry` returns afterwards.
use qperf_go.Prelude.{
  ℕ, suc, ◌+◌, ◌-◌, ◌^◌, ◌<◌, ◌≡◌, refl, ap, sym, ◌∙◌, Bool, true, false, ◌&&◌, ◌||◌, some, List,
  [], ◌∷◌, ◌++◌, arith, ◌==◌, if◌then◌else◌, if-some, length, pos, ltb_ℤ, leb_ℤ, eqb_ℤ,
}
use native.Mathlib.Decide.{dec_lt}
use qperf_go.RingBuffer.{Zero}
use qperf_go.RingBuffer.Inv.{init-IsValid}
use qperf_go.RingBuffer.Refine.{push_back_refines, contents-init}
use qperf_go.PacketQueue.{
  EntryWrapper, Queue, wrapper_zero, invalid_packet_number, is_empty, last_packet, new_queue,
  append_entry, first_entry, emplace, get_entry,
}
use qperf_go.PacketQueue.Inv.{Inv, Settled, Holds, packet-sub, packet-add, max_packets}
use qperf_go.PacketQueue.Slots.{look}
use qperf_go.PacketQueue.Loops.{len-Placed}
use qperf_go.PacketQueue.Lookup.{get_entry-Settled}
use qperf_go.PacketQueue.Append.{extended, look-extended, append_entry-Holds, at-single}

module _ {T : Type 0} ⦃z : Zero T⦄ where
  pub new_queue-Inv : (size : ℕ) → Inv {T = T} (new_queue size)
  unfolding new_queue
  new_queue-Inv size = record {
    at_packet = 0;
    list = [];
    settled = (init-IsValid size, contents-init size, refl, refl);
  }

  -- The last packet number of a queue with slots is that of its last slot.
  pub last_packet-Holds :
      (p : Queue T) (f : ℕ) (w : EntryWrapper T) (ws : List (EntryWrapper T))
      → Holds p f (w ∷ ws)
      → w.present ≡ true
      → (is_empty p ≡ false) × (last_packet p ≡ pos (f + length ws))
  unfolding is_empty last_packet
  last_packet-Holds p f w ws h here =
      let some_left : (p.number_of_present_entries == 0) ≡ false = ground (arith, h.count) in
      (
        some_left,
        rw
            (
              some_left,
              h.first,
              len-Placed h.placed,
              packet-sub (suc (length ws)) 1 (omega (arith, h.bound)) (omega arith),
            )
            (packet-add f (suc (length ws) - 1) (omega (arith, h.bound)) ∙ ap pos (omega arith)),
      )

  -- What `Emplace` makes of the queue: stored or not, and what `GetEntry` then returns.
  pub record Emplaced (p : Queue T) (k : ℕ) (e : T) (out : Queue T × Bool) : Type 0 where
    pub inv : Inv out.0
    pub stored : out.1 ≡ (is_empty p || ltb_ℤ (last_packet p) (pos k))
    pub shows :
        (m : ℕ)
        → m < 2 ^ 63
        → get_entry out.0 (pos m)
          ≡ (if out.1 && (m == k) then some (some e) else get_entry p (pos m))

  first_entry-Settled :
      (p : Queue T) (k f : ℕ) (e : T)
      → Settled p f []
      → k < max_packets
      → Settled (first_entry p (pos k) e) k (record { present = true; entry = e } ∷ [])
  unfolding first_entry
  first_entry-Settled p k f e s b =
      let new : EntryWrapper T = record { present = true; entry = e } in
      let pushed = push_back_refines p.entries new s.0 in
      (
        record {
          placed = record {
            valid = pushed.0;
            same = pushed.1 ∙ ap (λ l. l ++ (new ∷ [])) s.1;
            first = refl;
            bound = omega arith;
          };
          count = refl;
        },
        refl,
      )

  emplace_unused :
      (p : Queue T) (k f : ℕ) (e : T)
      → Settled p f []
      → k < max_packets
      → Emplaced p k e (emplace p (pos k) (some e))
  unfolding emplace
  emplace_unused p k f e s b =
      let valid_number : eqb_ℤ (pos k) invalid_packet_number ≡ false = ground arith in
      let none_left : is_empty p ≡ true = unfold is_empty in ground (arith, s.3) in
      let new : EntryWrapper T = record { present = true; entry = e } in
      let settled = first_entry-Settled p k f e s b in
      rw (valid_number, none_left)
        (record {
          inv = record { at_packet = k; list = new ∷ []; settled = settled };
          stored = rw none_left;
          shows = λ m c.
              get_entry-Settled (first_entry p (pos k) e) k m (new ∷ []) settled c
              ∙ ground (arith, get_entry-Settled p f m [] s c, at-single new (m - k));
        })

  emplace_used :
      (p : Queue T) (k f : ℕ) (w : EntryWrapper T) (ws : List (EntryWrapper T)) (e : T)
      → Settled p f (w ∷ ws)
      → k < max_packets
      → Emplaced p k e (emplace p (pos k) (some e))
  unfolding emplace
  emplace_used p k f w ws e (h, here) b =
      let valid_number : eqb_ℤ (pos k) invalid_packet_number ≡ false = ground arith in
      let (some_left, last) = last_packet-Holds p f w ws h here in
      elim (dec_lt (f + length ws) k) [
        | yes past ↦
            let test : leb_ℤ (pos k) (last_packet p) ≡ false = rw last (ground arith) in
            let gap = k - f - suc (length ws) in
            let settled : Settled (append_entry p (pos k) e) f (extended (w ∷ ws) gap e) =
              (append_entry-Holds p f k (w ∷ ws) e h b (omega arith), here) in
            rw (valid_number, some_left, test)
              (record {
                inv = record { at_packet = f; list = extended (w ∷ ws) gap e; settled = settled };
                stored = rw (some_left, last) (ground arith);
                shows = λ m c.
                    get_entry-Settled (append_entry p (pos k) e) f m (extended (w ∷ ws) gap e)
                      settled c
                    ∙ ap some (look-extended f k m gap (w ∷ ws) e (omega arith))
                    ∙ if-some (m == k) (some e) (look f (w ∷ ws) m)
                    ∙ ap (λ out. if m == k then some (some e) else out)
                        (sym (get_entry-Settled p f m (w ∷ ws) (h, here) c));
              })
        | no behind ↦
            let test : leb_ℤ (pos k) (last_packet p) ≡ true = rw last (ground arith) in
            rw (valid_number, some_left, test)
              (record {
                inv = record { at_packet = f; list = w ∷ ws; settled = (h, here) };
                stored = rw (some_left, last) (ground arith);
                shows = λ m c. refl;
              })
      ]

  -- `Emplace` stores an entry exactly where the queue is empty or the number lies past the last
  -- packet, and keeps the invariant; `GetEntry` then returns it for its number, and for every other
  -- number what it returned before.
  pub emplace_lem :
      (p : Queue T) (k : ℕ) (e : T)
      → Inv p
      → k < max_packets
      → Emplaced p k e (emplace p (pos k) (some e))
  emplace_lem p k e i b = by_slots i.at_packet i.list i.settled
    where
      by_slots :
          (f : ℕ) (ws : List (EntryWrapper T))
          → Settled p f ws
          → Emplaced p k e (emplace p (pos k) (some e))
      by_slots f [] s = emplace_unused p k f e s b
      by_slots f (w ∷ ws) s = emplace_used p k f w ws e s b
