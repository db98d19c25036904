-- ===== src/PacketQueue/Marking.antt =====
-- What `Remove` does to the slot that it marks, and when the loops leave a queue as it is.
use qperf_go.Prelude.{
  ℕ, zero, suc, ◌-◌, ◌^◌, ◌≤◌, ◌<◌, ◌≡◌, refl, ap, sym, ◌∙◌, ◌≢◌, true, false, none, some, List, [],
  ◌∷◌, arith, ◌==◌, if◌then◌else◌, length, get_elem?, set, ℤ, pos, get_elem?-some_lt, length-set,
}
use qperf_go.RingBuffer.{Zero, len, empty}
use qperf_go.RingBuffer.Inv.{write_at-IsValid, empty-eq-len}
use qperf_go.RingBuffer.Refine.{write_at_refines, length-contents}
use qperf_go.PacketQueue.{
  EntryWrapper, Queue, wrapper_zero, invalid_packet_number, mark_absent, clear_loop, clearup,
  remove_loop, remove_up_to,
}
use qperf_go.PacketQueue.Slots.{look, at-set, count-set, drop_absent, drop_below}
use qperf_go.PacketQueue.Inv.{Settled, Holds}
use qperf_go.PacketQueue.Loops.{len-Placed, clearup-Settled, remove_loop-Holds}
use qperf_go.PacketQueue.Lookup.{look_wrapper, sub-Placed}

module _ {T : Type 0} ⦃z : Zero T⦄ where
  -- A queue without slots is left as it is by both loops.
  pub clearup-unused :
      (p : Queue T) (f : ℕ)
      → len p.entries ≡ 0
      → Settled p f []
      → clearup p ≡ record p { first_packet = invalid_packet_number }
  unfolding clearup clear_loop
  clearup-unused p f no_slot s =
      let bare : empty p.entries ≡ true = ground (arith, empty-eq-len p.entries s.0) in
      rw (no_slot, bare)

  pub remove_up_to-unused :
      (p : Queue T) (n : ℤ) (f : ℕ) → Settled p f [] → Settled (remove_up_to p n) f []
  unfolding remove_up_to remove_loop
  remove_up_to-unused p n f s =
      let no_slot : len p.entries ≡ 0 = sym (length-contents p.entries) ∙ ap length s.1 in
      rw (no_slot, clearup-unused p f no_slot s) (s.0, s.1, refl, s.3)

  pub remove_up_to-Settled :
      (p : Queue T) (n : ℤ) (f : ℕ) (ws : List (EntryWrapper T))
      → Holds p f ws
      → let (g, vs) = drop_below n f ws in
        Settled (remove_up_to p n) (drop_absent g vs).0 (drop_absent g vs).1
  unfolding remove_up_to
  remove_up_to-Settled p n f ws h =
      clearup-Settled (drop_below n f ws).1
        (remove_loop-Holds (len p.entries) n ws (omega (arith, len-Placed h.placed)) h)

  pub mark_absent-Holds :
      (p : Queue T) (f m : ℕ) (ws : List (EntryWrapper T)) (w : EntryWrapper T)
      → Holds p f ws
      → m < 2 ^ 63
      → f ≤ m
      → get_elem? ws (m - f) ≡ some w
      → w.present ≡ true
      → Holds (mark_absent p (pos m) w) f (set ws (m - f) (record w { present = false }))
  unfolding mark_absent
  mark_absent-Holds p f m ws w h b le e here =
      let within = get_elem?-some_lt ws (m - f) e in
      let gone : EntryWrapper T = record w { present = false } in
      rw (sub-Placed m h.placed b le) (record {
        placed = record {
          valid = write_at-IsValid p.entries (pos (m - f)) gone h.valid;
          same =
              write_at_refines p.entries (m - f) gone h.valid (omega (arith, len-Placed h.placed))
              ∙ ap (λ l. set l (m - f) gone) h.same;
          first = h.first;
          bound = omega (arith, length-set ws (m - f) gone, h.bound);
        };
        count = ground (arith, count-set ws (m - f) w gone e, h.count);
      })

  pub look-set_absent :
      (f m k : ℕ) (ws : List (EntryWrapper T)) (w : EntryWrapper T)
      → f ≤ k
      → k - f < length ws
      → w.present ≡ false
      → look f (set ws (k - f) w) m ≡ (if m == k then none else look f ws m)
  look-set_absent f m k ws w le b gone = ground (arith, at-set ws (k - f) (m - f) w)

  pub look_wrapper-some :
      (f k : ℕ) (ws : List (EntryWrapper T)) (w : EntryWrapper T)
      → look_wrapper f ws k ≡ some w
      → (f ≤ k) × (get_elem? ws (k - f) ≡ some w) × (w.present ≡ true)
  look_wrapper-some f k ws w e = ground arith

  pub behind_front :
      (q : Queue T) (f i : ℕ) (v : EntryWrapper T) (vs : List (EntryWrapper T)) (w : EntryWrapper T)
      → i ≢ 0
      → Holds q f (set (v ∷ vs) i w)
      → v.present ≡ true
      → Settled q f (set (v ∷ vs) i w)
  behind_front q f zero v vs w i h s = absurd (i refl)
  behind_front q f (suc j) v vs w i h s = (h, s)
