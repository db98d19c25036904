-- ===== src/PacketQueue/Loops.antt =====
-- The two loops of the queue, `clearup` and `RemoveUpTo`: what they do to the slots, and that their
-- fuel is enough.
use qperf_go.Prelude.{
  ℕ, zero, suc, ◌+◌, ◌-◌, ◌≤◌, ◌≡◌, refl, ap, sym, ◌∙◌, inl, inr, false, not, ◌&&◌, List, [], ◌∷◌,
  arith, ◌==◌, if◌then◌else◌, length, get_elem?, ℤ, pos, ltb_ℤ, eqb_ℤ, ◌+i◌, Bool-cases,
}
use qperf_go.RingBuffer.{Zero, len, empty}
use qperf_go.RingBuffer.Inv.{empty-eq-len}
use qperf_go.RingBuffer.Refine.{pop_front_refines, front_refines, length-contents}
use qperf_go.PacketQueue.{
  EntryWrapper, Queue, wrapper_zero, invalid_packet_number, front_present, pop_entry, drop_front,
  clear_loop, clearup, remove_loop,
}
use qperf_go.PacketQueue.Slots.{StartsPresent, drop_absent, drop_below, drop_absent-StartsPresent}
use qperf_go.PacketQueue.Inv.{Settled, Holds, Placed, packet-add}

module _ {T : Type 0} ⦃z : Zero T⦄ where
  pub len-Placed :
      {p : Queue T} {f : ℕ} {ws : List (EntryWrapper T)} → Placed p f ws → len p.entries ≡ length ws
  len-Placed {p} h = sym (length-contents p.entries) ∙ ap length h.same

  pub empty-Placed :
      {p : Queue T} {f : ℕ} {ws : List (EntryWrapper T)}
      → Placed p f ws
      → empty p.entries ≡ (length ws == 0)
  empty-Placed {p} h = empty-eq-len p.entries h.valid ∙ ap (λ n. n == 0) (len-Placed h)

  front_present-Placed :
      {p : Queue T} {f : ℕ} {w : EntryWrapper T} {ws : List (EntryWrapper T)}
      → Placed p f (w ∷ ws)
      → front_present p ≡ w.present
  unfolding front_present
  front_present-Placed {p} h =
      let read = front_refines p.entries h.valid ∙ ap (λ l. get_elem? l 0) h.same in
      rw (read, front_present)

  pop_entry-Placed :
      {p : Queue T} {f : ℕ} {w : EntryWrapper T} {ws : List (EntryWrapper T)}
      → Placed p f (w ∷ ws)
      → Placed (pop_entry p) (f + 1) ws
        × ((pop_entry p).number_of_present_entries ≡ p.number_of_present_entries)
  unfolding pop_entry
  pop_entry-Placed {p} {f} h = elim (pop_front_refines p.entries h.valid) [
    | inl (q, out) ↦ absurd (no_front (sym q ∙ h.same))
    | inr (t, s, out, v, q) ↦
        rw (out, pop_entry)
          (
            record {
              valid = v;
              same = cc (q, h.same);
              first = ap (λ (n : ℤ). n +i pos 1) h.first ∙ packet-add f 1 (omega (arith, h.bound));
              bound = omega (arith, h.bound);
            },
            refl,
          )
  ]
    where
      no_front : {w : EntryWrapper T} {ws : List (EntryWrapper T)} → [] ≡ w ∷ ws → ⊥
      no_front e = cc

  drop_front-Holds :
      {p : Queue T} {f : ℕ} {w : EntryWrapper T} {ws : List (EntryWrapper T)}
      → Holds p f (w ∷ ws)
      → Holds (drop_front p) (f + 1) ws
  unfolding drop_front
  drop_front-Holds {p} {f} {w} {ws} h = elim (Bool-cases w.present) [
    | inl here ↦
        let q = record p { number_of_present_entries = p.number_of_present_entries - 1 } in
        let placed : Placed q f (w ∷ ws) = record {
          valid = h.valid;
          same = h.same;
          first = h.first;
          bound = h.bound;
        } in
        let next = pop_entry-Placed placed in
        rw (front_present-Placed h.placed, here)
          (record { placed = next.0; count = next.1 ∙ ground (arith, h.count) })
    | inr gone ↦
        let next = pop_entry-Placed h.placed in
        rw (front_present-Placed h.placed, gone)
          (record { placed = next.0; count = next.1 ∙ ground (arith, h.count) })
  ]

  clear_test :
      {p : Queue T} {f : ℕ} {w : EntryWrapper T} {ws : List (EntryWrapper T)}
      → Placed p f (w ∷ ws)
      → (not (empty p.entries) && not (front_present p)) ≡ not w.present
  clear_test h = rw (empty-Placed h, front_present-Placed h) (ground arith)

  remove_test :
      {p : Queue T} {f : ℕ} {w : EntryWrapper T} {ws : List (EntryWrapper T)} (n : ℤ)
      → Placed p f (w ∷ ws)
      → (not (empty p.entries)
          && (not (eqb_ℤ p.first_packet invalid_packet_number) && ltb_ℤ p.first_packet n))
        ≡ ltb_ℤ (pos f) n
  remove_test n h = rw (empty-Placed h, h.first) (ground arith)

  -- The fuel of `clear_loop` is enough: it leaves what `drop_absent` leaves.
  pub clear_loop-Holds :
      (fuel : ℕ) {p : Queue T} {f : ℕ} (ws : List (EntryWrapper T))
      → length ws ≤ fuel
      → Holds p f ws
      → Holds (clear_loop fuel p) (drop_absent f ws).0 (drop_absent f ws).1
  unfolding clear_loop
  clear_loop-Holds zero [] le h = h
  clear_loop-Holds zero (w ∷ ws) le h = absurd (omega arith)
  clear_loop-Holds (suc fuel) [] le h = rw (empty-Placed h.placed, clear_loop) h
  clear_loop-Holds (suc fuel) {p} {f} (w ∷ ws) le h = elim (Bool-cases w.present) [
    | inl here ↦ let test = clear_test h.placed ∙ ap not here in rw (test, clear_loop) (simp here h)
    | inr gone ↦
        let test = clear_test h.placed ∙ ap not gone in
        let next = pop_entry-Placed h.placed in
        rw (test, gone, clear_loop)
          (clear_loop-Holds fuel ws (omega arith)
            (record { placed = next.0; count = next.1 ∙ ground (arith, h.count) }))
  ]

  -- So is that of `remove_loop`.
  pub remove_loop-Holds :
      (fuel : ℕ) (n : ℤ) {p : Queue T} {f : ℕ} (ws : List (EntryWrapper T))
      → length ws ≤ fuel
      → Holds p f ws
      → Holds (remove_loop fuel n p) (drop_below n f ws).0 (drop_below n f ws).1
  unfolding remove_loop
  remove_loop-Holds zero n [] le h = h
  remove_loop-Holds zero n (w ∷ ws) le h = absurd (omega arith)
  remove_loop-Holds (suc fuel) n [] le h = rw (empty-Placed h.placed, remove_loop) h
  remove_loop-Holds (suc fuel) n {p} {f} (w ∷ ws) le h = elim (Bool-cases (ltb_ℤ (pos f) n)) [
    | inl below ↦
        let test = remove_test n h.placed ∙ below in
        rw (test, below, remove_loop)
          (remove_loop-Holds fuel n ws (omega arith) (drop_front-Holds h))
    | inr above ↦ let test = remove_test n h.placed ∙ above in rw (test, above, remove_loop) h
  ]

  settle :
      {q : Queue T} {f : ℕ} (ws : List (EntryWrapper T))
      → Holds q f ws
      → StartsPresent ws
      → Settled
          (if empty q.entries then record q { first_packet = invalid_packet_number } else q)
          f
          ws
  settle [] h s = rw (empty-Placed h.placed) (h.valid, h.same, refl, h.count)
  settle (w ∷ ws) h s =
      let some_slot : (suc (length ws) == 0) ≡ false = ground arith in
      rw (empty-Placed h.placed, some_slot) (h, s)

  -- `clearup` restores the invariant.
  pub clearup-Settled :
      {p : Queue T} {f : ℕ} (ws : List (EntryWrapper T))
      → Holds p f ws
      → Settled (clearup p) (drop_absent f ws).0 (drop_absent f ws).1
  unfolding clearup
  clearup-Settled {p} {f} ws h =
      settle (drop_absent f ws).1
        (clear_loop-Holds (len p.entries) ws (omega (arith, len-Placed h.placed)) h)
        (drop_absent-StartsPresent f ws)
