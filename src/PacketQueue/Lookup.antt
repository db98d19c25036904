-- ===== src/PacketQueue/Lookup.antt =====
-- `GetEntry` reads the slots.
use qperf_go.Prelude.{
  ℕ, zero, suc, ◌-◌, ◌^◌, ◌≤◌, ◌<◌, ◌≡◌, refl, ap, ◌∙◌, Option, none, List, [], ◌∷◌, arith, ltb,
  if◌then◌else◌, get_elem?, some, pos, ◌-i◌, length, get_elem?-none, ◌>>=◌, ℤ, negsuc, pos_part,
}
use native.Mathlib.Decide.{dec_lt}
use qperf_go.RingBuffer.{Zero, offset}
use qperf_go.RingBuffer.Refine.{offset_refines}
use qperf_go.PacketQueue.{
  EntryWrapper, Queue, wrapper_zero, present_only, entry_only, is_empty, wrapper_at,
  get_entry_wrapper, get_entry,
}
use qperf_go.RingBuffer.Window.{contents}
use qperf_go.PacketQueue.Slots.{look, at}
use qperf_go.PacketQueue.Inv.{Inv, Settled, Placed, packet-sub}
use qperf_go.PacketQueue.Loops.{len-Placed}

module _ {T : Type 0} ⦃z : Zero T⦄ where
  abbrev present_wrapper : Option (EntryWrapper T) → Option (EntryWrapper T)
  present_wrapper none = none
  present_wrapper (some w) = present_only w

  -- The wrapper that slots from `f` on hold for number `m`, if it is present.
  abbrev pub look_wrapper : ℕ → List (EntryWrapper T) → ℕ → Option (EntryWrapper T)
  look_wrapper f ws m = if ltb m f then none else present_wrapper (get_elem? ws (m - f))

  at-eq-get_elem? :
      (ws : List (EntryWrapper T)) (i : ℕ) → entry_only (present_wrapper (get_elem? ws i)) ≡ at ws i
  at-eq-get_elem? [] i = refl
  at-eq-get_elem? (w ∷ ws) zero = ground arith
  at-eq-get_elem? (w ∷ ws) (suc i) = at-eq-get_elem? ws i

  present_within :
      (ws : List (EntryWrapper T)) (i : ℕ)
      → i < length ws
      → (do ew ← get_elem? ws i; some (present_only ew)) ≡ some (present_wrapper (get_elem? ws i))
  present_within [] i h = absurd (omega arith)
  present_within (w ∷ ws) zero h = refl
  present_within (w ∷ ws) (suc i) h = present_within ws i (omega arith)

  pub look-eq-look_wrapper :
      (f m : ℕ) (ws : List (EntryWrapper T)) → entry_only (look_wrapper f ws m) ≡ look f ws m
  look-eq-look_wrapper f m ws = ground (arith, at-eq-get_elem? ws (m - f))

  pub sub-Placed :
      {p : Queue T} {f : ℕ} {ws : List (EntryWrapper T)} (m : ℕ)
      → Placed p f ws
      → m < 2 ^ 63
      → f ≤ m
      → pos m -i p.first_packet ≡ pos (m - f)
  sub-Placed {f = f} m h b le = ap (◌-i◌ (pos m)) h.first ∙ packet-sub m f b le

  wrapper_at-Placed :
      {p : Queue T} {f : ℕ} {ws : List (EntryWrapper T)} (m : ℕ)
      → Placed p f ws
      → m < 2 ^ 63
      → f ≤ m
      → wrapper_at p (pos m) ≡ (do ew ← get_elem? ws (m - f); some (present_only ew))
  unfolding wrapper_at
  wrapper_at-Placed {p} {f} m h b le =
      let read : offset p.entries (pos m -i p.first_packet)
          ≡ get_elem? (contents p.entries) (m - f) =
        ap (offset p.entries) (sub-Placed m h b le) ∙ offset_refines p.entries (m - f) h.valid in
      rw (read, h.same)

  pub get_entry_wrapper-Settled :
      (p : Queue T) (f m : ℕ) (ws : List (EntryWrapper T))
      → Settled p f ws
      → m < 2 ^ 63
      → get_entry_wrapper p (pos m) ≡ some (look_wrapper f ws m)
  unfolding get_entry_wrapper is_empty
  get_entry_wrapper-Settled p f m [] s b = ground arith
  get_entry_wrapper-Settled p f m (w ∷ ws) (h, s) b = elim (dec_lt m f) [
    | yes below ↦ rw h.first (ground arith)
    | no above ↦
        let offset_eq = sub-Placed m h.placed b (omega arith) in
        let found = wrapper_at-Placed m h.placed b (omega arith) in
        rw (found, offset_eq, len-Placed h.placed)
          (ground (
            arith,
            h.first,
            h.count,
            get_elem?-none (w ∷ ws) (m - f),
            present_within (w ∷ ws) (m - f),
          ))
  ]

  -- `GetEntry` reads the slot of the packet number.
  pub get_entry-Settled :
      (p : Queue T) (f m : ℕ) (ws : List (EntryWrapper T))
      → Settled p f ws
      → m < 2 ^ 63
      → get_entry p (pos m) ≡ some (look f ws m)
  unfolding get_entry
  get_entry-Settled p f m ws s b =
      rw (get_entry_wrapper-Settled p f m ws s b) (ap some (look-eq-look_wrapper f m ws))

  -- A number below 0 lies before every packet.
  get_entry_negative :
      (p : Queue T) (f n : ℕ) (ws : List (EntryWrapper T))
      → Settled p f ws
      → get_entry p (negsuc n) ≡ some none
  unfolding get_entry get_entry_wrapper is_empty
  get_entry_negative p f n [] s = ground arith
  get_entry_negative p f n (w ∷ ws) (h, s) = rw h.first (ground arith)

  -- `GetEntry` does not panic for an `int64`: no packet lies 2^63 before it.
  pub get_entry-Returns :
      (p : Queue T) (k : ℤ)
      → Inv p
      → pos_part k < 2 ^ 63
      → (o : Option T) × (get_entry p k ≡ some o)
  get_entry-Returns p (pos m) i b =
      (look i.at_packet i.list m, get_entry-Settled p i.at_packet m i.list i.settled b)
  get_entry-Returns p (negsuc n) i b = (none, get_entry_negative p i.at_packet n i.list i.settled)
