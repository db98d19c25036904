-- ===== src/PacketQueue/Remove.antt =====
-- `Remove` and `RemoveUpTo`, against what `GetEntry` returns afterwards.
use qperf_go.Prelude.{
  ℕ, ◌-◌, ◌^◌, ◌≤◌, ◌<◌, ◌≡◌, refl, ap, sym, ◌∙◌, true, false, Option, none, some, List, [], ◌∷◌,
  arith, ◌==◌, if◌then◌else◌, if-some, get_elem?, set, ℤ, pos, ltb_ℤ, eqb_ℤ, get_elem?-some_lt,
}
use native.Mathlib.Decide.{ℕ_discrete}
use qperf_go.RingBuffer.{Zero}
use qperf_go.PacketQueue.{
  EntryWrapper, Queue, wrapper_zero, entry_only, get_entry, mark_absent, remove_found,
  remove_result, remove, remove_up_to,
}
use qperf_go.PacketQueue.Slots.{look, drop_absent, drop_below, look-drop_absent, look-drop_below}
use qperf_go.PacketQueue.Inv.{Inv, Settled, Holds}
use qperf_go.PacketQueue.Loops.{clearup-Settled}
use qperf_go.PacketQueue.Lookup.{
  look_wrapper, look-eq-look_wrapper, get_entry_wrapper-Settled, get_entry-Settled,
}
use qperf_go.PacketQueue.Marking.{
  remove_up_to-unused, remove_up_to-Settled, mark_absent-Holds, look-set_absent, look_wrapper-some,
  behind_front,
}

module _ {T : Type 0} ⦃z : Zero T⦄ where
  -- What `look` shows after `Remove` has marked number `k`, with or without `clearup`.
  record Removed (q : Queue T) (f k : ℕ) (ws : List (EntryWrapper T)) : Type 0 where
    start : ℕ
    rest : List (EntryWrapper T)
    settled : Settled q start rest
    shows : (m : ℕ) → look start rest m ≡ (if m == k then none else look f ws m)

  remove_found-Removed :
      (p : Queue T) (f k : ℕ) (ws : List (EntryWrapper T)) (w : EntryWrapper T)
      → Settled p f ws
      → Holds p f ws
      → k < 2 ^ 63
      → f ≤ k
      → get_elem? ws (k - f) ≡ some w
      → w.present ≡ true
      → Removed (remove_found p (pos k) w) f k ws
  unfolding remove_found
  remove_found-Removed p f k [] w s h b le e here = absurd (cc)
  remove_found-Removed p f k (v ∷ vs) w s h b le e here = elim (ℕ_discrete k f) [
    | yes front ↦
        let test : eqb_ℤ (pos k) (mark_absent p (pos k) w).first_packet ≡ true =
          rw marked.first (ground arith) in
        rw (test) (record {
          start = (drop_absent f slots_left).0;
          rest = (drop_absent f slots_left).1;
          settled = clearup-Settled slots_left marked;
          shows = λ m. look-drop_absent f m slots_left ∙ unmarked m;
        })
    | no behind ↦
        let test : eqb_ℤ (pos k) (mark_absent p (pos k) w).first_packet ≡ false =
          rw marked.first (ground arith) in
        rw test (record {
          start = f;
          rest = slots_left;
          settled = behind_front _ f (k - f) v vs _ (omega arith) marked s.1;
          shows = unmarked;
        })
  ]
    where
      slots_left : List (EntryWrapper T)
      slots_left = set (v ∷ vs) (k - f) (record w { present = false })

      marked : Holds (mark_absent p (pos k) w) f slots_left
      marked = mark_absent-Holds p f k (v ∷ vs) w h b le e here

      unmarked : (m : ℕ) → look f slots_left m ≡ (if m == k then none else look f (v ∷ vs) m)
      unmarked m =
          look-set_absent f m k (v ∷ vs) (record w { present = false }) le
            (get_elem?-some_lt (v ∷ vs) (k - f) e) refl

  unchanged :
      (f k m : ℕ) (ws : List (EntryWrapper T))
      → look f ws k ≡ none
      → look f ws m ≡ (if m == k then none else look f ws m)
  unchanged f k m ws e = elim (ℕ_discrete m k) [
    | yes same ↦ let test : (m == k) ≡ true = ground arith in rw test (ap (look f ws) same ∙ e)
    | no other ↦ let test : (m == k) ≡ false = ground arith in rw test
  ]

  remove_by_wrapper :
      (p : Queue T) (f k : ℕ) (ws : List (EntryWrapper T)) (o : Option (EntryWrapper T))
      → Settled p f ws
      → k < 2 ^ 63
      → look_wrapper f ws k ≡ o
      → Removed (remove_result p (pos k) o).0 f k ws × ((remove_result p (pos k) o).1 ≡ look f ws k)
  remove_by_wrapper p f k ws none s b e =
      let absent = sym (look-eq-look_wrapper f k ws) ∙ ap entry_only e in
      (
        record { start = f; rest = ws; settled = s; shows = λ m. unchanged f k m ws absent },
        sym absent,
      )
  remove_by_wrapper p f k [] (some w) s b e = absurd (ground arith)
  remove_by_wrapper p f k (v ∷ vs) (some w) s b e =
      let (le, at_k, here) = look_wrapper-some f k (v ∷ vs) w e in
      (
        remove_found-Removed p f k (v ∷ vs) w s s.0 b le at_k here,
        sym (ap entry_only e) ∙ look-eq-look_wrapper f k (v ∷ vs),
      )

  -- What `Remove` of number `k` returns: the queue, and the entry that `f` is called with.
  pub record Removes (p : Queue T) (k : ℕ) : Type 0 where
    pub queue : Queue T
    pub entry : Option T
    pub returns : remove p (pos k) ≡ some (queue, entry)
    pub inv : Inv queue
    pub found : get_entry p (pos k) ≡ some entry
    pub shows :
        (m : ℕ)
        → m < 2 ^ 63
        → get_entry queue (pos m) ≡ (if m == k then some none else get_entry p (pos m))

  -- `Remove` returns, and calls `f` with exactly the entry that `GetEntry` returns, none where there is
  -- none; afterwards the queue keeps its invariant, that number is absent, and every other number is
  -- as it was.
  pub remove_lem : (p : Queue T) (k : ℕ) → Inv p → k < 2 ^ 63 → Removes p k
  unfolding remove
  remove_lem p k i b =
      let f = i.at_packet in
      let ws = i.list in
      let s = i.settled in
      let (r, e) = remove_by_wrapper p f k ws (look_wrapper f ws k) s b refl in
      record {
        queue = (remove_result p (pos k) (look_wrapper f ws k)).0;
        entry = (remove_result p (pos k) (look_wrapper f ws k)).1;
        returns = rw (get_entry_wrapper-Settled p f k ws s b);
        inv = record { at_packet = r.start; list = r.rest; settled = r.settled };
        found = get_entry-Settled p f k ws s b ∙ ap some (sym e);
        shows = λ m c.
            get_entry-Settled _ r.start m r.rest r.settled c
            ∙ ap some (r.shows m)
            ∙ if-some (m == k) none (look f ws m)
            ∙ ap (λ out. if m == k then some none else out) (sym (get_entry-Settled p f m ws s c));
      }

  -- `RemoveUpTo` makes the numbers below its argument absent, and leaves all others as they were.
  pub remove_up_to_lem :
      (p : Queue T) (n : ℤ)
      → Inv p
      → Inv (remove_up_to p n)
        × ((m : ℕ)
            → m < 2 ^ 63
            → get_entry (remove_up_to p n) (pos m)
              ≡ (if ltb_ℤ (pos m) n then some none else get_entry p (pos m)))
  remove_up_to_lem p n i = by_slots i.at_packet i.list i.settled
    where
      by_slots :
          (f : ℕ) (ws : List (EntryWrapper T))
          → Settled p f ws
          → Inv (remove_up_to p n)
            × ((m : ℕ)
                → m < 2 ^ 63
                → get_entry (remove_up_to p n) (pos m)
                  ≡ (if ltb_ℤ (pos m) n then some none else get_entry p (pos m)))
      by_slots f [] s =
          let t = remove_up_to-unused p n f s in
          (
            record { at_packet = f; list = []; settled = t },
            λ m c. ground (
              arith,
              get_entry-Settled (remove_up_to p n) f m [] t c,
              get_entry-Settled p f m [] s c,
            ),
          )
      by_slots f (w ∷ ws) (h, s) =
          let t = remove_up_to-Settled p n f (w ∷ ws) h in
          let g = drop_below n f (w ∷ ws) in
          (
            record {
              at_packet = (drop_absent g.0 g.1).0;
              list = (drop_absent g.0 g.1).1;
              settled = t;
            },
            λ m c.
                get_entry-Settled (remove_up_to p n) _ m _ t c
                ∙ ap some (look-drop_absent g.0 m g.1 ∙ look-drop_below n f m (w ∷ ws))
                ∙ if-some (ltb_ℤ (pos m) n) none (look f (w ∷ ws) m)
                ∙ ap (λ out. if ltb_ℤ (pos m) n then some none else out)
                    (sym (get_entry-Settled p f m (w ∷ ws) (h, s) c)),
          )
