-- ===== src/PacketQueue/Append.antt =====
-- `Emplace` where it appends: the missing entries, then the new one.
use qperf_go.Prelude.{
  ℕ, zero, suc, ◌+◌, ◌-◌, ◌≤◌, ◌<◌, ◌≡◌, refl, ap, sym, ◌∙◌, true, none, some, List, [], ◌∷◌, ◌++◌,
  arith, ◌==◌, if◌then◌else◌, length, replicate, length-append, length-replicate, append_assoc,
  append-nil, pos,
}
use native.Mathlib.Decide.{dec_lt}
use qperf_go.RingBuffer.{RingBuffer, Zero, new_value, push_back}
use qperf_go.RingBuffer.Inv.{IsValid}
use qperf_go.RingBuffer.Window.{contents}
use qperf_go.RingBuffer.Refine.{push_back_refines}
use qperf_go.PacketQueue.{EntryWrapper, Queue, wrapper_zero, push_gap, append_entry}
use qperf_go.PacketQueue.Slots.{look, at, entry_of, count_present, at-append, count-append}
use qperf_go.PacketQueue.Inv.{Holds, packet-sub, max_packets}
use qperf_go.PacketQueue.Loops.{len-Placed}
use qperf_go.PacketQueue.Lookup.{sub-Placed}

count-replicate :
    (T : Type 0) ⦃z : Zero T⦄ (n : ℕ)
    → count_present (replicate {A = EntryWrapper T} n new_value) ≡ 0
count-replicate T zero = refl
count-replicate T (suc n) = omega (arith, count-replicate T n)

module _ {T : Type 0} ⦃z : Zero T⦄ where
  abbrev pub missing : EntryWrapper T
  missing = new_value

  push_gap_refines :
      (gap : ℕ) (r : RingBuffer (EntryWrapper T))
      → IsValid r
      → IsValid (push_gap gap r) × (contents (push_gap gap r) ≡ contents r ++ replicate gap missing)
  unfolding push_gap
  push_gap_refines zero r v = (v, sym (append-nil (contents r)))
  push_gap_refines (suc gap) r v =
      let pushed = push_back_refines r missing v in
      let rest = push_gap_refines gap (push_back r missing) pushed.0 in
      (
        rest.0,
        rest.1
            ∙ ap (λ l. l ++ replicate gap missing) pushed.1
            ∙ append_assoc (contents r) (missing ∷ []) (replicate gap missing),
      )

  at-replicate : (n i : ℕ) → at (replicate n missing) i ≡ none
  at-replicate zero i = refl
  at-replicate (suc n) zero = refl
  at-replicate (suc n) (suc i) = at-replicate n i

  -- The slots after an append at `k`: the old ones, the missing ones, the new one.
  abbrev pub extended : List (EntryWrapper T) → ℕ → T → List (EntryWrapper T)
  extended ws gap e = (ws ++ replicate gap missing) ++ (record { present = true; entry = e } ∷ [])

  length-extended :
      (ws : List (EntryWrapper T)) (gap : ℕ) (e : T)
      → length (extended ws gap e) ≡ length ws + gap + 1
  length-extended ws gap e = omega (
    arith,
    length-append (ws ++ replicate gap missing) (record { present = true; entry = e } ∷ []),
    length-append ws (replicate gap missing),
    length-replicate gap missing,
  )

  pub at_out : (ws : List (EntryWrapper T)) (i : ℕ) → length ws ≤ i → at ws i ≡ none
  at_out [] i h = refl
  at_out (w ∷ ws) zero h = absurd (omega arith)
  at_out (w ∷ ws) (suc i) h = at_out ws i (omega arith)

  pub at-single :
      (w : EntryWrapper T) (i : ℕ) → at (w ∷ []) i ≡ (if i == 0 then entry_of w else none)
  at-single w zero = refl
  at-single w (suc i) = ground arith

  at-extended :
      (gap i : ℕ) (ws : List (EntryWrapper T)) (e : T)
      → at (extended ws gap e) i ≡ (if i == (length ws + gap) then some e else at ws i)
  at-extended gap i ws e =
      let new : EntryWrapper T = record { present = true; entry = e } in
      elim (dec_lt i (length ws + gap)) [
        | yes before ↦ ground (
          arith,
          at-append (ws ++ replicate gap missing) (new ∷ []) i,
          at-append ws (replicate gap missing) i,
          at-replicate gap (i - length ws),
          at_out ws i,
          length-append ws (replicate gap missing),
          length-replicate gap missing,
        )
        | no not_before ↦ ground (
          arith,
          at-append (ws ++ replicate gap missing) (new ∷ []) i,
          at-single new (i - length (ws ++ replicate gap missing)),
          at_out ws i,
          length-append ws (replicate gap missing),
          length-replicate gap missing,
        )
      ]

  pub look-extended :
      (f k m gap : ℕ) (ws : List (EntryWrapper T)) (e : T)
      → k ≡ f + length ws + gap
      → look f (extended ws gap e) m ≡ (if m == k then some e else look f ws m)
  look-extended f k m gap ws e h = ground (arith, at-extended gap (m - f) ws e)

  pub append_entry-Holds :
      (p : Queue T) (f k : ℕ) (ws : List (EntryWrapper T)) (e : T)
      → Holds p f ws
      → k < max_packets
      → f + length ws ≤ k
      → Holds (append_entry p (pos k) e) f (extended ws (k - f - length ws) e)
  unfolding append_entry
  append_entry-Holds p f k ws e h b le =
      let gap = k - f - length ws in
      let new : EntryWrapper T = record { present = true; entry = e } in
      let gapped = push_gap_refines gap p.entries h.valid in
      let pushed = push_back_refines (push_gap gap p.entries) new gapped.0 in
      rw
        (
          sub-Placed k h.placed (omega arith) (omega arith),
          len-Placed h.placed,
          packet-sub (k - f) (length ws) (omega arith) (omega arith),
        )
        (record {
          placed = record {
            valid = pushed.0;
            same =
                pushed.1
                ∙ ap (λ l. l ++ (new ∷ []))
                    (gapped.1 ∙ ap (λ l. l ++ replicate gap missing) h.same);
            first = h.first;
            bound = omega (arith, length-extended ws gap e);
          };
          count = omega (
            arith,
            count-append (ws ++ replicate gap missing) (new ∷ []),
            count-append ws (replicate gap missing),
            count-replicate T gap,
            h.count,
          );
        })
