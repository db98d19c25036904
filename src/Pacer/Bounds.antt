-- ===== src/Pacer/Bounds.antt =====
-- What the budget is at most, and that it is never negative.
use qperf_go.Prelude.{
  ℕ, ◌*◌, ◌^◌, ◌<◌, ◌≤ℤ◌, ◌≡◌, refl, ℤ, pos, pos_part, ltb_ℤ, if◌then◌else◌, ◌+i◌, ◌-i◌, ◌*i◌, ◌-ℤ◌,
  -i_exact, -ℤ_parts, *i_pos, i64-InI64, div_i-small, arith, parts_zero, Bool-cases, inl, inr, ◌∙◌,
  max_ℤ, ◌*ℤ◌, subst, sym,
}
use qperf_go.Prelude.Time.{second, millisecond}
use qperf_go.Pacer.{
  Pacer, max_burst_packets, max_byte_count, min_byte_count, max_burst_size, grown_budget, budget,
  sent_packet,
}

minus_clamped : (a : ℤ) → pos 0 ≤ℤ a → a ≡ max_ℤ (pos 0) a
unfolding max_ℤ
minus_clamped a h = ground arith

clamped_zero : (a : ℤ) → a ≤ℤ pos 0 → pos 0 ≡ max_ℤ (pos 0) a
unfolding max_ℤ
clamped_zero a h = ground arith

spend :
    (a : ℤ) (n : ℕ)
    → pos 0 ≤ℤ a
    → pos_part a < 2 ^ 63
    → (if ltb_ℤ a (pos n) then pos 0 else a -i pos n) ≡ max_ℤ (pos 0) (a -ℤ pos n)
spend a n h k = elim (Bool-cases (ltb_ℤ a (pos n))) [
  | inl t ↦ rw t (clamped_zero (a -ℤ pos n) (ground (arith, -ℤ_parts a (pos n))))
  | inr t ↦ rw t (
      -i_exact a (pos n) (ground arith) (ground arith)
      ∙ minus_clamped (a -ℤ pos n) (ground (arith, -ℤ_parts a (pos n))))
]

module _ (min_pacing_delay : ℤ) (bandwidth : ℤ) where
  -- A burst is never less than ten datagrams, whatever overflows, and is an `int64`.
  burst-bounds :
      (p : Pacer) (d : ℕ)
      → p.max_datagram_size ≡ pos d
      → d < 2 ^ 59
      → (pos (10 * d) ≤ℤ max_burst_size min_pacing_delay p bandwidth)
        × (pos_part (max_burst_size min_pacing_delay p bandwidth) < 2 ^ 63)
  unfolding max_burst_size max_byte_count ◌*i◌
  burst-bounds p d e h =
      let product = (min_pacing_delay +i pos millisecond) *i bandwidth in
      let small =
        div_i-small product second (omega arith)
          (i64-InI64 ((min_pacing_delay +i pos millisecond) *ℤ bandwidth)).0 in
      let ten : max_burst_packets *i p.max_datagram_size ≡ pos (10 * d) =
        subst (λ m. max_burst_packets *i m ≡ pos (10 * d)) (sym e) (*i_pos 10 d (omega arith)) in
      rw ten (ground (arith, small))

  -- For a datagram size from 0 to below 2^59, at any bandwidth and any times, overflowing products
  -- included, the budget lies between 0 and the size of a burst.
  budget-bounds :
      (p : Pacer) (now : ℕ) (d : ℕ)
      → p.max_datagram_size ≡ pos d
      → d < 2 ^ 59
      → (pos 0 ≤ℤ budget min_pacing_delay p bandwidth now)
        × (budget min_pacing_delay p bandwidth now ≤ℤ max_burst_size min_pacing_delay p bandwidth)
  unfolding budget min_byte_count grown_budget
  budget-bounds p now d e h = ground (arith, burst-bounds p d e h)

  -- What sending a packet leaves of the budget.
  pub record Spent (p : Pacer) (now size : ℕ) (q : Pacer) : Type 0 where
    pub low : pos 0 ≤ℤ budget min_pacing_delay p bandwidth now
    pub high :
        budget min_pacing_delay p bandwidth now ≤ℤ max_burst_size min_pacing_delay p bandwidth
    pub rest :
        q.budget_at_last_sent ≡ max_ℤ (pos 0) (budget min_pacing_delay p bandwidth now -ℤ pos size)
    pub time : q.last_sent_time ≡ now

  -- For a datagram size below 2^59, at any bandwidth and any times, overflowing products included:
  -- the budget lies between 0 and the size of a burst, and a packet takes its size from it, down to 0.
  pub sent_packet_lem :
      (p : Pacer) (d now size : ℕ)
      → p.max_datagram_size ≡ pos d
      → d < 2 ^ 59
      → Spent p now size (sent_packet min_pacing_delay p bandwidth now (pos size))
  unfolding sent_packet
  sent_packet_lem p d now size e h =
      let a = budget min_pacing_delay p bandwidth now in
      let b = budget-bounds p now d e h in
      let s = burst-bounds p d e h in
      record {
        low = b.0;
        high = b.1;
        rest = spend a size b.0 (ground (arith, b.0, b.1, s.1, parts_zero a));
        time = refl;
      }
