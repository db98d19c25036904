-- ===== src/Brutal/Slots.antt =====
-- The slots of the sender are those of its history, and their sums those of the last five seconds.
use qperf_go.Prelude.{
  ℕ, ◌+◌, ◌%◌, ◌^◌, ◌<◌, ◌≡◌, ◌∙◌, ◌⊎◌, inl, inr, some, List, [], ◌∷◌, ltb, if◌then◌else◌, arith,
  u64, ℤ, pos, ltb_ℤ, ◌-i◌, -i_exact, -ℤ_parts,
}
use qperf_go.Brutal.{PktInfo, slot_of, count_in, count_packets, sum_recent, pkt_info_slot_count}
use qperf_go.Brutal.Recent.{
  Batch, recent, Ordered, latest, tally, of_slot, of_slots-recent, contribution,
}

abbrev pub acks_in : Batch → ℕ
acks_in e = e.acks

abbrev pub losses_in : Batch → ℕ
losses_in e = e.losses

abbrev pub slot_at : ℕ → List Batch → PktInfo
slot_at i es = record {
  timestamp = pos (latest i es);
  ack_count = tally acks_in i es;
  loss_count = tally losses_in i es;
}

abbrev pub slots_after : List Batch → List PktInfo
slots_after es = slot_at 0 es ∷ slot_at 1 es ∷ slot_at 2 es ∷ slot_at 3 es ∷ slot_at 4 es ∷ []

mod5_cases : (n : ℕ) → (n % 5 ≡ 0) ⊎ ((n % 5 ≡ 1) ⊎ ((n % 5 ≡ 2) ⊎ ((n % 5 ≡ 3) ⊎ (n % 5 ≡ 4))))
mod5_cases n = ground arith

-- The slots follow the history.
pub count_packets-slots_after :
    (e : Batch) (es : List Batch)
    → count_packets (slots_after es) (pos e.at) e.acks e.losses ≡ some (slots_after (e ∷ es))
unfolding count_packets slot_of count_in
count_packets-slots_after e es = elim (mod5_cases e.at) [
  | inl h ↦ rw h (ground arith)
  | inr (inl h) ↦ rw h (ground arith)
  | inr (inr (inl h)) ↦ rw h (ground arith)
  | inr (inr (inr (inl h))) ↦ rw h (ground arith)
  | inr (inr (inr (inr h))) ↦ rw h (ground arith)
]

min_second :
    (t n : ℕ) → n < 2 ^ 63 → ltb_ℤ (pos t) (pos n -i pos pkt_info_slot_count) ≡ ltb (t + 5) n
min_second t n h =
    let e = -i_exact (pos n) (pos 5) (omega arith) (omega arith) in
    rw e (ground (arith, -ℤ_parts (pos n) (pos 5)))

-- The sum without the wrap-around.
abbrev plain_sum : (PktInfo → ℕ) → ℤ → List PktInfo → ℕ
plain_sum count m [] = 0
plain_sum count m (info ∷ infos) =
    (if ltb_ℤ info.timestamp m then 0 else count info) + plain_sum count m infos

sum_recent-eq-plain_sum :
    (count : PktInfo → ℕ) (m : ℤ) (s : ℕ) (infos : List PktInfo)
    → s < 2 ^ 64
    → sum_recent count m s infos ≡ u64 (s + plain_sum count m infos)
unfolding sum_recent
sum_recent-eq-plain_sum count m s [] h = omega arith
sum_recent-eq-plain_sum count m s (info ∷ infos) h =
    let s' = if ltb_ℤ info.timestamp m then s else u64 (s + count info) in
    ground (arith, sum_recent-eq-plain_sum count m s' infos (ground arith))

-- Right after an event, the sums over the slots are those of the last five seconds.
pub sums :
    (g : Batch → ℕ) (count : PktInfo → ℕ) (e : Batch) (es : List Batch)
    → ((i : ℕ) → count (slot_at i (e ∷ es)) ≡ tally g i (e ∷ es))
    → Ordered e.at es
    → e.at < 2 ^ 63
    → sum_recent count (pos e.at -i pos pkt_info_slot_count) 0 (slots_after (e ∷ es))
      ≡ u64 (recent g e.at (e ∷ es))
sums g count e es c h b =
    let m = pos e.at -i pos pkt_info_slot_count in
    let part : (i : ℕ)
        → u64 (if ltb_ℤ (pos (latest i (e ∷ es))) m then 0 else count (slot_at i (e ∷ es)))
          ≡ u64 (of_slot g i e.at (e ∷ es)) =
      λ i. rw (min_second (latest i (e ∷ es)) e.at b, c i) (contribution g i e es h) in
    sum_recent-eq-plain_sum count m 0 (slots_after (e ∷ es)) (omega arith)
    ∙ omega (arith, part 0, part 1, part 2, part 3, part 4, of_slots-recent g e.at (e ∷ es))
