-- ===== src/State/Outcomes.antt =====
-- What any sequence of calls of a new state comes to.
use qperf_go.Prelude.{
  ℕ, ◌+◌, ◌^◌, ◌≤◌, ◌<◌, ◌≡◌, ◌↔◌, none-neq-some, refl, none, some, List, ◌∷◌, arith, u64, sym, ◌∙◌,
  inl, inr, ◌==◌, if◌then◌else◌,
}
use qperf_go.Sampler.Safety.{Returns}
use qperf_go.State.{total, State, sub_u64, get_and_reset_report, get_first_byte_time}
use qperf_go.State.Calls.{Call, run}
use qperf_go.State.Reports.{
  bytes_in, packets_in, reported_bytes, reported_packets, Counts, report-Counts,
}
use qperf_go.State.Steps.{Positive, first_arrival, OnceSet, Arrived, Twice, start, all-Ran}

once : {count time : ℕ} → OnceSet count time → count ≤ 1
once (inl (c, z)) = omega arith
once (inr (c, z)) = omega arith

-- With a clock that is never at the zero time: a sequence of calls of a new state that add bytes or
-- packets, make reports, or record the start or the establishment, panics exactly if it records the
-- start twice or the establishment twice.
pub panics_lem : (xs : List Call) → Positive xs → (run start xs ≡ none) ↔ Twice xs
panics_lem xs h = elim (all-Ran xs h) [
  | inl (e, t) ↦ (λ q. t, λ q. e)
  | inr (o, e, g) ↦ (
    λ q. absurd (none-neq-some (sym q ∙ e)),
    λ q. elim q [
      | inl t ↦ absurd (omega (arith, once g.start))
      | inr t ↦ absurd (omega (arith, once g.establishment))
    ],
  )
]

balanced :
    (added total last reports : ℕ)
    → Counts added total last reports
    → (total ≡ u64 added) × (u64 (reports + sub_u64 total last) ≡ u64 added)
balanced added total last reports c =
    let r = report-Counts added total last reports c in (c.total_is, sym r.last_is ∙ c.total_is)

-- With a clock that is never at the zero time, and the start and the establishment recorded at most
-- once: the calls return, Total is the sum of all bytes and packets added, modulo 2^64, and at any
-- time the reports so far and one more sum up to the same.
pub accounts_lem :
    (xs : List Call)
    → Positive xs
    → ¬ Twice xs
    → Returns
        (λ o.
          (total o.0 ≡ (u64 (bytes_in xs), u64 (packets_in xs)))
          × ((now : ℕ)
              → (u64 (reported_bytes ((get_and_reset_report o.0 now).0 ∷ o.1)) ≡ u64 (bytes_in xs))
                × (u64 (reported_packets ((get_and_reset_report o.0 now).0 ∷ o.1))
                    ≡ u64 (packets_in xs))))
        (run start xs)
unfolding get_and_reset_report
accounts_lem xs h n = elim (all-Ran xs h) [
  | inl (e, t) ↦ absurd (n t)
  | inr (o, e, g) ↦
      let b =
        balanced (bytes_in xs) o.0.total_received_bytes o.0.last_report_received_bytes
          (reported_bytes o.1) g.accounted.0 in
      let p =
        balanced (packets_in xs) o.0.total_received_packets o.0.last_report_received_packets
          (reported_packets o.1) g.accounted.1 in
      (o, e, (rw (b.0, p.0) refl, λ now. (b.1, p.1)))
]

found :
    {time first received : ℕ} (s : State)
    → s.first_byte_time ≡ time
    → Arrived received first time
    → get_first_byte_time s ≡ (if received == 0 then none else some first)
unfolding get_first_byte_time
found s e (inl (z, f)) = ground arith
found s e (inr (p, q, f)) = ground arith

-- With a clock that is never at the zero time, the start and the establishment recorded at most once
-- and fewer than 2^64 bytes: the calls return, and then GetFirstByteTime panics if no byte was added,
-- and otherwise answers the time of the earliest call that added one.
pub first_byte_lem :
    (xs : List Call)
    → Positive xs
    → ¬ Twice xs
    → bytes_in xs < 2 ^ 64
    → Returns
        (λ o.
          get_first_byte_time o.0 ≡ (if bytes_in xs == 0 then none else some (first_arrival xs)))
        (run start xs)
first_byte_lem xs h n l = elim (all-Ran xs h) [
  | inl (e, t) ↦ absurd (n t)
  | inr (o, e, g) ↦ (o, e, found o.0 refl (g.arrival l))
]
