-- ===== src/State/Steps.antt =====
-- What a sequence of calls of a new state keeps, call by call.
use qperf_go.Prelude.{
  ℕ, suc, ◌+◌, ◌^◌, ◌≤◌, ◌<◌, ◌≡◌, refl, Option, none, some, List, [], ◌∷◌, arith, u64, inl, inr,
  ◌⊎◌, Bool-cases, true, false, ◌==◌, if◌then◌else◌,
}
use qperf_go.Prelude.Time.{is_zero_time}
use qperf_go.State.{
  State, new_state, add_received_bytes, add_received_packets, get_and_reset_report, set_start_time,
  set_establishment_time,
}
use qperf_go.State.Calls.{
  Call, bytes, packets, report, started, established, Outcome, with_reports, step, run,
}
use qperf_go.State.Reports.{
  bytes_in, packets_in, reported_bytes, reported_packets, Accounted, add-Counts, report-Counts,
}

-- How often the start and the establishment were recorded.
abbrev pub starts : List Call → ℕ
starts [] = 0
starts (started now ∷ xs) = suc (starts xs)
starts (bytes n now ∷ xs) = starts xs
starts (packets n ∷ xs) = starts xs
starts (report now ∷ xs) = starts xs
starts (established now ∷ xs) = starts xs

abbrev pub establishments : List Call → ℕ
establishments [] = 0
establishments (established now ∷ xs) = suc (establishments xs)
establishments (bytes n now ∷ xs) = establishments xs
establishments (packets n ∷ xs) = establishments xs
establishments (report now ∷ xs) = establishments xs
establishments (started now ∷ xs) = establishments xs

-- The clock never answers the zero time.
abbrev pub Positive : List Call → Type 0
Positive [] = 0 ≤ 0
Positive (bytes n now ∷ xs) = (0 < now) × Positive xs
Positive (packets n ∷ xs) = Positive xs
Positive (report now ∷ xs) = Positive xs
Positive (started now ∷ xs) = (0 < now) × Positive xs
Positive (established now ∷ xs) = (0 < now) × Positive xs

-- When the first byte came: the time of the earliest call that adds one, or 0.
abbrev pub first_arrival : List Call → ℕ
first_arrival [] = 0
first_arrival (bytes n now ∷ xs) =
    if bytes_in xs == 0 then (if n == 0 then 0 else now) else first_arrival xs
first_arrival (packets n ∷ xs) = first_arrival xs
first_arrival (report now ∷ xs) = first_arrival xs
first_arrival (started now ∷ xs) = first_arrival xs
first_arrival (established now ∷ xs) = first_arrival xs

-- A time that is recorded once: not yet, or at a time that is not zero.
abbrev pub OnceSet : ℕ → ℕ → Type 0
OnceSet count time = ((count ≡ 0) × (time ≡ 0)) ⊎ ((count ≡ 1) × (0 < time))

-- The first byte time, once all bytes are known.
abbrev pub Arrived : ℕ → ℕ → ℕ → Type 0
Arrived received first time =
    ((received ≡ 0) × (time ≡ 0)) ⊎ ((0 < received) × (0 < time) × (time ≡ first))

pub record Good (xs : List Call) (o : Outcome) : Type 0 where
  pub accounted : Accounted xs o
  pub start : OnceSet (starts xs) o.0.start_time
  pub establishment : OnceSet (establishments xs) o.0.establishment_time
  pub arrival : bytes_in xs < 2 ^ 64 → Arrived (bytes_in xs) (first_arrival xs) o.0.first_byte_time

abbrev pub Twice : List Call → Type 0
Twice xs = (2 ≤ starts xs) ⊎ (2 ≤ establishments xs)

abbrev pub Ran : List Call → Option Outcome → Type 0
Ran xs r = ((r ≡ none) × Twice xs) ⊎ ((o : Outcome) × (r ≡ some o) × Good xs o)

arrive :
    (n now : ℕ) (xs : List Call) (s : State)
    → 0 < now
    → bytes_in xs + n < 2 ^ 64
    → s.total_received_bytes ≡ u64 (bytes_in xs)
    → Arrived (bytes_in xs) (first_arrival xs) s.first_byte_time
    → Arrived
        (bytes_in xs + n)
        (first_arrival (bytes n now ∷ xs))
        (add_received_bytes s n now).first_byte_time
unfolding add_received_bytes
arrive n now xs s t l e (inl (z, f)) = elim (Bool-cases (n == 0)) [
  | inl h ↦ inl (ground arith)
  | inr h ↦ inr (ground arith)
]
arrive n now xs s t l e (inr (p, q, f)) = inr (ground arith, ground arith, ground arith)

bytes-Good :
    (n now : ℕ) (xs : List Call) (o : Outcome)
    → 0 < now
    → Good xs o
    → Good (bytes n now ∷ xs) (add_received_bytes o.0 n now, o.1)
unfolding add_received_bytes
bytes-Good n now xs o t g = record {
  accounted = (
    add-Counts (bytes_in xs) o.0.total_received_bytes o.0.last_report_received_bytes
        (reported_bytes o.1) n g.accounted.0,
    g.accounted.1,
  );
  start = g.start;
  establishment = g.establishment;
  arrival = λ l. arrive n now xs o.0 t l g.accounted.0.total_is (g.arrival (omega arith));
}

packets-Good :
    (n : ℕ) (xs : List Call) (o : Outcome)
    → Good xs o
    → Good (packets n ∷ xs) (add_received_packets o.0 n, o.1)
unfolding add_received_packets
packets-Good n xs o g = record {
  accounted = (
    g.accounted.0,
    add-Counts (packets_in xs) o.0.total_received_packets o.0.last_report_received_packets
        (reported_packets o.1) n g.accounted.1,
  );
  start = g.start;
  establishment = g.establishment;
  arrival = g.arrival;
}

report-Good :
    (now : ℕ) (xs : List Call) (o : Outcome)
    → Good xs o
    → Good
        (report now ∷ xs)
        ((get_and_reset_report o.0 now).1, (get_and_reset_report o.0 now).0 ∷ o.1)
unfolding get_and_reset_report
report-Good now xs o g = record {
  accounted = (
    report-Counts (bytes_in xs) o.0.total_received_bytes o.0.last_report_received_bytes
        (reported_bytes o.1) g.accounted.0,
    report-Counts (packets_in xs) o.0.total_received_packets o.0.last_report_received_packets
        (reported_packets o.1) g.accounted.1,
  );
  start = g.start;
  establishment = g.establishment;
  arrival = g.arrival;
}

started-Ran :
    (now : ℕ) (xs : List Call) (o : Outcome)
    → 0 < now
    → Good xs o
    → Ran (started now ∷ xs) (with_reports o.1 (set_start_time o.0 now))
unfolding set_start_time
started-Ran now xs o t g = elim g.start [
  | inl (c, z) ↦
      let e : is_zero_time o.0.start_time ≡ true = ground (arith, z) in
      inr (
        (record o.0 { start_time = now }, o.1),
        rw e refl,
        record {
          accounted = g.accounted;
          start = inr (omega arith, t);
          establishment = g.establishment;
          arrival = g.arrival;
        },
      )
  | inr (c, p) ↦
      let e : is_zero_time o.0.start_time ≡ false = ground (arith, p) in
      inl (rw e refl, inl (omega arith))
]

established-Ran :
    (now : ℕ) (xs : List Call) (o : Outcome)
    → 0 < now
    → Good xs o
    → Ran (established now ∷ xs) (with_reports o.1 (set_establishment_time o.0 now))
unfolding set_establishment_time
established-Ran now xs o t g = elim g.establishment [
  | inl (c, z) ↦
      let e : is_zero_time o.0.establishment_time ≡ true = ground (arith, z) in
      inr (
        (record o.0 { establishment_time = now }, o.1),
        rw e refl,
        record {
          accounted = g.accounted;
          start = g.start;
          establishment = inr (omega arith, t);
          arrival = g.arrival;
        },
      )
  | inr (c, p) ↦
      let e : is_zero_time o.0.establishment_time ≡ false = ground (arith, p) in
      inl (rw e refl, inr (omega arith))
]

step-Ran :
    (x : Call) (xs : List Call) (o : Outcome)
    → Positive (x ∷ xs)
    → Good xs o
    → Ran (x ∷ xs) (step o x)
unfolding step
step-Ran (bytes n now) xs o t g = inr (_, refl, bytes-Good n now xs o t.0 g)
step-Ran (packets n) xs o t g = inr (_, refl, packets-Good n xs o g)
step-Ran (report now) xs o t g = inr (_, refl, report-Good now xs o g)
step-Ran (started now) xs o t g = started-Ran now xs o t.0 g
step-Ran (established now) xs o t g = established-Ran now xs o t.0 g

later-Twice : (x : Call) (xs : List Call) → Twice xs → Twice (x ∷ xs)
later-Twice (bytes n now) xs h = h
later-Twice (packets n) xs h = h
later-Twice (report now) xs h = h
later-Twice (started now) xs (inl h) = inl (omega arith)
later-Twice (started now) xs (inr h) = inr h
later-Twice (established now) xs (inl h) = inl h
later-Twice (established now) xs (inr h) = inr (omega arith)

earlier-Positive : (x : Call) (xs : List Call) → Positive (x ∷ xs) → Positive xs
earlier-Positive (bytes n now) xs h = h.1
earlier-Positive (packets n) xs h = h
earlier-Positive (report now) xs h = h
earlier-Positive (started now) xs h = h.1
earlier-Positive (established now) xs h = h.1

abbrev pub start : Outcome
start = (new_state, [])

pub all-Ran : (xs : List Call) → Positive xs → Ran xs (run start xs)
unfolding run
all-Ran [] h = inr (
  start,
  refl,
  record {
    accounted = (
      record { total_is = refl; last_is = refl; small = omega arith },
      record { total_is = refl; last_is = refl; small = omega arith },
    );
    start = inl (refl, refl);
    establishment = inl (refl, refl);
    arrival = λ l. inl (refl, refl);
  },
)
all-Ran (x ∷ xs) h = elim (all-Ran xs (earlier-Positive x xs h)) [
  | inl (e, t) ↦ inl (rw e refl, later-Twice x xs t)
  | inr (o, e, g) ↦ rw e (step-Ran x xs o h g)
]
