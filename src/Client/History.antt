-- ===== src/Client/History.antt =====
-- The history and the total of a transfer.
use qperf_go.Prelude.{
  ℕ, ◌+◌, ◌^◌, ◌<◌, ◌≤◌, ◌≡◌, refl, sym, ◌∙◌, subst, List, [], ◌∷◌, ◌++◌, false, ◌==◌, arith, u64,
  ap, ◌≢◌, ℤ,
}
use qperf_go.Prelude.Float.{Float64}
use qperf_go.Prelude.Time.{is_zero_time}
use qperf_go.Sampler.Safety.{Returns}
use qperf_go.State.{State, add_received_bytes, get_and_reset_report, get_first_byte_time}
use qperf_go.State.Reports.{Counts, add-Counts, report-Counts}
use qperf_go.Client.{
  ReadError, no_error, Read, first_byte, first_read, read_or_fail, receive_first_byte, States,
  reading, returned, panicked, Loop, report_step, Client, after_error, receive, history_entry,
  add_report, report, Turn, read, report_at, receive_step, step, run,
}

abbrev pub received_in : List Turn → ℕ
received_in [] = 0
received_in (read r ∷ ts) = received_in ts + r.received
received_in (report_at now later ∷ ts) = received_in ts

abbrev pub bytes_of : {F : Type 0} → List (States F) → ℕ
bytes_of [] = 0
bytes_of (h ∷ hs) = bytes_of hs + h.bytes

-- Reads that go on: no error, or an application error other than the end of the run.
abbrev pub GoesOn : ReadError → Type 0
GoesOn e = after_error e ≡ reading

abbrev pub GoOn : List Turn → Type 0
GoOn [] = 0 ≤ 0
GoOn (read r ∷ ts) = GoesOn r.error × GoOn ts
GoOn (report_at now later ∷ ts) = GoOn ts

-- The reads before the first byte have neither an error nor bytes.
abbrev pub Empty : List Read → Type 0
Empty [] = 0 ≤ 0
Empty (r ∷ rs) = (r.error ≡ no_error) × (r.received ≡ 0) × Empty rs

skip-Empty :
    (s : State) (es : List Read) (r : Read) (rs : List Read)
    → Empty es
    → r.error ≡ no_error
    → (r.received == 0) ≡ false
    → receive_first_byte s (es ++ (r ∷ rs)) ≡ first_byte (add_received_bytes s r.received r.now) rs
unfolding receive_first_byte read_or_fail first_read
skip-Empty s [] r rs h e n = rw (e, n) refl
skip-Empty s (x ∷ es) r rs h e n = rw (h.0, h.1) (skip-Empty s es r rs h.2 e n)

arrival-kept :
    (s : State) (n now : ℕ)
    → 0 < s.first_byte_time
    → (add_received_bytes s n now).first_byte_time ≡ s.first_byte_time
unfolding add_received_bytes
arrival-kept s n now h = ground (arith, h)

-- A state of `Run` before its first byte: the start and the establishment may be recorded.
pub record Unheard (s : State) : Type 0 where
  pub arrival : s.first_byte_time ≡ 0
  pub total : s.total_received_bytes ≡ 0
  pub last : s.last_report_received_bytes ≡ 0

first_arrives :
    (s : State) (n now : ℕ)
    → Unheard s
    → (n == 0) ≡ false
    → n < 2 ^ 64
    → 0 < now
    → 0 < (add_received_bytes s n now).first_byte_time
unfolding add_received_bytes
first_arrives s n now v h l t = ground (arith, h, l, t, v.arrival, v.total)

first-Counts :
    (s : State) (n now : ℕ)
    → Unheard s
    → Counts
        (n + 0)
        (add_received_bytes s n now).total_received_bytes
        s.last_report_received_bytes
        0
unfolding add_received_bytes
first-Counts s n now v =
    rw (v.total, v.last) (record { total_is = omega arith; last_is = refl; small = omega arith })

module _ {F : Type 0} where
  abbrev CountsOf : ℕ → Client F → Type 0
  CountsOf n c =
      Counts n c.state.total_received_bytes c.state.last_report_received_bytes
        (bytes_of c.states_history)

  record Kept (ts : List Turn) (before : ℕ) (c : Client F) : Type 0 where
    counts : CountsOf (before + received_in ts) c
    loop : c.loop ≡ reading
    arrived : 0 < c.state.first_byte_time

  -- A client whose first byte came with the state `s`.
  abbrev pub begun : State → Client F
  begun s = record { state = s; states_history = []; loop = reading }

  receive-counts :
      (ts : List Turn) (before : ℕ) (c : Client F) (r : Read)
      → CountsOf (before + received_in ts) c
      → CountsOf (before + received_in (read r ∷ ts)) (receive c r)
  unfolding receive add_received_bytes
  receive-counts ts before c r k =
      subst
        (λ n.
          Counts n (u64 (c.state.total_received_bytes + r.received))
            c.state.last_report_received_bytes (bytes_of c.states_history))
        (omega arith)
        (add-Counts (before + received_in ts) c.state.total_received_bytes
          c.state.last_report_received_bytes (bytes_of c.states_history) r.received k)

  receive-Kept :
      (ts : List Turn) (before : ℕ) (c : Client F) (r : Read)
      → GoesOn r.error
      → Kept ts before c
      → Kept (read r ∷ ts) before (receive c r)
  unfolding receive
  receive-Kept ts before c r h k = record {
    counts = receive-counts ts before c r k.counts;
    loop = h;
    arrived = rw (arrival-kept c.state r.received r.now k.arrived) k.arrived;
  }

  first-Kept :
      (s : State) (r : Read)
      → Unheard s
      → (r.received == 0) ≡ false
      → r.received < 2 ^ 64
      → 0 < r.now
      → Kept [] r.received (begun (add_received_bytes s r.received r.now))
  unfolding add_received_bytes
  first-Kept s r v h l t = record {
    counts = first-Counts s r.received r.now v;
    loop = refl;
    arrived = first_arrives s r.received r.now v h l t;
  }

  receive-loop : (c : Client F) (l : Read) → (receive c l).loop ≡ after_error l.error
  unfolding receive
  receive-loop c l = refl

  receive-arrived :
      (c : Client F) (l : Read)
      → 0 < c.state.first_byte_time
      → 0 < (receive c l).state.first_byte_time
  unfolding receive
  receive-arrived c l h = rw (arrival-kept c.state l.received l.now h) h

module _ (f : Float64) (seconds : ℤ → f.F) where
  -- A report after the first byte.
  report-counts :
      (n now later : ℕ) (c : Client f.F)
      → 0 < c.state.first_byte_time
      → CountsOf n c
      → Returns
          (λ d.
            CountsOf n d
            × (d.loop ≡ c.loop)
            × (0 < d.state.first_byte_time)
            × (u64 (bytes_of d.states_history) ≡ u64 n))
          (report f seconds c now later)
  unfolding report add_report history_entry get_first_byte_time get_and_reset_report
  report-counts n now later c h k =
      let z : is_zero_time c.state.first_byte_time ≡ false = ground (arith, h) in
      let r =
        report-Counts n c.state.total_received_bytes c.state.last_report_received_bytes
          (bytes_of c.states_history) k in
      let reset = get_and_reset_report c.state now in
      let d : Client f.F = record c {
        state = reset.1;
        states_history =
            history_entry f seconds reset.0 later c.state.first_byte_time ∷ c.states_history;
      } in
      (d, simp z refl, (r, refl, h, sym r.last_is ∙ k.total_is))

  all-Kept :
      (c : Client f.F) (before : ℕ) (ts : List Turn)
      → Kept [] before c
      → GoOn ts
      → Returns (Kept ts before) (run f seconds c ts)
  unfolding run step receive_step report_step
  all-Kept c before [] k g = (c, refl, k)
  all-Kept c before (read r ∷ ts) k g =
      let i = all-Kept c before ts k g.1 in
      (receive i.0 r, rw (i.1, i.2.loop) refl, receive-Kept ts before i.0 r g.0 i.2)
  all-Kept c before (report_at now later ∷ ts) k g =
      let i = all-Kept c before ts k g in
      let r = report-counts (before + received_in ts) now later i.0 i.2.arrived i.2.counts in
      (
        r.0,
        rw i.1 (ap (λ x. report_step f seconds x i.0 now later) i.2.loop ∙ r.1),
        record { counts = r.2.0; loop = r.2.1 ∙ i.2.loop; arrived = r.2.2 },
      )

  report_goes_on :
      (x : Loop) (c : Client f.F) (now later : ℕ)
      → x ≢ panicked
      → report_step f seconds x c now later ≡ report f seconds c now later
  unfolding report_step
  report_goes_on reading c now later h = refl
  report_goes_on returned c now later h = refl
  report_goes_on panicked c now later h = absurd (h refl)

  -- From a state before its first byte, when the stream answers reads without bytes, then one with
  -- some bytes, fewer than 2^64, at a time that is not zero, `receiveFirstByte` returns at that one;
  -- then, for any turns of `receive` and of the reports in which every read but the last one goes on,
  -- and the error of the last one is none that panics: no turn panics, the total is that of all reads,
  -- modulo 2^64, and whether the loop goes on or has returned, a report at any time returns, and the
  -- history with it sums up to the same.
  pub history_lem :
      (s : State) (es : List Read) (r : Read) (rs : List Read) (l : Read) (ts : List Turn)
      → Unheard s
      → Empty es
      → r.error ≡ no_error
      → (r.received == 0) ≡ false
      → r.received < 2 ^ 64
      → 0 < r.now
      → GoOn ts
      → after_error l.error ≢ panicked
      → (receive_first_byte s (es ++ (r ∷ rs))
          ≡ first_byte (add_received_bytes s r.received r.now) rs)
        × Returns
            (λ c.
              (c.state.total_received_bytes ≡ u64 (r.received + received_in (read l ∷ ts)))
              × ((now later : ℕ)
                  → Returns
                      (λ d.
                        u64 (bytes_of d.states_history)
                        ≡ u64 (r.received + received_in (read l ∷ ts)))
                      (step f seconds c (report_at now later))))
            (run f seconds (begun (add_received_bytes s r.received r.now)) (read l ∷ ts))
  unfolding run step receive_step
  history_lem s es r rs l ts v h e n small t g alive =
      let i =
        all-Kept (begun (add_received_bytes s r.received r.now)) r.received ts
          (first-Kept s r v n small t) g in
      let k = receive-counts ts r.received i.0 l i.2.counts in
      let sum = r.received + received_in (read l ∷ ts) in
      (
        skip-Empty s es r rs h e n,
        (
          receive i.0 l,
          rw (i.1, i.2.loop) refl,
          (
            k.total_is,
            λ now later.
                let d =
                  report-counts sum now later (receive i.0 l) (receive-arrived i.0 l i.2.arrived)
                    k in
                (
                  d.0,
                  ap (λ x. report_step f seconds x (receive i.0 l) now later) (receive-loop i.0 l)
                      ∙ report_goes_on (after_error l.error) (receive i.0 l) now later alive
                      ∙ d.1,
                  d.2.3,
                ),
          ),
        ),
      )
