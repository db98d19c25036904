-- ===== src/Cubic/Epoch.antt =====
-- The acknowledgements of a whole epoch.
use qperf_go.Prelude.{
  ℕ, ◌+◌, ◌-◌, ◌*◌, ◌^◌, ◌≤◌, ◌<◌, ◌≡◌, refl, if◌then◌else◌, ltb, ℤ, pos, max_ℤ, ◌≤ℤ◌, ◌-i◌, ◌*i◌,
  *i_pos, arith, List, [], ◌∷◌, sym, ap, subst, ◌∙◌, inl, inr, Bool-cases, ltb→lt, false,
}
use qperf_go.Prelude.Float.{Float32}
use qperf_go.Cubic.{
  Cubic, cube_factor, start_epoch, count_acked, congestion_window_after_ack, grow_window,
}
use qperf_go.Prelude.Time.{is_zero_time}
use qperf_go.Cubic.Curve.{sub_i_pos, add_i_pos}
use qperf_go.Cubic.Growth.{Grows, Cubes, InEpoch, Small, step}

-- One call of `CongestionWindowAfterAck`.
pub record Ack : Type 0 where
  pub bytes : ℕ
  pub time : ℕ
  pub min_rtt : ℕ

-- The time that an acknowledgement counts for, and the bytes of all of them. The later ones stand
-- newest first.
abbrev pub counts_at : Ack → ℕ
counts_at a = a.time + a.min_rtt

abbrev pub latest : Ack → List Ack → ℕ
latest first [] = counts_at first
latest first (a ∷ later) = counts_at a

abbrev pub total : Ack → List Ack → ℕ
total first [] = first.bytes
total first (a ∷ later) = total first later + a.bytes

-- The times do not go back, and end within 25 seconds.
abbrev pub InOrder : Ack → List Ack → Type 0
InOrder first [] = first.min_rtt ≤ 25_000_000_000
InOrder first (a ∷ later) =
    (latest first later ≤ counts_at a)
    × (counts_at a ≤ first.time + 25_000_000_000)
    × InOrder first later

module _ (cbrt : ℤ → ℕ) (g : Float32) where
  abbrev pub after : ℤ × Cubic → Ack → ℤ × Cubic
  after s a = congestion_window_after_ack g cbrt s.1 (pos a.bytes) s.0 (pos a.min_rtt) a.time

  unfoldable pub run : ℤ × Cubic → Ack → List Ack → ℤ × Cubic
  run s first [] = after s first
  run s first (a ∷ later) = after (run s first later) a

origin_time : (ℤ → ℕ) → ℕ → ℕ → ℕ
origin_time cbrt w0 m = if ltb w0 m then cbrt (pos cube_factor *i (pos m -i pos w0)) else 0

-- A new epoch after the window `m`, with the window `w0`.
pub record Fresh (w0 m : ℕ) (c : Cubic) : Type 0 where
  pub epoch : c.epoch ≡ 0
  pub last_max : c.last_max_congestion_window ≡ pos m
  pub connections : c.num_connections ≡ pos 1
  pub near : m ≤ w0 + 8_000_000
  pub window : w0 < 2 ^ 50
  pub some_window : 0 < w0

module _ (cbrt : ℤ → ℕ) (cubes : Cubes cbrt) where
  origin_time-cube :
      (w0 m : ℕ)
      → m ≤ w0 + 8_000_000
      → w0 < 2 ^ 50
      → origin_time cbrt w0 m * origin_time cbrt w0 m * origin_time cbrt w0 m
        ≤ cube_factor * (m - w0)
  unfolding origin_time
  origin_time-cube w0 m h p = elim (Bool-cases (ltb w0 m)) [
    | inl e ↦
        let l = ltb→lt w0 m e in
        let d : pos m -i pos w0 ≡ pos (m - w0) =
          sub_i_pos m w0 (omega arith) (omega arith) ∙ ground arith in
        rw (e, d, *i_pos cube_factor (m - w0) (omega arith))
          (cubes (cube_factor * (m - w0)) (omega arith))
    | inr e ↦ rw e (omega arith)
  ]

  start-InEpoch :
      (w0 m a time : ℕ) (c : Cubic)
      → Fresh w0 m c
      → InEpoch time w0
          (m - w0)
          (origin_time cbrt w0 m)
          0
          0
          w0
          w0
          (pos w0, start_epoch cbrt c (pos a) (pos w0) time)
  unfolding start_epoch origin_time max_ℤ
  start-InEpoch w0 m a time c f = simp f.last_max (record {
    window = refl;
    estimate = refl;
    origin = ground arith;
    time_to = ground arith;
    start = refl;
    connections = f.connections;
    below = ground arith;
    window_bound = omega arith;
    estimate_some = f.some_window;
    estimate_bound = omega arith;
  })

counted :
    (cbrt : ℤ → ℕ) (epoch w0 drop k d acked w e a time : ℕ) (c : Cubic)
    → InEpoch epoch w0 drop k d acked w e (pos w, c)
    → 0 < epoch
    → c.acked_bytes_count ≡ pos 0
    → InEpoch epoch w0 drop k d acked w e (pos w, count_acked cbrt c (pos a) (pos w) time)
unfolding count_acked
counted cbrt epoch w0 drop k d acked w e a time c i h p =
    let z : is_zero_time c.epoch ≡ false = rw i.start (ground arith) in
    rw z (record {
      window = refl;
      estimate = i.estimate;
      origin = i.origin;
      time_to = i.time_to;
      start = i.start;
      connections = i.connections;
      below = i.below;
      window_bound = i.window_bound;
      estimate_some = i.estimate_some;
      estimate_bound = i.estimate_bound;
    })

counted-count :
    (cbrt : ℤ → ℕ) (a w time : ℕ) (c : Cubic)
    → is_zero_time c.epoch ≡ false
    → a < 2 ^ 62
    → c.acked_bytes_count ≡ pos 0
    → (count_acked cbrt c (pos a) (pos w) time).acked_bytes_count ≡ pos a
unfolding count_acked
counted-count cbrt a w time c z h p =
    rw (z, p) (add_i_pos 0 a (omega arith) (omega arith) ∙ ground arith)

le_of_pos : {a b : ℤ} {m n : ℕ} → a ≡ pos m → b ≡ pos n → m ≤ n → a ≤ℤ b
le_of_pos p q h = rw (p, q) (omega arith)

start_epoch-count :
    (cbrt : ℤ → ℕ) (c : Cubic) (a w time : ℕ)
    → (start_epoch cbrt c (pos a) (pos w) time).acked_bytes_count ≡ pos a
unfolding start_epoch
start_epoch-count cbrt c a w time = refl

module _ (cbrt : ℤ → ℕ) (g : Float32) where
  after-count : (s : ℤ × Cubic) (a : Ack) → (after cbrt g s a).1.acked_bytes_count ≡ pos 0
  unfolding congestion_window_after_ack grow_window
  after-count s a = refl

  module _ (cubes : Cubes cbrt) (grows : Grows g) where
    small :
        (w0 m acked : ℕ) (c : Cubic)
        → Fresh w0 m c
        → acked < 2 ^ 40
        → Small w0 (m - w0) acked (origin_time cbrt w0 m)
    small w0 m acked c f h = record {
      near = omega (arith, f.near);
      window = f.window;
      bytes = h;
      cube = origin_time-cube cbrt cubes w0 m f.near f.window;
    }

    first_ack :
        (w0 m : ℕ) (c : Cubic) (a : Ack)
        → Fresh w0 m c
        → a.bytes < 2 ^ 40
        → a.min_rtt ≤ 25_000_000_000
        → (w : ℕ) × (e : ℕ) × (w0 ≤ w)
          × InEpoch a.time w0
              (m - w0)
              (origin_time cbrt w0 m)
              (counts_at a - a.time)
              a.bytes
              w
              e
              (after cbrt g (pos w0, c) a)
    unfolding congestion_window_after_ack count_acked
    first_ack w0 m c a f h l = simp f.epoch (
        step g grows a.time w0 (m - w0) (origin_time cbrt w0 m) 0 0 w0 w0 a.bytes a.time a.min_rtt
          (counts_at a - a.time) a.bytes (start_epoch cbrt c (pos a.bytes) (pos w0) a.time)
          (start-InEpoch cbrt cubes w0 m a.bytes a.time c f)
          (start_epoch-count cbrt c a.bytes w0 a.time) (omega arith) (small w0 m a.bytes c f h)
          (omega arith) (omega arith) (omega arith))

    -- What holds after the acknowledgements.
    abbrev After : ℕ → ℕ → Ack → List Ack → ℤ × Cubic → ℕ → Type 0
    After w0 m first later s w =
        (e : ℕ) × InEpoch first.time w0 (m - w0) (origin_time cbrt w0 m)
          (latest first later - first.time) (total first later) w e s

    next_ack :
        (w0 m w : ℕ) (c d : Cubic) (first a : Ack) (later : List Ack)
        → Fresh w0 m c
        → 0 < first.time
        → total first (a ∷ later) < 2 ^ 40
        → first.time ≤ latest first later
        → latest first later ≤ counts_at a
        → counts_at a ≤ first.time + 25_000_000_000
        → d.acked_bytes_count ≡ pos 0
        → After w0 m first later (pos w, d) w
        → (w1 : ℕ) × (w ≤ w1) × After w0 m first (a ∷ later) (after cbrt g (pos w, d) a) w1
    unfolding congestion_window_after_ack
    next_ack w0 m w c d first a later f t h o p q z i =
        let e = i.0 in
        let k = origin_time cbrt w0 m in
        let at = latest first later - first.time in
        let running : is_zero_time d.epoch ≡ false = rw i.1.start (ground arith) in
        let r =
          step g grows first.time w0 (m - w0) k at (total first later) w e a.bytes a.time a.min_rtt
            (counts_at a - first.time) (total first (a ∷ later))
            (count_acked cbrt d (pos a.bytes) (pos w) a.time)
            (counted cbrt first.time w0 (m - w0) k at (total first later) w e a.bytes a.time d i.1 t
              z)
            (counted-count cbrt a.bytes w a.time d running (omega arith) z) refl
            (small w0 m (total first (a ∷ later)) c f h) (omega arith) (omega arith)
            (omega arith) in
        (r.0, r.2, (r.1, r.3))

    next_any :
        (w0 m w : ℕ) (c : Cubic) (s : ℤ × Cubic) (first a : Ack) (later : List Ack)
        → Fresh w0 m c
        → 0 < first.time
        → total first (a ∷ later) < 2 ^ 40
        → first.time ≤ latest first later
        → latest first later ≤ counts_at a
        → counts_at a ≤ first.time + 25_000_000_000
        → s.1.acked_bytes_count ≡ pos 0
        → After w0 m first later s w
        → (w1 : ℕ) × (w ≤ w1) × After w0 m first (a ∷ later) (after cbrt g s a) w1
    next_any w0 m w c s first a later f t h o p q z i =
        let e : (pos w, s.1) ≡ s = ap (λ x. (x, s.1)) (sym i.1.window) in
        subst (λ x. (w1 : ℕ) × (w ≤ w1) × After w0 m first (a ∷ later) (after cbrt g x a) w1) e
          (next_ack w0 m w c s.1 first a later f t h o p q z
            (subst (λ x. After w0 m first later x w) (sym e) i))

    -- The window and what holds with it, after all the acknowledgements.
    abbrev AfterAll : ℕ → ℕ → Cubic → Ack → List Ack → Type 0
    AfterAll w0 m c first later =
        (w : ℕ) × (w0 ≤ w) × After w0 m first later (run cbrt g (pos w0, c) first later) w

    latest-le :
        (first : Ack) (later : List Ack) → InOrder first later → first.time ≤ latest first later
    latest-le first [] o = omega arith
    latest-le first (a ∷ later) o = omega (arith, latest-le first later o.2)

    run-count :
        (s : ℤ × Cubic) (first : Ack) (later : List Ack)
        → (run cbrt g s first later).1.acked_bytes_count ≡ pos 0
    unfolding run
    run-count s first [] = after-count s first
    run-count s first (a ∷ later) = after-count (run cbrt g s first later) a

    all_acks :
        (w0 m : ℕ) (c : Cubic) (first : Ack) (later : List Ack)
        → Fresh w0 m c
        → 0 < first.time
        → total first later < 2 ^ 40
        → InOrder first later
        → AfterAll w0 m c first later
    unfolding run
    all_acks w0 m c first [] f t h o =
        let r = first_ack w0 m c first f h o in (r.0, r.2, (r.1, r.3))
    all_acks w0 m c first (a ∷ later) f t h o =
        let i = all_acks w0 m c first later f t (omega arith) o.2 in
        let s = run cbrt g (pos w0, c) first later in
        let r =
          next_any w0 m i.0 c s first a later f t h (latest-le first later o.2) o.0 o.1
            (run-count (pos w0, c) first later) i.2 in
        (r.0, omega (arith, r.1, i.1), r.2)

    -- For a cube root and a Reno growth as `Cubes` and `Grows` say: when an epoch starts with a
    -- window that is not empty and at most 8 million bytes below the last maximum, an acknowledgement within 25 seconds of its start, at a
    -- time that does not go back and with fewer than 2^40 bytes in all, never shrinks the window,
    -- and after each of them the window is at least that of the start of the epoch.
    pub grows_lem :
        (w0 m : ℕ) (c : Cubic) (first a : Ack) (later : List Ack)
        → Fresh w0 m c
        → 0 < first.time
        → total first (a ∷ later) < 2 ^ 40
        → InOrder first (a ∷ later)
        → (pos w0 ≤ℤ (run cbrt g (pos w0, c) first later).0)
          × ((run cbrt g (pos w0, c) first later).0 ≤ℤ (run cbrt g (pos w0, c) first (a ∷ later)).0)
    unfolding run
    grows_lem w0 m c first a later f t h o =
        let i = all_acks w0 m c first later f t (omega arith) o.2 in
        let s = run cbrt g (pos w0, c) first later in
        let r =
          next_any w0 m i.0 c s first a later f t h (latest-le first later o.2) o.0 o.1
            (run-count (pos w0, c) first later) i.2 in
        (le_of_pos refl i.2.1.window i.1, le_of_pos i.2.1.window r.2.1.window r.1)
