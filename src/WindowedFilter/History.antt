-- ===== src/WindowedFilter/History.antt =====
-- What the three estimates are, of all the samples that the filter was given.
use qperf_go.Prelude.{
  ℕ, ◌/◌, ◌≡◌, ◌⊎◌, refl, ap, sym, ◌∙◌, Bool, false, ◌&&◌, ◌||◌, ℤ, pos, leb_ℤ, ◌≤ℤ◌, inl, inr,
  Bool-cases, List, [], ◌∷◌, arith,
}
use qperf_go.RingBuffer.{Zero, new_value}
use qperf_go.WindowedFilter.{
  Entry, WindowedFilter, at_least, same_rank, older, reset, place, promote, expire, update,
}
use qperf_go.WindowedFilter.Comparators.{IsComparator}

module _ {V : Type 0} (c : V → V → ℤ) where
  -- `e` is one of the samples of the history, newest first, and at least as good as all later ones.
  abbrev pub Stands : Entry V → List (Entry V) → Type 0
  Stands e [] = ⊥
  Stands e (n ∷ h) = (e ≡ n) ⊎ ((pos 0 ≤ℤ c e.sample n.sample) × Stands e h)

  -- The three estimates stand in the history, in the order of their rank.
  pub record Tracks (f : WindowedFilter V) (h : List (Entry V)) : Type 0 where
    pub comparator : f.comparator ≡ c
    pub best : Stands f.best h
    pub second : Stands f.second h
    pub third : Stands f.third h
    pub best_second : pos 0 ≤ℤ c f.best.sample f.second.sample
    pub second_third : pos 0 ≤ℤ c f.second.sample f.third.sample

module _ {V : Type 0} {c : V → V → ℤ} (k : IsComparator c) (s : V) (t : ℕ)
    (h : List (Entry V)) where
  abbrev pub now : Entry V
  now = record { sample = s; time = t }

  self : pos 0 ≤ℤ c s s
  self = let e = k.same s in rw e (omega arith)

  -- What holds once the new sample is in its place: each estimate is at least as good as it.
  pub record Placed (f : WindowedFilter V) : Type 0 where
    pub tracks : Tracks c f (now ∷ h)
    pub best_now : pos 0 ≤ℤ c f.best.sample s
    pub second_now : pos 0 ≤ℤ c f.second.sample s
    pub third_now : pos 0 ≤ℤ c f.third.sample s

  beaten : (a : V) → leb_ℤ (pos 0) (c s a) ≡ false → pos 0 ≤ℤ c a s
  beaten a e = k.total s a (ground arith)

  pub reset-Placed : (f : WindowedFilter V) → f.comparator ≡ c → Placed (reset f s t)
  unfolding reset
  reset-Placed f e = record {
    tracks = record {
      comparator = e;
      best = inl refl;
      second = inl refl;
      third = inl refl;
      best_second = self;
      second_third = self;
    };
    best_now = self;
    second_now = self;
    third_now = self;
  }

  -- The new sample as second and third best, and as third best.
  two_new :
      (f : WindowedFilter V)
      → f.comparator ≡ c
      → Stands c f.best (now ∷ h)
      → pos 0 ≤ℤ c f.best.sample s
      → Placed (record f { second = now; third = now })
  two_new f e b bs = record {
    tracks = record {
      comparator = e;
      best = b;
      second = inl refl;
      third = inl refl;
      best_second = bs;
      second_third = self;
    };
    best_now = bs;
    second_now = self;
    third_now = self;
  }

  one_new :
      (f : WindowedFilter V)
      → f.comparator ≡ c
      → Stands c f.best (now ∷ h)
      → Stands c f.second (now ∷ h)
      → pos 0 ≤ℤ c f.best.sample f.second.sample
      → pos 0 ≤ℤ c f.best.sample s
      → pos 0 ≤ℤ c f.second.sample s
      → Placed (record f { third = now })
  one_new f e b m bm bs ms = record {
    tracks = record {
      comparator = e;
      best = b;
      second = m;
      third = inl refl;
      best_second = bm;
      second_third = ms;
    };
    best_now = bs;
    second_now = ms;
    third_now = self;
  }

  worse :
      (f : WindowedFilter V) (a : V) → f.comparator ≡ c → at_least f s a ≡ false → pos 0 ≤ℤ c a s
  worse f a e h = beaten a (ap (λ (d : V → V → ℤ). leb_ℤ (pos 0) (d s a)) (sym e) ∙ h)

  place-Placed :
      (f : WindowedFilter V) → Tracks c f h → pos 0 ≤ℤ c f.best.sample s → Placed (place f s t)
  unfolding place
  place-Placed f r b = elim (Bool-cases (at_least f s f.second.sample)) [
    | inl better ↦ rw better (two_new f r.comparator (inr (b, r.best)) b)
    | inr kept ↦
        let m = worse f f.second.sample r.comparator kept in
        elim (Bool-cases (at_least f s f.third.sample)) [
          | inl better ↦
              rw (kept, better)
                (one_new f r.comparator (inr (b, r.best)) (inr (m, r.second)) r.best_second b m)
          | inr still ↦
              let l = worse f f.third.sample r.comparator still in
              rw (kept, still)
                (record {
                  tracks = record {
                    comparator = r.comparator;
                    best = inr (b, r.best);
                    second = inr (m, r.second);
                    third = inr (l, r.third);
                    best_second = r.best_second;
                    second_third = r.second_third;
                  };
                  best_now = b;
                  second_now = m;
                  third_now = l;
                })
        ]
  ]

  promote-Placed : (f : WindowedFilter V) → Placed f → Placed (promote f s t)
  unfolding promote
  promote-Placed f r = elim (Bool-cases (older t f.second f.window_length)) [
    | inl twice ↦
        rw twice
          (two_new (record f { best = f.third }) r.tracks.comparator r.tracks.third r.third_now)
    | inr once ↦ rw once (
        one_new (record f { best = f.second; second = f.third }) r.tracks.comparator r.tracks.second
          r.tracks.third r.tracks.second_third r.second_now r.third_now)
  ]

  expire-Placed : (f : WindowedFilter V) → Placed f → Placed (expire f s t)
  unfolding expire
  expire-Placed f r = elim (Bool-cases (older t f.best f.window_length)) [
    | inl out ↦ rw out (promote-Placed f r)
    | inr fresh ↦ elim (Bool-cases quarter) [
      | inl passed ↦ rw (fresh, passed) (two_new f r.tracks.comparator r.tracks.best r.best_now)
      | inr not_passed ↦ elim (Bool-cases half) [
        | inl passed ↦
            rw (fresh, not_passed, passed)
              (one_new f r.tracks.comparator r.tracks.best r.tracks.second r.tracks.best_second
                r.best_now r.second_now)
        | inr kept ↦ rw (fresh, not_passed, kept) r
      ]
    ]
  ]
    where
      quarter : Bool
      quarter = same_rank f f.second.sample f.best.sample && older t f.second (f.window_length / 4)

      half : Bool
      half = same_rank f f.third.sample f.second.sample && older t f.third (f.window_length / 2)

  -- One `Update` of a filter that tracks the history.
  pub update-Placed : ⦃z : Zero V⦄ (f : WindowedFilter V) → Tracks c f h → Placed (update f s t)
  unfolding update
  update-Placed f r = elim (Bool-cases starts) [
    | inl fresh ↦ rw fresh (reset-Placed f r.comparator)
    | inr kept ↦ rw kept (
        expire-Placed (place f s t)
          (place-Placed f r (worse f f.best.sample r.comparator (ground arith))))
  ]
    where
      starts : Bool
      starts =
          same_rank f f.best.sample new_value
          || (at_least f s f.best.sample || older t f.third f.window_length)
