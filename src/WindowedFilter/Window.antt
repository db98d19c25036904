-- ===== src/WindowedFilter/Window.antt =====
-- The best estimate lies within the window, and what the filter reports after any run of samples.
use qperf_go.Prelude.{
  ℕ, ◌/◌, ◌≤◌, ◌≡◌, refl, ◌∙◌, true, false, not, ◌&&◌, ◌||◌, if◌then◌else◌, ℤ, pos, ◌≤ℤ◌, List, [],
  ◌∷◌, arith,
}
use qperf_go.RingBuffer.{Zero, new_value}
use qperf_go.WindowedFilter.{
  Entry, WindowedFilter, elapsed, same_rank, at_least, older, new_filter, reset, place, promote,
  expire, update, get_best,
}
use qperf_go.WindowedFilter.Comparators.{IsComparator}
use qperf_go.WindowedFilter.History.{Tracks, Placed, update-Placed, reset-Placed}

module _ {V : Type 0} (s : V) (t : ℕ) where
  place_third :
      (f : WindowedFilter V)
      → older t f.third f.window_length ≡ false
      → older t (place f s t).third (place f s t).window_length ≡ false
  unfolding place
  place_third f h = ground arith

  expire_best :
      (f : WindowedFilter V)
      → older t f.third f.window_length ≡ false
      → older t (expire f s t).best (expire f s t).window_length ≡ false
  unfolding expire promote
  expire_best f h = ground arith

  update_best :
      ⦃z : Zero V⦄ (f : WindowedFilter V)
      → older t (update f s t).best (update f s t).window_length ≡ false
  unfolding update reset
  update_best f = ground (arith, place_third f, expire_best (place f s t))

  window-update :
      ⦃z : Zero V⦄ (f : WindowedFilter V) → (update f s t).window_length ≡ f.window_length
  unfolding update reset expire promote place
  window-update f = ground arith

-- The first of some entries that is within the window, else the last resort.
abbrev pub first_fresh : {V : Type 0} → ℕ → ℕ → List (Entry V) → Entry V → Entry V
first_fresh t w [] last = last
first_fresh t w (e ∷ es) last =
    let rest = first_fresh t w es last in if older t e w then rest else e

-- What is best after the sample `n` at hand: that sample where it is at least as good as the best, where
-- the best is of the rank of the zero value, or where the whole filter is out of date; and otherwise
-- the first estimate within the window, once the sample has taken the place of those that it is at
-- least as good as.
abbrev pub best_after : {V : Type 0} ⦃z : Zero V⦄ → WindowedFilter V → Entry V → Entry V
best_after f n =
    if same_rank f f.best.sample new_value
      || (at_least f n.sample f.best.sample || older n.time f.third f.window_length)
    then n
    else first_fresh n.time f.window_length
        (f.best
          ∷ (if at_least f n.sample f.second.sample then n else f.second)
          ∷ (if at_least f n.sample f.second.sample || at_least f n.sample f.third.sample
              then n
              else f.third)
          ∷ [])
        n

-- Unless the best of `f` has left the window: a second estimate of the rank of the best is at most a
-- quarter of a window old, and a third one of the rank of the second at most half a window.
pub record Refreshed {V : Type 0} (f : WindowedFilter V) (t : ℕ) (g : WindowedFilter V)
    : Type 0 where
  pub quarter :
      (older t f.best f.window_length
        || not
            (same_rank f g.second.sample g.best.sample && older t g.second (f.window_length / 4)))
      ≡ true
  pub half :
      (older t f.best f.window_length
        || not
            (same_rank f g.third.sample g.second.sample && older t g.third (f.window_length / 2)))
      ≡ true

older_now : {V : Type 0} (s : V) (t w : ℕ) → older t (record { sample = s; time = t }) w ≡ false
older_now s t w = ground arith

module _ {V : Type 0} ⦃z : Zero V⦄ (s : V) (t : ℕ) where
  update-best_after :
      (f : WindowedFilter V) → (update f s t).best ≡ best_after f (record { sample = s; time = t })
  unfolding update reset place expire promote
  update-best_after f = ground (arith, older_now s t f.window_length)

  update-Refreshed : (f : WindowedFilter V) → Refreshed f t (update f s t)
  unfolding update reset place expire promote
  update-Refreshed f = record {
    quarter = ground (arith, older_now s t (f.window_length / 4), older_now s t f.window_length);
    half = ground (arith, older_now s t (f.window_length / 2), older_now s t f.window_length);
  }

-- The filter after a history of samples, newest first.
abbrev pub feed : {V : Type 0} ⦃z : Zero V⦄ → WindowedFilter V → List (Entry V) → WindowedFilter V
feed f [] = f
feed f (e ∷ h) = update (feed f h) e.sample e.time

-- What the filter `f` of a history reports after its newest sample `e`, where it was `b` before.
pub record Reports {V : Type 0} ⦃z : Zero V⦄ (c : V → V → ℤ) (w : ℕ) (e : Entry V)
    (h : List (Entry V)) (b f : WindowedFilter V) : Type 0 where
  pub tracks : Tracks c f (e ∷ h)
  pub beats_newest : pos 0 ≤ℤ c (get_best f) e.sample
  pub in_window : elapsed e.time f.best.time ≤ w
  pub chosen : f.best ≡ best_after b e
  pub refreshed : Refreshed b e.time f

module _ {V : Type 0} ⦃z : Zero V⦄ {c : V → V → ℤ} (k : IsComparator c) (w : ℕ) where
  feed-window : (h : List (Entry V)) → (feed (new_filter w c) h).window_length ≡ w
  unfolding new_filter
  feed-window [] = refl
  feed-window (e ∷ h) = window-update e.sample e.time (feed (new_filter w c) h) ∙ feed-window h

  first-Placed :
      (e : Entry V) → Placed k e.sample e.time [] (update (new_filter w c) e.sample e.time)
  unfolding update new_filter
  first-Placed e =
      let start : same_rank (new_filter w c) new_value new_value ≡ true =
        ground (arith, k.same new_value) in
      rw start (reset-Placed k e.sample e.time [] (new_filter w c) refl)

  feed-Placed :
      (e : Entry V) (h : List (Entry V))
      → Placed k e.sample e.time h (feed (new_filter w c) (e ∷ h))
  feed-Placed e [] = first-Placed e
  feed-Placed e (e' ∷ h) =
      update-Placed k e.sample e.time (e' ∷ h) (feed (new_filter w c) (e' ∷ h))
        (feed-Placed e' h).tracks

  -- For a comparator that ranks a sample the same as itself and, of two samples, one at least as good
  -- as the other: after any samples at any times each of the three estimates is a sample of the history
  -- that no later sample has beaten, the estimates stand in the order of their rank, the best one is at
  -- least as good as the newest sample, and it is no older than the window. The best one is the newest
  -- sample where that is at least as good as the best before it, the best before has the rank of the
  -- zero value, or even the third estimate before is older than the window; and otherwise the first of
  -- the best, second and third estimate that is within the window, the newest sample standing for those
  -- it is at least as good as. Unless the best one before has left the window, a second estimate of the
  -- rank of the best is at most a quarter of a window old, and a third one of the rank of the second at
  -- most half a window.
  pub feed-Reports :
      (e : Entry V) (h : List (Entry V))
      → Reports c w e h (feed (new_filter w c) h) (feed (new_filter w c) (e ∷ h))
  unfolding get_best
  feed-Reports e h =
      let p = feed-Placed e h in
      record {
        tracks = p.tracks;
        beats_newest = p.best_now;
        in_window =
            ground
              (arith, update_best e.sample e.time (feed (new_filter w c) h), feed-window (e ∷ h));
        chosen = update-best_after e.sample e.time (feed (new_filter w c) h);
        refreshed = update-Refreshed e.sample e.time (feed (new_filter w c) h);
      }
