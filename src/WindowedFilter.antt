-- ===== src/WindowedFilter.antt =====
-- internal/congestion/bbr/windowed_filter.go: the best, second best and third best sample of a
-- sliding window.
-- The times are `roundTripCount`s, `uint64`s whose difference wraps. The slice of three estimates is
-- three fields. A comparator returns an `int`; its laws are hypotheses (`IsComparator`).
pub mod Comparators
pub mod History
pub mod Window
mod Tests
use qperf_go.Prelude.{
  ℕ, ◌+◌, ◌-◌, ◌/◌, ◌%◌, ◌^◌, Bool, true, false, ◌&&◌, ◌||◌, ℤ, pos, negsuc, leb_ℤ, eqb_ℤ, ltb,
  if◌then◌else◌, u64,
}
use qperf_go.RingBuffer.{Zero, new_value}

pub record Entry (V : Type 0) : Type 0 where
  pub sample : V
  pub time : ℕ

pub record WindowedFilter (V : Type 0) : Type 0 where
  pub window_length : ℕ
  pub best : Entry V
  pub second : Entry V
  pub third : Entry V
  pub comparator : V → V → ℤ

-- `newTime - t` on `uint64`.
abbrev pub elapsed : ℕ → ℕ → ℕ
elapsed new_time t = u64 (new_time + 2 ^ 64 - t)

-- The comparators for an ordered type, at `uint64`.
unfoldable pub max_filter : ℕ → ℕ → ℤ
max_filter a b = if ltb b a then pos 1 else if ltb a b then negsuc 0 else pos 0

unfoldable pub min_filter : ℕ → ℕ → ℤ
min_filter a b = if ltb a b then pos 1 else if ltb b a then negsuc 0 else pos 0

module _ {V : Type 0} where
  -- `comparator(a, b) >= 0`
  abbrev pub at_least : WindowedFilter V → V → V → Bool
  at_least f a b = leb_ℤ (pos 0) (f.comparator a b)

  -- `comparator(a, b) == 0`
  abbrev pub same_rank : WindowedFilter V → V → V → Bool
  same_rank f a b = eqb_ℤ (f.comparator a b) (pos 0)

  -- `newTime - e.time > length`
  abbrev pub older : ℕ → Entry V → ℕ → Bool
  older new_time e length = ltb length (elapsed new_time e.time)

  unfoldable pub set_window_length : WindowedFilter V → ℕ → WindowedFilter V
  set_window_length f window_length = record f { window_length = window_length }

  unfoldable pub get_best : WindowedFilter V → V
  get_best f = f.best.sample

  unfoldable pub get_second_best : WindowedFilter V → V
  get_second_best f = f.second.sample

  unfoldable pub get_third_best : WindowedFilter V → V
  get_third_best f = f.third.sample

  unfoldable pub reset : WindowedFilter V → V → ℕ → WindowedFilter V
  reset f s t =
      let new : Entry V = record { sample = s; time = t } in
      record f { third = new; second = new; best = new }

  -- The first part of `Update`: the sample replaces the estimates that it is not worse than.
  unfoldable pub place : WindowedFilter V → V → ℕ → WindowedFilter V
  place f s t =
      let new : Entry V = record { sample = s; time = t } in
      if at_least f s f.second.sample
      then record f { second = new; third = new }
      else if at_least f s f.third.sample
      then record f { third = new }
      else f

  -- The best estimate is too old: the others move up, twice if the next is too old as well.
  unfoldable pub promote : WindowedFilter V → V → ℕ → WindowedFilter V
  promote f s t =
      let new : Entry V = record { sample = s; time = t } in
      if older t f.second f.window_length
      then record f { best = f.third; second = new; third = new }
      else record f { best = f.second; second = f.third; third = new }

  -- The second part of `Update`.
  unfoldable pub expire : WindowedFilter V → V → ℕ → WindowedFilter V
  expire f s t =
      let new : Entry V = record { sample = s; time = t } in
      if older t f.best f.window_length
      then promote f s t
      else if same_rank f f.second.sample f.best.sample && older t f.second (f.window_length / 4)
      then record f { second = new; third = new }
      else if same_rank f f.third.sample f.second.sample && older t f.third (f.window_length / 2)
      then record f { third = new }
      else f

module _ {V : Type 0} ⦃z : Zero V⦄ where
  abbrev pub no_entry : Entry V
  no_entry = record { sample = new_value; time = 0 }

  unfoldable pub new_filter : ℕ → (V → V → ℤ) → WindowedFilter V
  new_filter window_length comparator = record {
    window_length = window_length;
    best = no_entry;
    second = no_entry;
    third = no_entry;
    comparator = comparator;
  }

  unfoldable pub clear : WindowedFilter V → WindowedFilter V
  clear f = record f { best = no_entry; second = no_entry; third = no_entry }

  unfoldable pub update : WindowedFilter V → V → ℕ → WindowedFilter V
  update f s t =
      if same_rank f f.best.sample new_value
        || (at_least f s f.best.sample || older t f.third f.window_length)
      then reset f s t
      else expire (place f s t) s t
