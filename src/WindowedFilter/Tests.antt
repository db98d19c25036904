-- ===== src/WindowedFilter/Tests.antt =====
-- The maximum filter on concrete samples.
use qperf_go.Prelude.{ℕ, ◌≡◌, refl, List, [], ◌∷◌}
use qperf_go.RingBuffer.{Zero}
use qperf_go.WindowedFilter.{
  Entry, max_filter, new_filter, update, get_best, reset, place, expire, promote,
}
use qperf_go.WindowedFilter.Comparators.{max_filter-IsComparator}
use qperf_go.WindowedFilter.Window.{feed, Reports, feed-Reports}

instance nat_zero : Zero ℕ
nat_zero = record { zero_value = 0 }

abbrev sample : ℕ → ℕ → Entry ℕ
sample v t = record { sample = v; time = t }

-- Newest first: the best sample, 90, leaves the window of 10 rounds at round 12.
abbrev earlier : List (Entry ℕ)
earlier = sample 50 8 ∷ sample 70 5 ∷ sample 90 1 ∷ []

feed-Reports_example :
    Reports max_filter 10
      (sample 40 12)
      earlier
      (feed (new_filter 10 max_filter) earlier)
      (feed (new_filter 10 max_filter) (sample 40 12 ∷ earlier))
feed-Reports_example = feed-Reports max_filter-IsComparator 10 (sample 40 12) earlier

best_expires : get_best (feed (new_filter 10 max_filter) (sample 40 12 ∷ earlier)) ≡ 70
unfolding get_best new_filter max_filter update reset place expire promote nat_zero
best_expires = refl
