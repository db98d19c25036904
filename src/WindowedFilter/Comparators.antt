-- ===== src/WindowedFilter/Comparators.antt =====
-- The laws that a comparator has, and the filters' comparators.
use qperf_go.Prelude.{◌≡◌, ℤ, pos, ◌≤ℤ◌, ◌<ℤ◌, arith}
use qperf_go.WindowedFilter.{max_filter, min_filter}

-- Nothing is better than itself, and of two samples one is at least as good.
pub record IsComparator {V : Type 0} (c : V → V → ℤ) : Type 0 where
  pub same : (a : V) → c a a ≡ pos 0
  pub total : (a b : V) → c a b <ℤ pos 0 → pos 0 ≤ℤ c b a

pub max_filter-IsComparator : IsComparator max_filter
unfolding max_filter
max_filter-IsComparator = record { same = λ a. ground arith; total = λ a b h. ground arith }

pub min_filter-IsComparator : IsComparator min_filter
unfolding min_filter
min_filter-IsComparator = record { same = λ a. ground arith; total = λ a b h. ground arith }
