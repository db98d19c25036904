-- ===== src/AckPoints.antt =====
-- internal/congestion/bbr/bandwidth_sampler.go: points on the ack line, and the choice of the point
-- that an ack rate is measured from.
pub mod Choice
mod Tests
use qperf_go.Prelude.{
  ℕ, zero, suc, ◌+◌, ◌-◌, Bool, true, false, Option, none, some, ℤ, pos, ltb_ℤ, eqb_ℤ, ltb, ◌==◌,
  if◌then◌else◌, ◌>>=◌,
}
use qperf_go.RingBuffer.{RingBuffer, Zero, len, empty, front, back, offset, pop_front}

pub record AckPoint : Type 0 where
  pub ack_time : ℕ
  pub total_bytes_acked : ℤ

abbrev pub zero_point : AckPoint
zero_point = record { ack_time = 0; total_bytes_acked = pos 0 }

instance abbrev pub point_zero : Zero AckPoint
point_zero = record { zero_value = zero_point }

-- The two most recent points: `ackPoints[0]` and `ackPoints[1]`.
pub record RecentAckPoints : Type 0 where
  pub less_recent : AckPoint
  pub most_recent : AckPoint

unfoldable pub update_points : RecentAckPoints → ℕ → ℤ → RecentAckPoints
update_points r ack_time total =
    let new : AckPoint = record { ack_time = ack_time; total_bytes_acked = total } in
    if ltb r.most_recent.ack_time ack_time
    then record { less_recent = r.most_recent; most_recent = new }
    else record r { most_recent = new }

abbrev pub no_points : RecentAckPoints
no_points = record { less_recent = zero_point; most_recent = zero_point }

unfoldable pub most_recent_point : RecentAckPoints → AckPoint
most_recent_point r = r.most_recent

unfoldable pub less_recent_point : RecentAckPoints → AckPoint
less_recent_point r =
    if eqb_ℤ r.less_recent.total_bytes_acked (pos 0) then r.most_recent else r.less_recent

abbrev pub pop_one : RingBuffer AckPoint → Option (RingBuffer AckPoint)
pop_one r = do p ← pop_front r; some p.1

unfoldable pub pop_many : ℕ → RingBuffer AckPoint → Option (RingBuffer AckPoint)
pop_many zero r = some r
pop_many (suc n) r = do q ← pop_one r; pop_many n q

-- The last loop, from `k` on: its bound `Len()-1` falls as points are popped.
unfoldable pub pop_rest : ℕ → ℕ → RingBuffer AckPoint → Option (RingBuffer AckPoint)
pop_rest zero k r = some r
pop_rest (suc fuel) k r =
    let rest = (do q ← pop_one r; pop_rest fuel (k + 1) q) in
    if ltb k (len r - 1) then rest else some r

abbrev pub Chosen : Type 0
Chosen = RingBuffer AckPoint × AckPoint

-- After the search: the last candidate.
unfoldable pub choose_last : RingBuffer AckPoint → Option Chosen
choose_last r = do a0 ← back r; q ← pop_rest (len r) 0 r; some (q, a0)

-- The body of the search loop at `i`: whether the candidate has more bytes, and what the loop does
-- from `i + 1` on.
unfoldable pub settle : Bool → ℕ → RingBuffer AckPoint → Option Chosen → Option Chosen
settle false i r rest = rest
settle true i r rest = do a0 ← offset r (pos (i - 1)); q ← pop_many (i - 1) r; some (q, a0)

-- The search loop from `i` on, with `fuel` candidates ahead.
unfoldable pub search_a0 : ℕ → ℕ → ℤ → RingBuffer AckPoint → Option Chosen
search_a0 zero i total r = choose_last r
search_a0 (suc fuel) i total r = do
  p ← offset r (pos i)
  settle (ltb_ℤ total p.total_bytes_acked) i r (search_a0 fuel (i + 1) total r)

-- The candidates afterwards, and the point, `none` where the function returns false. A panic is the
-- outer `none`.
unfoldable pub choose_a0_point :
    RingBuffer AckPoint → ℤ → Option (RingBuffer AckPoint × Option AckPoint)
choose_a0_point r total =
    if empty r
    then some (r, none)
    else if len r == 1
    then (do a0 ← front r; some (r, some a0))
    else do c ← search_a0 (len r - 1) 1 total r; some (c.0, some c.1)
