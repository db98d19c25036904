-- ===== src/RingBuffer/Tests.antt =====
-- The ring buffer on concrete calls.
use qperf_go.Prelude.{some, none, negsuc, ◌+ℤ◌, ◌-ℤ◌, ◌≡◌, refl, false, List, [], ◌∷◌, ℕ, arith}
use qperf_go.RingBuffer.{
  RingBuffer, Zero, len, push_back, pop_front, popped, offset, front, back, clear, empty, put, grow,
  slot,
}
use qperf_go.RingBuffer.Model.{
  Op, push, pop, peek, last, size, done, elem, number, panic, run, spec_run, run_refines,
}
use qperf_go.RingBuffer.Window.{contents}

instance nat_zero : Zero ℕ
nat_zero = record { zero_value = 0 }

-- Three of four slots used, wrapped round.
abbrev wrapped : RingBuffer ℕ
wrapped = record { ring = 12 ∷ 0 ∷ 10 ∷ 11 ∷ []; head_pos = 2; tail_pos = 1; full = false }

abbrev calls : List (Op ℕ)
calls = push 13 ∷ push 14 ∷ size ∷ pop ∷ peek 3 ∷ last ∷ peek 4 ∷ []

run_refines_example : run wrapped calls ≡ spec_run (contents wrapped) calls
run_refines_example = run_refines wrapped calls (ground arith)

grows : run wrapped calls ≡ done ∷ done ∷ number 5 ∷ elem 10 ∷ elem 14 ∷ elem 14 ∷ panic ∷ []
unfolding run push_back pop_front popped offset slot front back clear len empty put grow ◌+ℤ◌ ◌-ℤ◌
grows = refl

-- A negative index is not refused: it reads the free slot before the head, or panics before the first
-- slot of the slice.
stale : (offset wrapped (negsuc 0) ≡ some 0) × (offset wrapped (negsuc 2) ≡ none)
unfolding offset slot empty len ◌+ℤ◌
stale = (refl, refl)
