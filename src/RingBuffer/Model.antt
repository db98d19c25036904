-- ===== src/RingBuffer/Model.antt =====
-- The contract of `RingBuffer`: an unbounded queue that panics when it is read past its end.
use qperf_go.Prelude.{
  ℕ, pos, ◌-◌, ◌≡◌, refl, ap, ◌∙◌, Option, none, some, List, [], ◌∷◌, ◌++◌, length, get_elem?, inl,
  inr,
}
use qperf_go.RingBuffer.{
  RingBuffer, Zero, push_back, pop_front, offset, front, back, clear, len, init,
}
use qperf_go.RingBuffer.Inv.{IsValid, clear-IsValid, init-IsValid}
use qperf_go.RingBuffer.Window.{contents}
use qperf_go.RingBuffer.Refine.{
  push_back_refines, pop_front_refines, offset_refines, front_refines, back_refines,
  length-contents, contents-init, contents-clear,
}

-- A client's call. `Offset` is called with an index that is not negative.
pub data Op {ℓ} (T : Type ℓ) : Type ℓ where
  push : T → Op T
  pop : Op T
  peek : ℕ → Op T
  first : Op T
  last : Op T
  size : Op T
  reset : Op T

-- What a call returns: nothing, an element, a number, or a panic.
pub data Reply {ℓ} (T : Type ℓ) : Type ℓ where
  done : Reply T
  elem : T → Reply T
  number : ℕ → Reply T
  panic : Reply T

module _ {ℓ} {T : Type ℓ} where
  abbrev read : Option T → Reply T
  read none = panic
  read (some t) = elem t

  -- The specification: a list, oldest first.
  spec_step : List T → Op T → Reply T × List T
  spec_step q (push t) = (done, q ++ (t ∷ []))
  spec_step [] pop = (panic, [])
  spec_step (t ∷ q) pop = (elem t, q)
  spec_step q (peek i) = (read (get_elem? q i), q)
  spec_step q first = (read (get_elem? q 0), q)
  spec_step q last = (read (get_elem? q (length q - 1)), q)
  spec_step q size = (number (length q), q)
  spec_step q reset = (done, [])

  pub spec_run : List T → List (Op T) → List (Reply T)
  spec_run q [] = []
  spec_run q (op ∷ ops) = let (reply, q') = spec_step q op in reply ∷ spec_run q' ops

module _ {ℓ} {T : Type ℓ} ⦃z : Zero T⦄ where
  abbrev popped_reply : RingBuffer T → Option (T × RingBuffer T) → Reply T × RingBuffer T
  popped_reply r none = (panic, r)
  popped_reply r (some (t, s)) = (elem t, s)

  -- The code's methods, called one after the other.
  step : RingBuffer T → Op T → Reply T × RingBuffer T
  step r (push t) = (done, push_back r t)
  step r pop = popped_reply r (pop_front r)
  step r (peek i) = (read (offset r (pos i)), r)
  step r first = (read (front r), r)
  step r last = (read (back r), r)
  step r size = (number (len r), r)
  step r reset = (done, clear r)

  unfoldable pub run : RingBuffer T → List (Op T) → List (Reply T)
  unfolding step
  run r [] = []
  run r (op ∷ ops) = let (reply, s) = step r op in reply ∷ run s ops

  -- One call: the same reply, and the buffer holds what the queue holds.
  step_refines :
      (r : RingBuffer T) (op : Op T)
      → IsValid r
      → IsValid (step r op).1
        × (((step r op).0, contents (step r op).1) ≡ spec_step (contents r) op)
  unfolding step spec_step
  step_refines r (push t) v =
      let p = push_back_refines r t v in (p.0, ap (λ (q : List T). (done, q)) p.1)
  step_refines r pop v = elim (pop_front_refines r v) [
    | inl (q, out) ↦ rw (out, q) (v, refl)
    | inr (t, s, out, w, q) ↦ rw (out, q) (w, refl)
  ]
  step_refines r (peek i) v = (v, rw (offset_refines r i v))
  step_refines r first v = (v, rw (front_refines r v))
  step_refines r last v = (
    v,
    elim (back_refines r v) [
      | inl (q, out) ↦ rw (out, q)
      | inr (out, _) ↦ rw (out, length-contents r)
    ],
  )
  step_refines r size v = (v, rw (length-contents r))
  step_refines r reset v = (clear-IsValid r, ap (λ (q : List T). (done, q)) (contents-clear r))

  -- No sequence of calls in which `Offset` gets no negative index, panics included, tells a valid
  -- buffer from the queue of its contents.
  pub run_refines :
      (r : RingBuffer T) (ops : List (Op T)) → IsValid r → run r ops ≡ spec_run (contents r) ops
  unfolding run spec_run
  run_refines r [] v = refl
  run_refines r (op ∷ ops) v =
      let p = step_refines r op v in
      rw (run_refines (step r op).1 ops p.0)
        (ap (λ (out : Reply T × List T). out.0 ∷ spec_run out.1 ops) p.1)

  -- A new buffer, whatever size it is made with, behaves as the empty queue.
  pub run-init : (n : ℕ) (ops : List (Op T)) → run (init n) ops ≡ spec_run [] ops
  run-init n ops =
      run_refines (init n) ops (init-IsValid n) ∙ ap (λ q. spec_run q ops) (contents-init n)
