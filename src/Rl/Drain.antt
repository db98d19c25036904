-- ===== src/Rl/Drain.antt =====
-- Every action that was accepted can be applied, whatever happened before.
use qperf_go.Prelude.{
  ◌≡◌, refl, ap, sym, ◌∙◌, subst, Option, none, some, List, [], ◌∷◌, ◌++◌, append-nil, append_assoc,
  ℤ, pos, ◌≤ℤ◌, ◌+i◌, ◌*i◌, arith,
}
use qperf_go.Sampler.Safety.{Returns}
use qperf_go.Rl.{ActionMsg, RlSender, apply_action, look_up, action_map, floor_window}
use qperf_go.Rl.Steps.{System, new_system, Label, put, take, put_action, take_action, step, run}
use qperf_go.Rl.Delivery.{accepted, as_list, apply_all, Numbered, run-Inv}

-- The steps that empty the channel and the listener's hands, newest first.
abbrev pub drain : Option ActionMsg → Option ActionMsg → List Label
drain none none = []
drain (some c) none = take ∷ []
drain none (some x) = take ∷ put ∷ []
drain (some c) (some x) = take ∷ put ∷ take ∷ []

-- The system after them.
abbrev drained : System → List ActionMsg → System
drained s xs = record s {
  channel = none;
  sending = none;
  sender = apply_all s.sender xs;
  applied = s.applied ++ xs;
}

drain-run :
    (s : System) (c x : Option ActionMsg)
    → run (record s { channel = c; sending = x }) (drain c x)
      ≡ some (drained s (as_list c ++ as_list x))
unfolding run step put_action take_action
drain-run s none none = rw (append-nil s.applied) refl
drain-run s (some c) none = refl
drain-run s none (some x) = refl
drain-run s (some c) (some x) = rw (append_assoc s.applied (c ∷ []) (x ∷ [])) refl

apply_all-two :
    (b : RlSender) (xs ys : List ActionMsg) → apply_all b (xs ++ ys) ≡ apply_all (apply_all b xs) ys
apply_all-two b [] ys = refl
apply_all-two b (x ∷ xs) ys = apply_all-two (apply_action b x) xs ys

floor-nonneg : (w : ℤ) → pos 0 ≤ℤ floor_window w
unfolding floor_window
floor-nonneg w = ground arith

never_negative :
    (b : RlSender) (xs : List ActionMsg) → pos 0 ≤ℤ b.cwnd → pos 0 ≤ℤ (apply_all b xs).cwnd
unfolding apply_action
never_negative b [] h = h
never_negative b (x ∷ xs) h =
    never_negative (apply_action b x) xs
      (floor-nonneg (b.cwnd +i (look_up action_map x.action *i b.max_datagram_size)))

-- For a window that is not negative, after any interleaving of the goroutines of a new system: the
-- published states are numbered one after the other, the window is not negative, the actions applied,
-- in the channel and about to be sent are, in order, exactly those that were received no older than
-- the last state, and the waiting goroutines can apply all of them.
pub deliver_lem :
    (b : RlSender) (start : ℤ) (ls : List Label) (s : System)
    → pos 0 ≤ℤ b.cwnd
    → run (new_system b start) ls ≡ some s
    → Numbered start s.seq s.published
      × (pos 0 ≤ℤ s.sender.cwnd)
      × (s.applied ++ (as_list s.channel ++ as_list s.sending) ≡ accepted start ls)
      × Returns
          (λ t. (t.applied ≡ accepted start ls) × (t.sender ≡ apply_all b (accepted start ls)))
          (run s (drain s.channel s.sending))
deliver_lem b start ls s h e =
    let i = run-Inv b start ls s e in
    let todo = as_list s.channel ++ as_list s.sending in
    let sender =
      ap (λ k. apply_all k todo) i.sender
      ∙ sym (apply_all-two b s.applied todo)
      ∙ ap (apply_all b) i.delivery in
    (
      i.numbered,
      subst (λ k. pos 0 ≤ℤ k.cwnd) (sym i.sender) (never_negative b s.applied h),
      i.delivery,
      (drained s todo, drain-run s s.channel s.sending, (i.delivery, sender)),
    )
