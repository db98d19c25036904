-- ===== src/Rl/Tests.antt =====
-- An action that is stale, one that is applied and one that waits.
use qperf_go.Prelude.{
  ℕ, true, ◌*i◌, ◌*ℤ◌, ◌+i◌, ◌+ℤ◌, i64, ◌≡◌, refl, none, some, List, [], ◌∷◌, ◌++◌, pos, ◌≤ℤ◌,
  arith,
}
use qperf_go.Sampler.Safety.{Returns}
use qperf_go.Rl.{RlSender, new_rl_sender, apply_action, state_msg}
use qperf_go.Rl.Steps.{
  System, new_system, Label, receive, put, take, tick, run, step, receive_action, send_action,
  put_action, take_action, publish_tick, publish, idle,
}
use qperf_go.Rl.Delivery.{accepted, as_list, apply_all, Numbered}
use qperf_go.Rl.Drain.{drain, deliver_lem}

abbrev sender : RlSender
sender = new_rl_sender (pos 1252)

abbrev act : ℕ → ℕ → Label
act seq action = receive (some (record { seq = pos seq; action = pos action }))

abbrev labels : List Label
labels = act 102 4 ∷ take ∷ put ∷ act 101 3 ∷ act 100 0 ∷ tick (some (pos 20_000)) ∷ []

-- The system after them: the last action waits.
abbrev waiting : System
waiting = record {
  sender = apply_action sender (record { seq = pos 101; action = pos 3 });
  seq = pos 101;
  channel = none;
  sending = some (record { seq = pos 102; action = pos 4 });
  listening = true;
  publishing = true;
  published = state_msg sender (pos 101) (pos 20_000) ∷ [];
  applied = record { seq = pos 101; action = pos 3 } ∷ [];
}

reaches : run (new_system sender (pos 100)) labels ≡ some waiting
unfolding run step receive_action send_action put_action take_action publish_tick publish idle
    state_msg ◌+i◌ i64 ◌+ℤ◌
reaches = refl

not_negative : pos 0 ≤ℤ sender.cwnd
unfolding new_rl_sender ◌*i◌ i64 ◌*ℤ◌
not_negative = omega arith

deliver_lem_example :
    Numbered (pos 100) waiting.seq waiting.published
    × (pos 0 ≤ℤ waiting.sender.cwnd)
    × (waiting.applied ++ (as_list waiting.channel ++ as_list waiting.sending)
        ≡ accepted (pos 100) labels)
    × Returns
        (λ t.
          (t.applied ≡ accepted (pos 100) labels)
          × (t.sender ≡ apply_all sender (accepted (pos 100) labels)))
        (run waiting (drain waiting.channel waiting.sending))
deliver_lem_example = deliver_lem sender (pos 100) labels waiting not_negative reaches
