-- ===== src/Rl/Delivery.antt =====
-- In any interleaving the actions that are not stale reach the window, once each and in order.
use qperf_go.Prelude.{
  ◌≡◌, refl, ap, sym, ◌∙◌, Bool, true, false, Option, none, some, List, [], ◌∷◌, ◌++◌, append-nil,
  append_assoc, if◌then◌else◌, ℤ, ltb_ℤ, ◌>>=◌, Bool-cases, Option-cases, inl, inr, none-neq-some,
  some_inj, ap₂, subst,
}
use qperf_go.Rl.{StateMsg, ActionMsg, RlSender, apply_action, next_seq, state_msg, fin_msg}
use qperf_go.Rl.Steps.{
  System, new_system, Label, receive, put, take, tick, stop_listening, stop_publishing, send_action,
  receive_action, put_action, take_action, publish, publish_tick, idle, step, run,
}

-- The number of the last state, and the actions that were received no older than it, oldest first.
abbrev pub seq_after : ℤ → List Label → ℤ
seq_after start [] = start
seq_after start (tick (some rtt) ∷ ls) = next_seq (seq_after start ls)
seq_after start (stop_publishing ∷ ls) = next_seq (seq_after start ls)
seq_after start (tick none ∷ ls) = seq_after start ls
seq_after start (receive m ∷ ls) = seq_after start ls
seq_after start (put ∷ ls) = seq_after start ls
seq_after start (take ∷ ls) = seq_after start ls
seq_after start (stop_listening ∷ ls) = seq_after start ls

abbrev pub keep_fresh : ℤ → Option ActionMsg → List ActionMsg
keep_fresh seq none = []
keep_fresh seq (some a) = if ltb_ℤ a.seq seq then [] else a ∷ []

abbrev pub accepted : ℤ → List Label → List ActionMsg
accepted start [] = []
accepted start (receive m ∷ ls) = accepted start ls ++ keep_fresh (seq_after start ls) m
accepted start (put ∷ ls) = accepted start ls
accepted start (take ∷ ls) = accepted start ls
accepted start (tick rtt ∷ ls) = accepted start ls
accepted start (stop_listening ∷ ls) = accepted start ls
accepted start (stop_publishing ∷ ls) = accepted start ls

abbrev pub as_list : Option ActionMsg → List ActionMsg
as_list none = []
as_list (some a) = a ∷ []

abbrev pub apply_all : RlSender → List ActionMsg → RlSender
apply_all b [] = b
apply_all b (a ∷ xs) = apply_all (apply_action b a) xs

-- The states are numbered one after the other, from the number after `start`.
abbrev pub Numbered : ℤ → ℤ → List StateMsg → Type 0
Numbered start seq [] = seq ≡ start
Numbered start seq (m ∷ ms) =
    (before : ℤ) × (m.seq ≡ seq) × (seq ≡ next_seq before) × Numbered start before ms

pub record Inv (b : RlSender) (start : ℤ) (ls : List Label) (s : System) : Type 0 where
  pub delivery : s.applied ++ (as_list s.channel ++ as_list s.sending) ≡ accepted start ls
  pub sender : s.sender ≡ apply_all b s.applied
  pub seq : s.seq ≡ seq_after start ls
  pub numbered : Numbered start s.seq s.published

apply_all-append :
    (b : RlSender) (xs : List ActionMsg) (a : ActionMsg)
    → apply_all b (xs ++ (a ∷ [])) ≡ apply_action (apply_all b xs) a
apply_all-append b [] a = refl
apply_all-append b (x ∷ xs) a = apply_all-append (apply_action b x) xs a

idle-none :
    (listening : Bool) (sending : Option ActionMsg) → idle listening sending ≡ true → sending ≡ none
unfolding idle
idle-none listening none h = refl
idle-none listening (some a) h = absurd (cc)

at_end :
    (xs ys : List ActionMsg) (a : ActionMsg)
    → xs ++ (ys ++ (a ∷ [])) ≡ (xs ++ (ys ++ [])) ++ (a ∷ [])
at_end xs ys a = rw (append-nil ys) (sym (append_assoc xs ys (a ∷ [])))

receive-Inv :
    (b : RlSender) (start : ℤ) (ls : List Label) (s : System) (m : Option ActionMsg)
    → idle s.listening s.sending ≡ true
    → Inv b start ls s
    → Inv b start (receive m ∷ ls) (receive_action s m)
unfolding receive_action send_action
receive-Inv b start ls s none h i = record {
  delivery = i.delivery ∙ sym (append-nil (accepted start ls));
  sender = i.sender;
  seq = i.seq;
  numbered = i.numbered;
}
receive-Inv b start ls s (some a) h i =
    let fresh = ap (λ k. keep_fresh k (some a)) (sym i.seq) in
    elim (Bool-cases (ltb_ℤ a.seq s.seq)) [
      | inl t ↦
          let dropped : keep_fresh s.seq (some a) ≡ [] = rw t refl in
          rw t (record {
            delivery =
                i.delivery
                ∙ sym (append-nil (accepted start ls))
                ∙ ap (λ k. accepted start ls ++ k) (sym (fresh ∙ dropped));
            sender = i.sender;
            seq = i.seq;
            numbered = i.numbered;
          })
      | inr t ↦
          let kept : keep_fresh s.seq (some a) ≡ (a ∷ []) = rw t refl in
          let none_sending = idle-none s.listening s.sending h in
          let before =
            ap (λ x. s.applied ++ (as_list s.channel ++ as_list x)) (sym none_sending)
            ∙ i.delivery in
          rw t (record {
            delivery =
                at_end s.applied (as_list s.channel) a
                ∙ ap (λ k. k ++ (a ∷ [])) before
                ∙ ap (λ k. accepted start ls ++ k) (sym (fresh ∙ kept));
            sender = i.sender;
            seq = i.seq;
            numbered = i.numbered;
          })
    ]

put-Inv :
    (b : RlSender) (start : ℤ) (ls : List Label) (s t : System) (x c : Option ActionMsg)
    → s.sending ≡ x
    → s.channel ≡ c
    → put_action s x c ≡ some t
    → Inv b start ls s
    → Inv b start (put ∷ ls) t
unfolding put_action
put-Inv b start ls s t (some a) none p q e i = subst (Inv b start (put ∷ ls)) (some_inj e) (record {
  delivery = ap₂ (λ c x. s.applied ++ (as_list c ++ as_list x)) (sym q) (sym p) ∙ i.delivery;
  sender = i.sender;
  seq = i.seq;
  numbered = i.numbered;
})
put-Inv b start ls s t (some a) (some d) p q e i = absurd (none-neq-some e)
put-Inv b start ls s t none c p q e i = absurd (none-neq-some e)

take-Inv :
    (b : RlSender) (start : ℤ) (ls : List Label) (s t : System) (c : Option ActionMsg)
    → s.channel ≡ c
    → take_action s c ≡ some t
    → Inv b start ls s
    → Inv b start (take ∷ ls) t
unfolding take_action
take-Inv b start ls s t none q e i = absurd (none-neq-some e)
take-Inv b start ls s t (some a) q e i = subst (Inv b start (take ∷ ls)) (some_inj e) (record {
  delivery =
      append_assoc s.applied (a ∷ []) (as_list s.sending)
      ∙ ap (λ c. s.applied ++ (as_list c ++ as_list s.sending)) (sym q)
      ∙ i.delivery;
  sender = ap (λ c. apply_action c a) i.sender ∙ sym (apply_all-append b s.applied a);
  seq = i.seq;
  numbered = i.numbered;
})

state_msg-seq : (b : RlSender) (seq rtt : ℤ) → (state_msg b seq rtt).seq ≡ seq
unfolding state_msg
state_msg-seq b seq rtt = refl

publish-Inv :
    (b : RlSender) (start : ℤ) (ls : List Label) (s : System) (msg : StateMsg) (l : Label)
    → msg.seq ≡ next_seq s.seq
    → Inv b start ls s
    → accepted start (l ∷ ls) ≡ accepted start ls
    → seq_after start (l ∷ ls) ≡ next_seq (seq_after start ls)
    → Inv b start (l ∷ ls) (publish s msg)
unfolding publish
publish-Inv b start ls s msg l e i p q = record {
  delivery = i.delivery ∙ sym p;
  sender = i.sender;
  seq = e ∙ ap (λ k. next_seq k) i.seq ∙ sym q;
  numbered = (s.seq, refl, e, i.numbered);
}

guarded :
    {A : Type 0} {t : Bool} {x y : A} → (if t then some x else none) ≡ some y → (t ≡ true) × (x ≡ y)
guarded {t = true} e = (refl, some_inj e)
guarded {t = false} e = absurd (none-neq-some e)

step-Inv :
    (b : RlSender) (start : ℤ) (ls : List Label) (s t : System) (l : Label)
    → step s l ≡ some t
    → Inv b start ls s
    → Inv b start (l ∷ ls) t
unfolding step publish_tick
step-Inv b start ls s t (receive m) e i =
    let k = guarded e in subst (Inv b start (receive m ∷ ls)) k.1 (receive-Inv b start ls s m k.0 i)
step-Inv b start ls s t put e i = put-Inv b start ls s t s.sending s.channel refl refl e i
step-Inv b start ls s t take e i = take-Inv b start ls s t s.channel refl e i
step-Inv b start ls s t (tick none) e i =
    subst (Inv b start (tick none ∷ ls)) (guarded e).1
      (record { delivery = i.delivery; sender = i.sender; seq = i.seq; numbered = i.numbered })
step-Inv b start ls s t (tick (some rtt)) e i =
    subst (Inv b start (tick (some rtt) ∷ ls)) (guarded e).1 (
      publish-Inv b start ls s (state_msg s.sender (next_seq s.seq) rtt) (tick (some rtt))
        (state_msg-seq s.sender (next_seq s.seq) rtt) i refl refl)
step-Inv b start ls s t stop_listening e i =
    subst (Inv b start (stop_listening ∷ ls)) (guarded e).1
      (record { delivery = i.delivery; sender = i.sender; seq = i.seq; numbered = i.numbered })
step-Inv b start ls s t stop_publishing e i =
    let p = publish-Inv b start ls s (fin_msg (next_seq s.seq)) stop_publishing refl i refl refl in
    subst (Inv b start (stop_publishing ∷ ls)) (guarded e).1
      (record { delivery = p.delivery; sender = p.sender; seq = p.seq; numbered = p.numbered })

pub run-Inv :
    (b : RlSender) (start : ℤ) (ls : List Label) (s : System)
    → run (new_system b start) ls ≡ some s
    → Inv b start ls s
unfolding run
run-Inv b start [] s e =
    subst (Inv b start []) (some_inj e)
      (record { delivery = refl; sender = refl; seq = refl; numbered = refl })
run-Inv b start (l ∷ ls) s e = elim (Option-cases (run (new_system b start) ls)) [
  | inl n ↦ absurd (none-neq-some (sym (ap (λ o. o >>= (λ t. step t l)) n) ∙ e))
  | inr (t, q) ↦
      step-Inv b start ls t s l (sym (ap (λ o. o >>= (λ t. step t l)) q) ∙ e)
        (run-Inv b start ls t q)
]
