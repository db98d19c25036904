-- ===== src/Rl/Steps.antt =====
-- internal/congestion/rl: the goroutines of a sender, step by step.
use qperf_go.Prelude.{
  Bool, true, false, Option, none, some, List, [], ◌∷◌, ◌++◌, if◌then◌else◌, ℤ, ltb_ℤ, ◌>>=◌,
}
use qperf_go.Rl.{StateMsg, ActionMsg, RlSender, apply_action, state_msg, fin_msg, next_seq}

-- `channel` is what the action channel holds, `sending` the action that the listener waits to put in
-- it, `published` all messages handed to Redis, newest first, `applied` the actions applied, oldest
-- first.
pub record System : Type 0 where
  pub sender : RlSender
  pub seq : ℤ
  pub channel : Option ActionMsg
  pub sending : Option ActionMsg
  pub listening : Bool
  pub publishing : Bool
  pub published : List StateMsg
  pub applied : List ActionMsg

abbrev pub new_system : RlSender → ℤ → System
new_system sender seq = record {
  sender = sender;
  seq = seq;
  channel = none;
  sending = none;
  listening = true;
  publishing = true;
  published = [];
  applied = [];
}

-- `ListenAction` receives a message, which reads as an action or as none, and later puts the action
-- into the channel; the second goroutine takes an action from the channel and applies it; the third
-- one publishes at a tick, if there are RTT statistics. Both listener and publisher end with the
-- context.
pub data Label : Type 0 where
  receive : Option ActionMsg → Label
  put : Label
  take : Label
  tick : Option ℤ → Label
  stop_listening : Label
  stop_publishing : Label

-- `sendAction` drops an action that is older than the last state.
unfoldable pub send_action : System → ActionMsg → System
send_action s a = if ltb_ℤ a.seq s.seq then s else record s { sending = some a }

unfoldable pub receive_action : System → Option ActionMsg → System
receive_action s none = s
receive_action s (some a) = send_action s a

unfoldable pub put_action : System → Option ActionMsg → Option ActionMsg → Option System
put_action s (some a) none = some (record s { channel = some a; sending = none })
put_action s (some a) (some b) = none
put_action s none c = none

unfoldable pub take_action : System → Option ActionMsg → Option System
take_action s none = none
take_action s (some a) =
    some (record s {
      channel = none;
      sender = apply_action s.sender a;
      applied = s.applied ++ (a ∷ []);
    })

unfoldable pub publish : System → StateMsg → System
publish s msg = record s { seq = msg.seq; published = msg ∷ s.published }

unfoldable pub publish_tick : System → Option ℤ → System
publish_tick s none = s
publish_tick s (some rtt) = publish s (state_msg s.sender (next_seq s.seq) rtt)

-- The listener is at its `select`: it runs, and does not wait in a send.
unfoldable pub idle : Bool → Option ActionMsg → Bool
idle listening none = listening
idle listening (some a) = false

unfoldable pub step : System → Label → Option System
step s (receive m) = if idle s.listening s.sending then some (receive_action s m) else none
step s put = put_action s s.sending s.channel
step s take = take_action s s.channel
step s (tick rtt) = if s.publishing then some (publish_tick s rtt) else none
step s stop_listening =
    if idle s.listening s.sending then some (record s { listening = false }) else none
step s stop_publishing =
    if s.publishing
    then some (record (publish s (fin_msg (next_seq s.seq))) { publishing = false })
    else none

-- Labels, newest first.
unfoldable pub run : System → List Label → Option System
run s [] = some s
run s (l ∷ ls) = do t ← run s ls; step t l
