-- ===== src/Relay/Store.antt =====
-- The state of flint/src/ws/WebsocketServer.h: the channel objects, the server's map of receivers, and
-- what was sent. Every session gets at most one channel object, which lives at the number of its session
-- and is the slot of the session's signals (flint/src/handler/WebsocketHandler.cpp).
use flingd_cc.Base.{ℕ, String, Option, none, some, List, [], ◌∷◌, ◌==◌, if◌then◌else◌}
use flingd_cc.Base.Machine.{Cmd, ok, fault}

abbrev pub Ptr : Type 0
Ptr = ℕ

-- `channel` is the pointer receiverChannel_, which can be NULL.
pub record Sender : Type 0 where
  pub sender_id : String
  pub channel : Option Ptr

pub record Receiver : Type 0 where
  pub channel_id : String
  pub senders : List (String × Ptr)

pub data Channel : Type 0 where
  sender_channel : Sender → Channel
  receiver_channel : Receiver → Channel

pub data Output : Type 0 where
  text : String → Output
  closing : Output

-- `sent` has what was handed to each session, newest first.
pub record Server : Type 0 where
  pub channels : Ptr → Option Channel
  pub receivers : List (String × Ptr)
  pub sent : List (Ptr × Output)

abbrev pub empty_server : Server
empty_server = record { channels = λ p. none; receivers = []; sent = [] }

unfoldable pub write : (Ptr → Option Channel) → Ptr → Option Channel → Ptr → Option Channel
write h p c q = if q == p then c else h q

abbrev pub set_channel : Ptr → Option Channel → Cmd Server (Unit {0})
set_channel p c w = ok tt (record w { channels = write w.channels p c })

abbrev pub set_receivers : List (String × Ptr) → Cmd Server (Unit {0})
set_receivers m w = ok tt (record w { receivers = m })

-- WebsocketSession::send and WebsocketSession::close; the library's close may throw, and here it does not
abbrev pub output : Ptr → Output → Cmd Server (Unit {0})
output p o w = ok tt (record w { sent = (p, o) ∷ w.sent })

abbrev pub sender_or_fault : Option Channel → Cmd Server Sender
sender_or_fault none w = fault
sender_or_fault (some (sender_channel s)) w = ok s w
sender_or_fault (some (receiver_channel r)) w = fault

abbrev pub receiver_or_fault : Option Channel → Cmd Server Receiver
receiver_or_fault none w = fault
receiver_or_fault (some (sender_channel s)) w = fault
receiver_or_fault (some (receiver_channel r)) w = ok r w

unfoldable pub load_sender : Ptr → Cmd Server Sender
load_sender p w = sender_or_fault (w.channels p) w

unfoldable pub load_receiver : Ptr → Cmd Server Receiver
load_receiver p w = receiver_or_fault (w.channels p) w
