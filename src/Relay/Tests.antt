-- ===== src/Relay/Tests.antt =====
-- The server of the channels at concrete states.
use flingd_cc.Base.{
  String, ◌≡◌, refl, Bool, true, false, Option, none, some, List, [], ◌∷◌, str_eq, if◌then◌else◌,
  All,
}
use flingd_cc.Base.Machine.{ok, fault}
use flingd_cc.Relay.Store.{Ptr, Channel, Server, empty_server, receiver_channel, text, write}
use flingd_cc.Relay.Sound.{IsSound, sender_of}
use flingd_cc.Relay.Ends.{Returns}
use flingd_cc.Relay.Steps.{Event, connects, sends, closes, step, is_fatal, step-Returns_iff}
use flingd_cc.Relay.Routes.{
  IsSenderOf, addressees, told, sender_message_routed, receiver_message_routed, Reachable, start,
  next, Reachable-IsSound,
}

-- The last text of an object, and a message that is for the sender "s1".
abbrev last : List (String × String) → String
last [] = ""
last ((k, s) ∷ []) = s
last (f ∷ g ∷ fs) = last (g ∷ fs)

abbrev for_s1 : String → Option (String × Option String)
for_s1 msg = some ("s1", some msg)

abbrev anywhere : String → String → Bool
anywhere s t = true

abbrev sender_path : String → Option (String × String)
sender_path path = if str_eq path "sender" then some ("c", "s1") else none

abbrev receiver_path : String → Option String
receiver_path path = some "c"

abbrev RunsTo : Event → Server → Server → Type 0
RunsTo e w w' = step last for_s1 anywhere sender_path receiver_path e w ≡ ok tt w'

abbrev waiting_channels : Ptr → Option Channel
waiting_channels =
    write empty_server.channels 1
      (some (receiver_channel (record { channel_id = "c"; senders = [] })))

abbrev waiting : Server
waiting = record { channels = waiting_channels; receivers = ("c", 1) ∷ []; sent = [] }

-- a receiver with one sender
abbrev pair : Server
pair = record {
  channels =
      write (write waiting_channels 2 (sender_of "s1" 1)) 1
        (some (receiver_channel (record { channel_id = "c"; senders = ("s1", 2) ∷ [] })));
  receivers = ("c", 1) ∷ [];
  sent = (1, text "s1") ∷ [];
}

receiver_connects : RunsTo (connects "receiver" 1) empty_server waiting
unfolding step
receiver_connects = refl

sender_connects : RunsTo (connects "sender" 2) waiting pair
unfolding step write
sender_connects = refl

pair-Reachable : Reachable last for_s1 anywhere sender_path receiver_path pair
unfolding write
pair-Reachable =
    next (connects "sender" 2) (next (connects "receiver" 1) start refl receiver_connects) refl
      sender_connects

Reachable-IsSound_example : IsSound pair
Reachable-IsSound_example =
    Reachable-IsSound last for_s1 anywhere sender_path receiver_path pair pair-Reachable

pair-IsSound : IsSound pair
pair-IsSound = Reachable-IsSound last for_s1 anywhere sender_path receiver_path pair pair-Reachable

step-Returns_iff_example :
    (is_fatal last for_s1 anywhere sender_path receiver_path (closes 1) pair ≡ true
      → step last for_s1 anywhere sender_path receiver_path (closes 1) pair ≡ fault)
    × (is_fatal last for_s1 anywhere sender_path receiver_path (closes 1) pair ≡ false
        → Returns (step last for_s1 anywhere sender_path receiver_path (closes 1) pair))
step-Returns_iff_example =
    step-Returns_iff last for_s1 anywhere sender_path receiver_path pair pair-IsSound (closes 1) tt

sender_at_two : pair.channels 2 ≡ sender_of "s1" 1
unfolding write
sender_at_two = refl

receiver_at_one :
    pair.channels 1
    ≡ some (receiver_channel (record { channel_id = "c"; senders = ("s1", 2) ∷ [] }))
unfolding write
receiver_at_one = refl

sender_message_routed_example :
    RunsTo (sends 2 "hi") pair (record pair { sent = (1, text "hi") ∷ (1, text "s1") ∷ [] })
sender_message_routed_example =
    sender_message_routed last for_s1 anywhere sender_path receiver_path pair pair-IsSound 1 2 "s1"
      "hi" sender_at_two

receiver_message_routed_example :
    RunsTo
      (sends 1 "yo")
      pair
      (record pair { sent = told "yo" (addressees "s1" (("s1", 2) ∷ [])) pair.sent })
    × All (IsSenderOf pair 1) (addressees "s1" (("s1", 2) ∷ []))
receiver_message_routed_example =
    receiver_message_routed last for_s1 anywhere sender_path receiver_path pair pair-IsSound 1
      (record { channel_id = "c"; senders = ("s1", 2) ∷ [] }) "yo" "s1" "yo" receiver_at_one refl
