-- ===== src/Sdk/Bus.antt =====
-- sdk/receiver/src/ReceiverMessageBus.cpp, ReceiverMessageChannel.cpp and MessageBusManager.cpp. A listener
-- is what it is told; what it does then is an event of its own.
use flingd_cc.Base.{
  String, Bool, true, false, ◌&&◌, List, [], ◌∷◌, none, some, is_some, str_eq, if◌then◌else◌,
}
use flingd_cc.Base.Machine.{Cmd, ok, skip, ◌>>=◌, ◌>>◌}
use flingd_cc.StdMap.{find, insert}
use flingd_cc.Media.Json.{Json, texts, object, end, member}
use flingd_cc.Media.Info.{is_null, at, get_string}
use flingd_cc.Sdk.Store.{
  receivers, Bus, BusManager, Notice, message, connected, disconnected, Sdk, Do, set_channel,
  value_or_fault, load_manager, set_manager, tell,
}
use flingd_cc.Sdk.Channel.{open_channel, close_channel, send_to, flush, mark_closed}

-- The listeners of the buses whose namespace passes the test.
unfoldable pub notices : (String → Bool) → (String → Notice) → List (String × Bus) → List Notice
notices test f [] = []
notices test f ((ns, b) ∷ m) =
    let rest = notices test f m in if test ns && b.listened then f ns ∷ rest else rest

-- MessageBusManager::clear; its channel and the buses are deleted
unfoldable pub clear_buses : Do
unfolding load_manager
clear_buses = do
  b ← load_manager
  if b.linked then set_channel receivers none else skip
  set_manager (some (record { opened = false; linked = false; buses = [] }))

-- MessageBusManager::open and close
unfoldable pub open_buses : String → String → Do
unfolding load_manager open_channel
open_buses app_id url = do
  b ← load_manager
  if str_eq app_id "" then skip else if b.linked then open_channel receivers url else skip

unfoldable pub close_buses : Do
unfolding load_manager close_channel clear_buses
close_buses = do b ← load_manager; if b.linked then close_channel receivers else skip; clear_buses

-- MessageBusManager::createMessageBus: whether there is a bus
unfoldable pub create_bus : String → Cmd Sdk Bool
unfolding load_manager find insert
create_bus ns = do
  b ← load_manager
  if str_eq ns "" then ok false else if is_some (find ns b.buses) then ok true else (do
    set_manager (
        some
          (record b { buses = insert ns (record { listened = false; linked = b.linked }) b.buses }))
    ok true)

-- the bus of a namespace, which a user has a pointer to
unfoldable pub load_bus : String → Cmd Sdk Bus
unfolding load_manager find
load_bus ns = do b ← load_manager; value_or_fault (find ns b.buses)

-- A map with the value of a key changed.
unfoldable pub change_bus : String → (Bus → Bus) → List (String × Bus) → List (String × Bus)
change_bus ns f [] = []
change_bus ns f ((k, b) ∷ m) =
    let rest = change_bus ns f m in if str_eq k ns then (k, f b) ∷ rest else (k, b) ∷ rest

-- ReceiverMessageBus::setListener
unfoldable pub set_listener : String → Bool → Do
unfolding load_bus load_manager change_bus
set_listener ns l = do
  load_bus ns
  b ← load_manager
  set_manager (some (record b { buses = change_bus ns (λ u. record u { listened = l }) b.buses }))

-- MessageBusManager::onOpen, with the channel's own
unfoldable pub on_open_buses : Do
unfolding flush load_manager
on_open_buses = do
  flush receivers
  b ← load_manager
  set_manager (some (record b { opened = true }))

-- MessageBusManager::onClose and onFailed, with the channel's own
unfoldable pub on_close_buses : Do
unfolding mark_closed clear_buses
on_close_buses = do mark_closed receivers; clear_buses

module _ {D : Type 0} (print : Json D → String) (parse : String → Json D) where
  -- ReceiverMessageBus::send
  unfoldable pub bus_send : String → String → String → Do
  unfolding load_bus send_to
  bus_send ns m sender = do
    b ← load_bus ns
    if b.linked
        then send_to print receivers
            (print (object (member "namespace" (texts ns) (member "payload" (texts m) end)))) sender
        else skip

  unfoldable pub bus_broadcast : String → String → Do
  unfolding bus_send
  bus_broadcast ns m = bus_send ns m "*:*"

  -- `message` of a sender, read
  unfoldable pub deliver : BusManager → String → Json D → Do
  unfolding at get_string notices
  deliver b sender d = if is_null d then skip else (do
    ns ← at "namespace" d
    if is_null ns then skip else (do
      payload ← at "payload" d
      if is_null payload then skip else (do
        n ← get_string ns
        p ← get_string payload
        tell (notices (λ k. str_eq k n) (λ k. message k p sender) b.buses))))

  -- MessageBusManager::onMessage
  unfoldable pub on_receiver_message : String → String → String → Do
  unfolding load_manager notices deliver
  on_receiver_message type_ sender m = do
    b ← load_manager
    if str_eq type_ "senderConnected"
        then tell (notices (λ k. true) (λ k. connected k sender) b.buses)
        else if str_eq type_ "senderDisconnected"
        then tell (notices (λ k. true) (λ k. disconnected k sender) b.buses)
        else if str_eq type_ "message"
        then deliver b sender (parse m)
        else skip

  unfoldable pub on_data : String → Json D → Do
  unfolding get_string on_receiver_message
  on_data sender v =
      if is_null v then skip else (do m ← get_string v; on_receiver_message "message" sender m)

  -- what a channel does with a message of a sender, by its type
  unfoldable pub typed_message : String → String → Json D → Do
  unfolding at on_receiver_message on_data
  typed_message type_ sender d =
      if str_eq type_ "senderConnected"
      then on_receiver_message "senderConnected" sender ""
      else if str_eq type_ "senderDisconnected"
      then on_receiver_message "senderDisconnected" sender ""
      else if str_eq type_ "message"
      then (do v ← at "data" d; on_data sender v)
      else skip

  unfoldable pub channel_message : Json D → Do
  unfolding at get_string typed_message
  channel_message d = if is_null d then skip else (do
    t ← at "type" d
    if is_null t then skip else (do
      s ← at "senderId" d
      if is_null s
          then skip
          else (do sender ← get_string s; type_ ← get_string t; typed_message type_ sender d)))

  -- ReceiverMessageChannel::onMessage
  unfoldable pub on_channel_message : String → Do
  unfolding channel_message
  on_channel_message text = channel_message (parse text)
