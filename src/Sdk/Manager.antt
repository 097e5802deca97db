-- ===== src/Sdk/Manager.antt =====
-- sdk/receiver/src/FlintReceiverManager.cpp: the connection of an application with the daemon. Texts are
-- printed and parsed JSON. The log is on, so that what it reads of a message is read.
use Prim.Native.String.{◌++◌ as ◌&◌}
use flingd_cc.Base.{
  String, Bool, true, false, ◌&&◌, [], Option, none, some, is_some, str_eq, if◌then◌else◌,
}
use flingd_cc.Base.Machine.{Cmd, ok, skip, get, ◌>>=◌, ◌>>◌}
use flingd_cc.Media.Json.{Json, texts, array, object, Items, done, item, Members, end, member}
use flingd_cc.Media.Info.{is_null, at, get_string}
use flingd_cc.Sdk.Store.{ChannelName, ipc, receivers, Channel, Sdk, Do, new_channel, load}
use flingd_cc.Sdk.Channel.{open_channel, close_channel, send, flush, mark_closed, run_task}
use flingd_cc.Sdk.Bus.{
  set_listener, bus_send, open_buses, close_buses, create_bus, on_open_buses, on_close_buses,
  on_channel_message,
}

abbrev pub set_opened : Bool → Do
set_opened b w = ok tt (record w { opened = b })

abbrev pub set_service_url : String → Do
set_service_url t w = ok tt (record w { service_url = t })

abbrev pub set_custom_data : String → Do
set_custom_data t w = ok tt (record w { custom_data = t })

unfoldable pub new_sdk : Sdk
new_sdk = record {
  opened = false;
  ipc_channel = some new_channel;
  bus_manager = some (record { opened = false; linked = true; buses = [] });
  receiver_channel = some new_channel;
  service_url = "127.0.0.1";
  custom_data = "";
  tasks = [];
  told = [];
}

-- ipcSend
unfoldable pub send_to_channel : Option Channel → String → Do
unfolding send
send_to_channel none m = skip
send_to_channel (some c) m = send ipc m

unfoldable pub ipc_send : String → Do
unfolding send_to_channel
ipc_send m = do w ← get; send_to_channel w.ipc_channel m

unfoldable pub is_opened : Sdk → Bool
is_opened w = elim w.ipc_channel [ none ↦ false | some c ↦ w.opened && c.opened ]

-- clear; the destructor of the bus manager deletes nothing
unfoldable pub clear : Do
clear w = ok tt (record w { ipc_channel = none; bus_manager = none; opened = false })

-- FlintReceiverManager::createMessageBus
unfoldable pub create_message_bus : String → Cmd Sdk Bool
unfolding is_opened create_bus
create_message_bus ns = do
  w ← get
  if is_opened w then ok false else if is_some w.bus_manager then create_bus ns else ok false

module _ {D : Type 0} (print : Json D → String) (parse : String → Json D) (app_id : String) where
  -- the object with a type and the identifier of the application
  abbrev pub typed_object : String → Members D → Json D
  typed_object type_ ms = object (member "type" (texts type_) (member "appid" (texts app_id) ms))

  unfoldable pub un_register_self : Do
  unfolding ipc_send
  un_register_self = ipc_send (print (typed_object "unregister" end))

  unfoldable pub register_self : Do
  unfolding ipc_send
  register_self = ipc_send (print (typed_object "register" end))

  unfoldable pub send_heartbeat : String → Do
  unfolding ipc_send
  send_heartbeat t = ipc_send (print (typed_object "heartbeat" (member "heartbeat" (texts t) end)))

  abbrev pub base_url : String → String
  base_url url = "ws://" & (url & (":9439/channels/" & "channelBaseUrl"))

  abbrev pub custom_member : String → Members D
  custom_member t = if str_eq t "" then end else member "customData" (texts t) end

  -- the object of the additional data
  unfoldable pub additional_members : Sdk → Members D
  additional_members w =
      if is_some w.bus_manager
      then member "channelBaseUrl" (texts (base_url w.service_url)) (custom_member w.custom_data)
      else custom_member w.custom_data

  unfoldable pub join_additional_data : Sdk → String
  unfolding additional_members
  join_additional_data w =
      if is_some w.bus_manager
      then print (
          typed_object "additionaldata"
            (member "additionaldata" (object (additional_members w)) end))
      else if str_eq w.custom_data ""
      then ""
      else print (
          typed_object "additionaldata"
            (member "additionaldata" (object (additional_members w)) end))

  unfoldable pub send_additional_data : Do
  unfolding join_additional_data ipc_send
  send_additional_data = do
    w ← get
    if str_eq (join_additional_data w) "" then skip else ipc_send (join_additional_data w)

  unfoldable pub set_additional_data : String → Do
  unfolding send_additional_data
  set_additional_data t = do set_custom_data t; send_additional_data

  abbrev pub buses_url : String
  buses_url = "ws://127.0.0.1:9439/channels/channelBaseUrl"

  abbrev pub ipc_url : String
  ipc_url = "ws://127.0.0.1:9431/receiver/" & app_id

  -- FlintReceiverManager::open, before the io_service is run
  unfoldable pub open_manager : Do
  unfolding open_buses open_channel
  open_manager = do
    w ← get
    if w.opened then skip else (do
      if is_some w.bus_manager then open_buses app_id buses_url else skip
      if is_some w.ipc_channel then open_channel ipc ipc_url else skip
      set_opened true)

  unfoldable pub close_manager : Do
  unfolding un_register_self close_buses close_channel clear
  close_manager = do
    w ← get
    if w.opened
        then (do
          un_register_self
          if is_some w.bus_manager then close_buses else skip
          if is_some w.ipc_channel then close_channel ipc else skip
          clear)
        else skip

  unfoldable pub on_first_ip : Items D → Do
  unfolding get_string send_additional_data
  on_first_ip done = skip
  on_first_ip (item v is) = do ip ← get_string v; set_service_url ip; send_additional_data

  unfoldable pub on_ip : Json D → Do
  unfolding on_first_ip
  on_ip (array is) = on_first_ip is
  on_ip v = skip

  unfoldable pub on_heartbeat : Json D → Do
  unfolding get_string send_heartbeat
  on_heartbeat v = if is_null v then skip else (do
    t ← get_string v
    if str_eq t "ping"
        then send_heartbeat "pong"
        else if str_eq t "pong"
        then send_heartbeat "ping"
        else skip)

  -- a message with its type
  unfoldable pub dispatch : String → Json D → Do
  unfolding at get_string on_ip on_heartbeat
  dispatch type_ d =
      if str_eq type_ "registerok"
      then (do
        info ← at "service_info" d
        if is_null info then skip else (do v ← at "ip" info; on_ip v))
      else if str_eq type_ "startHeartbeat"
      then skip
      else if str_eq type_ "heartbeat"
      then (do v ← at "heartbeat" d; on_heartbeat v)
      else if str_eq type_ "senderconnected"
      then (do v ← at "token" d; get_string v; skip)
      else if str_eq type_ "senderdisconnected"
      then (do v ← at "token" d; get_string v; skip)
      else skip

  unfoldable pub ipc_message : Json D → Do
  unfolding at get_string dispatch
  ipc_message d = if is_null d then skip else (do
    id ← at "appid" d
    if is_null id then skip else (do
      t ← get_string id
      if str_eq app_id t
          then (do
            v ← at "type" d
            if is_null v then skip else (do type_ ← get_string v; dispatch type_ d))
          else skip))

  -- FlintReceiverManager::onIpcMessage
  unfoldable pub on_ipc_message : String → Do
  unfolding ipc_message
  on_ipc_message text = if str_eq text "" then skip else ipc_message (parse text)

  -- What reaches the channels, and what the application does.
  pub data Event : Type 0 where
    opens fails_or_closes : ChannelName → Event
    receives : ChannelName → String → Event
    runs_task : Event
    sets_data : String → Event
    calls_open calls_close : Event
    creates_bus : String → Event
    sets_listener : String → Bool → Event
    sends_on_bus : (ns m sender : String) → Event

  unfoldable pub on_open : ChannelName → Do
  unfolding flush register_self on_open_buses
  on_open ipc = do flush ipc; register_self
  on_open receivers = on_open_buses

  -- onClose and onFail of a channel, with their signals
  unfoldable pub on_close : ChannelName → Do
  unfolding mark_closed clear on_close_buses
  on_close ipc = do mark_closed ipc; clear
  on_close receivers = on_close_buses

  unfoldable pub on_message : ChannelName → String → Do
  unfolding load on_ipc_message on_channel_message
  on_message ipc text = do load ipc; on_ipc_message text
  on_message receivers text = do load receivers; on_channel_message print parse text

  unfoldable pub step : Event → Do
  unfolding on_open on_close on_message run_task set_additional_data open_manager close_manager
      create_message_bus set_listener bus_send
  step (opens n) = on_open n
  step (fails_or_closes n) = on_close n
  step (receives n text) = on_message n text
  step runs_task = run_task
  step (sets_data t) = set_additional_data t
  step calls_open = open_manager
  step calls_close = close_manager
  step (creates_bus ns) = create_message_bus ns >>= (λ b. skip)
  step (sets_listener ns l) = set_listener ns l
  step (sends_on_bus ns m sender) = bus_send print parse ns m sender
