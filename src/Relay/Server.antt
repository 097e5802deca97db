-- ===== src/Relay/Server.antt =====
-- flint/src/ws/WebsocketServer.cpp: SenderChannel, ReceiverChannel and WebsocketServer. `json` writes an
-- object with fields that are texts, and `parse` reads the fields senderId and data of one. There are no
-- assertions in the Release builds: to read the text of another value is undefined, and here a fault. It
-- is `none` without a text in senderId, and its data is `none` without one in data. The regular expressions of a path are parameters, and so is `starts_with`.
use flingd_cc.Base.{String, Bool, Option, none, some, List, [], ◌∷◌, str_eq, is_some, if◌then◌else◌}
use flingd_cc.Base.Machine.{Cmd, skip, get, crash, ◌>>=◌, ◌>>◌}
use flingd_cc.StdMap.{find, insert, erase}
use flingd_cc.Relay.Store.{
  Ptr, Receiver, Channel, sender_channel, receiver_channel, Output, text, closing, Server,
  set_channel, set_receivers, output, load_sender, load_receiver,
}

abbrev pub Do : Type 0
Do = Cmd Server (Unit {0})

-- WebsocketServer::removeReceiverChannel, the slot of a receiver's Close
unfoldable pub remove_receiver_channel : String → Do
unfolding erase
remove_receiver_channel id = do w ← get; set_receivers (erase id w.receivers)

-- SenderChannel::close
unfoldable pub close_sender : Ptr → Do
unfolding load_sender
close_sender p = do
  s ← load_sender p
  set_channel p (some (sender_channel (record s { channel = none })))
  output p closing

-- the loop of ReceiverChannel::onClose
unfoldable pub close_senders : List (String × Ptr) → Do
unfolding close_sender
close_senders [] = skip
close_senders ((k, p) ∷ rest) = do close_sender p; close_senders rest

-- the loop of ReceiverChannel::onMessage, which reads the data for each sender
unfoldable pub send_all : Option String → List (String × Ptr) → Do
unfolding load_sender
send_all data_ [] = skip
send_all none ((k, p) ∷ rest) = crash
send_all (some msg) ((k, p) ∷ rest) = do
  load_sender p
  output p (text msg)
  send_all (some msg) rest

unfoldable pub send_to : Option String → Option Ptr → Do
unfolding load_sender
send_to data_ none = skip
send_to none (some p) = crash
send_to (some msg) (some p) = do load_sender p; output p (text msg)

-- ReceiverChannel::onClose, and `delete this`
unfoldable pub on_receiver_close : Ptr → Do
unfolding load_receiver close_senders remove_receiver_channel
on_receiver_close p = do
  r ← load_receiver p
  close_senders r.senders
  set_channel p (some (receiver_channel (record r { senders = [] })))
  remove_receiver_channel r.channel_id
  set_channel p none

unfoldable pub deliver : Option (String × Option String) → Receiver → Do
unfolding send_all send_to find
deliver none r = crash
deliver (some (id, data_)) r =
    if str_eq id "*:*" then send_all data_ r.senders else send_to data_ (find id r.senders)

module _ (json : List (String × String) → String) where
  unfoldable pub notice : String → String → Output
  notice type_ id = text (json (("type", type_) ∷ ("senderId", id) ∷ []))

  -- ReceiverChannel::removeSenderChannel
  unfoldable pub remove_sender_channel : Ptr → String → Do
  unfolding load_receiver notice find erase
  remove_sender_channel p id = do
    r ← load_receiver p
    if is_some (find id r.senders)
        then (do
          output p (notice "senderDisconnected" id)
          set_channel p (some (receiver_channel (record r { senders = erase id r.senders }))))
        else skip

  unfoldable pub leave : Option Ptr → String → Do
  unfolding remove_sender_channel
  leave none id = skip
  leave (some p) id = remove_sender_channel p id

  -- SenderChannel::onClose, and `delete this`
  unfoldable pub on_sender_close : Ptr → Do
  unfolding load_sender leave
  on_sender_close p = do s ← load_sender p; leave s.channel s.sender_id; set_channel p none

  unfoldable pub forward : Option Ptr → String → String → Do
  unfolding load_receiver
  forward none id msg = crash
  forward (some p) id msg = do
    load_receiver p
    output p (text (json (("type", "message") ∷ ("senderId", id) ∷ ("data", msg) ∷ [])))

  -- SenderChannel::onMessage
  unfoldable pub on_sender_message : Ptr → String → Do
  unfolding load_sender forward
  on_sender_message p msg = do s ← load_sender p; forward s.channel s.sender_id msg

  -- ReceiverChannel::addSenderChannel, for a session `q`
  unfoldable pub add_sender_channel : Ptr → String → Ptr → Do
  unfolding load_receiver notice find insert
  add_sender_channel p id q = do
    r ← load_receiver p
    if is_some (find id r.senders) then output q closing else (do
      set_channel q (some (sender_channel (record { sender_id = id; channel = some p })))
      set_channel p (some (receiver_channel (record r { senders = insert id q r.senders })))
      output p (notice "senderConnected" id))

  unfoldable pub join : Option Ptr → String → Ptr → Do
  unfolding add_sender_channel
  join none id q = output q closing
  join (some p) id q = add_sender_channel p id q

  -- WebsocketServer::onSenderConnected
  unfoldable pub on_sender_connected : String → String → Ptr → Do
  unfolding join find
  on_sender_connected channel_id id q = do w ← get; join (find channel_id w.receivers) id q

  -- WebsocketServer::addReceiverChannel
  unfoldable pub add_receiver_channel : String → Ptr → Do
  unfolding find insert
  add_receiver_channel id p = do
    w ← get
    if is_some (find id w.receivers) then output p closing else (do
      set_channel p (some (receiver_channel (record { channel_id = id; senders = [] })))
      set_receivers (insert id p w.receivers))

  unfoldable pub connect_receiver : Option String → Ptr → Do
  unfolding add_receiver_channel
  connect_receiver none p = skip
  connect_receiver (some channel_id) p = add_receiver_channel channel_id p

  unfoldable pub connect : Option (String × String) → Option String → Ptr → Do
  unfolding on_sender_connected connect_receiver
  connect none receiver p = connect_receiver receiver p
  connect (some (channel_id, id)) receiver p = on_sender_connected channel_id id p

  module _ (starts_with : String → String → Bool) (sender_regex : String → Option (String × String))
      (receiver_regex : String → Option String) where
    -- WebsocketServer::onWebsocketConnection
    unfoldable pub on_websocket_connection : String → Ptr → Do
    unfolding connect
    on_websocket_connection path p =
        if starts_with path "/channels/"
        then connect (sender_regex path) (receiver_regex path) p
        else skip

  module _ (parse : String → Option (String × Option String)) where
    -- ReceiverChannel::onMessage
    unfoldable pub on_receiver_message : Ptr → String → Do
    unfolding load_receiver deliver
    on_receiver_message p msg = do r ← load_receiver p; deliver (parse msg) r

    -- the signals of a session, to the channel object that is connected to them, if there is one
    unfoldable pub message_to : Option Channel → Ptr → String → Do
    unfolding on_sender_message on_receiver_message
    message_to none p msg = skip
    message_to (some (sender_channel s)) p msg = on_sender_message p msg
    message_to (some (receiver_channel r)) p msg = on_receiver_message p msg

    unfoldable pub close_of : Option Channel → Ptr → Do
    unfolding on_sender_close on_receiver_close
    close_of none p = skip
    close_of (some (sender_channel s)) p = on_sender_close p
    close_of (some (receiver_channel r)) p = on_receiver_close p
