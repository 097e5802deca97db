-- ===== src/Receiver/Handler.antt =====
-- flint/src/flint/handler/ReceiverApplicationHandler.cpp, over the application manager and the sessions.
-- A message is given by the members that are read. The builds are Release ones, without the assertions of
-- rapidjson: a member that is missing is read as null, and to read the text of a value that is none is
-- undefined, and here a fault. Only of the message itself, which is an object, such a text is read in
-- every heartbeat, so that it is given, whatever it is. Timers are whether they are armed. What the sessions
-- tell their listener stands in their state.
use Prim.Native.String.{◌++◌ as ◌&◌}
use flingd_cc.Base.{
  ℕ, String, Bool, true, false, Option, none, some, List, [], ◌∷◌, str_eq, if◌then◌else◌,
}
use flingd_cc.App.Store.{Ptr, Cmd, pure, fault, get, load, store, ◌>>=◌, ◌>>◌}
use flingd_cc.App.Manager.{started, stop_application, launch}
use flingd_cc.App.Events.{get_alive_application, close_beside}
use flingd_cc.Sessions.Manager.{
  SessionManager, create_receiver, touch_receiver, disconnect_receiver, set_session_listener,
}
use flingd_cc.Peers.Reading.{Member, missing, null, texts, other}

-- the texts that are sent, by their fields, and the end of the connection
pub data Output : Type 0 where
  register_ok : String → Output
  start_heartbeat : Output
  heartbeat : String → Output
  sender_connected sender_disconnected : String → Output
  closing : Output

-- `sent` is newest first.
pub record Link : Type 0 where
  pub sessions : SessionManager
  pub ping_armed : Bool
  pub ip_armed : Bool
  pub cached_ip : String
  pub sent : List Output

-- the member additionaldata: missing, no object, or an object; a value of it may be no text
pub data Additional : Type 0 where
  absent : Additional
  no_object : Additional
  pairs : List (String × Option String) → Additional

pub record Fields : Type 0 where
  pub app_id : Member
  pub type_ : Member
  pub additional : Additional
  pub heartbeat : Member
  -- what GetString gives of the whole message
  pub document_text : String

abbrev say : Output → Link → Link
say o l = record l { sent = o ∷ l.sent }

abbrev crash : {A : Type 0} → Cmd A
crash w = fault

-- ReceiverApplicationHandler::close
unfoldable pub close : Link → Link
close l = say closing (record l { ping_armed = false; ip_armed = false })

-- onRegister, for the address of the network
unfoldable pub on_register : String → Link → Link
on_register ip l = say (register_ok ip) (record l { cached_ip = ip })

unfoldable pub async_check_ip : Link → Link
async_check_ip l = record l { ip_armed = true }

unfoldable pub async_send_ping : Link → Link
async_send_ping l = record l { ping_armed = true }

-- startHeartbeat
unfoldable pub begin_heartbeat : Link → Link
unfolding async_send_ping
begin_heartbeat l = async_send_ping (say start_heartbeat l)

-- handleStartPing, without an error
unfoldable pub handle_start_ping : Link → Link
unfolding async_send_ping
handle_start_ping l = async_send_ping (say (heartbeat "ping") l)

-- the text of the additional data
unfoldable pub tags : List (String × Option String) → Option String
tags [] = some ""
tags ((k, none) ∷ m) = none
tags ((k, some v) ∷ m) = elim (tags m) [
  | none ↦ none
  | some t ↦ some ("<" & (k & (">" & (v & ("</" & (k & (">" & t)))))))
]

module _ (iequals : String → String → Bool) (app_id : String) where
  -- handleCheckIp, without an error
  unfoldable pub handle_check_ip : String → Link → Link
  unfolding on_register async_check_ip
  handle_check_ip ip l = async_check_ip (if iequals l.cached_ip ip then l else on_register ip l)

  -- onSenderConnected, onSenderDisconnected and onReceiverDisconnected
  unfoldable pub on_sender_connected : String → Link → Link
  on_sender_connected token l = say (sender_connected token) l

  unfoldable pub on_sender_disconnected : String → Link → Link
  on_sender_disconnected token l = say (sender_disconnected token) l

  unfoldable pub on_receiver_disconnected : String → Link → Link
  unfolding close
  on_receiver_disconnected id l = if str_eq id app_id then close l else l

  unfoldable pub set_additional : Ptr → Option String → Link → Cmd Link
  unfolding load store
  set_additional p none l = crash
  set_additional p (some t) l = do a ← load p; store p (record a { additional_data = t }); pure l

  unfoldable pub on_additional : Ptr → Additional → Link → Cmd Link
  unfolding set_additional tags
  on_additional p absent l = pure l
  on_additional p no_object l = pure l
  on_additional p (pairs m) l = set_additional p (tags m) l

  -- the text of the whole message is read, and not that of its member
  unfoldable pub on_heartbeat : Member → String → Link → Cmd Link
  on_heartbeat missing t l = pure l
  on_heartbeat null t l = pure l
  on_heartbeat m t l = pure (if iequals t "ping" then say (heartbeat "pong") l else l)

  module _ (launches : String → Bool) (n : ℕ) (now : ℕ) (token ip : String) where
    unfoldable pub registered : Ptr → SessionManager × Bool → Link → Cmd Link
    unfolding started close on_register async_check_ip begin_heartbeat touch_receiver
    registered p (m, false) l = pure (close (record l { sessions = m }))
    registered p (m, true) l = do
      started (launch launches n) p
      (let r = begin_heartbeat (async_check_ip (on_register ip (record l { sessions = m }))) in
          pure (record r { sessions = (touch_receiver now app_id m).0 }))

    unfoldable pub on_registration : Ptr → Link → Cmd Link
    unfolding load stop_application close registered set_session_listener create_receiver
    on_registration p l = do
      a ← load p
      if a.use_ipc
          then registered p
              (create_receiver now token app_id (set_session_listener true l.sessions)) l
          else (do stop_application (launch launches n); pure (close l))

    unfoldable pub dispatch : Ptr → String → Fields → Link → Cmd Link
    unfolding on_registration on_additional on_heartbeat stop_application close
    dispatch p type_ f l =
        if iequals type_ "register"
        then on_registration p l
        else if iequals type_ "unregister"
        then (do stop_application (launch launches n); pure (close l))
        else if iequals type_ "additionaldata"
        then on_additional p f.additional l
        else if iequals type_ "heartbeat"
        then on_heartbeat f.heartbeat f.document_text l
        else pure l

    unfoldable pub typed : Ptr → Member → Fields → Link → Cmd Link
    unfolding dispatch touch_receiver
    typed p missing f l = pure l
    typed p null f l = pure l
    typed p other f l = crash
    typed p (texts t) f l =
        dispatch p t f (record l { sessions = (touch_receiver now app_id l.sessions).0 })

    unfoldable pub addressed : Ptr → Member → Fields → Link → Cmd Link
    unfolding typed
    addressed p missing f l = pure l
    addressed p null f l = pure l
    addressed p other f l = crash
    addressed p (texts t) f l = if str_eq app_id t then typed p f.type_ f l else pure l

    unfoldable pub received : Ptr → Option Fields → Link → Cmd Link
    unfolding addressed
    received p none l = pure l
    received p (some f) l = addressed p f.app_id f l

    unfoldable pub message_for : Option Ptr → Option Fields → Link → Cmd Link
    unfolding load close received
    message_for none f l = pure (close l)
    message_for (some p) f l = do
      a ← load p
      if str_eq a.app_id app_id then received p f l else pure (close l)

    -- onMessage; there are no fields of a message that is null
    unfoldable pub on_message : Option Fields → Link → Cmd Link
    unfolding message_for
    on_message f l = do w ← get; message_for (get_alive_application w) f l

    -- onClose
    unfoldable pub on_close : Link → Cmd Link
    unfolding close_beside disconnect_receiver set_session_listener
    on_close l = do
      w ← get
      close_beside launches n app_id w.stopping
      (let m = set_session_listener false (disconnect_receiver app_id l.sessions).0 in
          pure (record l { sessions = m; ping_armed = false; ip_armed = false }))
