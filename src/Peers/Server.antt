-- ===== src/Peers/Server.antt =====
-- flint/src/peer/PeerServer.cpp. The searches compare by `iequals`; the texts that are sent to a session
-- are written by rapidjson. The branches of handleTransmission for a session that is NULL and for an
-- exception of `send` are never taken.
use flingd_cc.Base.{
  ℕ, zero, suc, ◌+◌, String, Bool, true, false, ◌||◌, ◌&&◌, not, Option, none, some, List, [], ◌∷◌,
  ◌++◌, ltb, str_eq, is_some, length, if◌then◌else◌,
}
use flingd_cc.Base.Machine.{skip, get, crash, ◌>>=◌, ◌>>◌}
use flingd_cc.StdMap.{insert}
use flingd_cc.Peers.Store.{
  Ptr, PeerMessage, text, closing, Hub, Do, set_object, init_session, set_peers, set_outstandings,
  set_locked, output, load,
}
use flingd_cc.Peers.Reading.{Fields, Reading, broken, ignored, message, message_of}
use flingd_cc.Peers.Tables.{lookup, remove, key_of, alter}

module _ (iequals : String → String → Bool) where
  -- PeerServer::removePeer
  unfoldable pub remove_if : String → Option Ptr → Do
  unfolding load remove
  remove_if id none = skip
  remove_if id (some p) = do
    load p
    set_object p none
    w ← get
    set_peers (remove iequals id w.peers)

  unfoldable pub remove_peer : String → Do
  unfolding remove_if lookup
  remove_peer id = do w ← get; remove_if id (lookup iequals id w.peers)

  unfoldable pub add_peer : String → Ptr → Do
  unfolding lookup insert
  add_peer id p = do
    w ← get
    if is_some (lookup iequals id w.peers) then skip else set_peers (insert id p w.peers)

  unfoldable pub remove_peer_messages : String → Do
  unfolding remove
  remove_peer_messages id = do w ← get; set_outstandings (remove iequals id w.outstandings)

  abbrev pub is_locked : List String → String → Bool
  is_locked [] k = false
  is_locked (j ∷ js) k = if str_eq j k then true else is_locked js k

  -- `push_back` on the vector of the entry with the key
  unfoldable pub push_back : Option String → String → PeerMessage → Do
  unfolding alter
  push_back none id pm = skip
  push_back (some k) id pm = do
    w ← get
    if is_locked w.locked k
        then crash
        else set_outstandings (alter iequals id (λ pms. pms ++ pm ∷ []) w.outstandings)

  -- PeerServer::addPeerMessages; a new vector does not get the message
  unfoldable pub add_peer_messages : String → PeerMessage → Do
  unfolding lookup insert push_back key_of
  add_peer_messages id pm = do
    w ← get
    if is_some (lookup iequals id w.outstandings)
        then push_back (key_of iequals id w.outstandings) id pm
        else set_outstandings (insert id [] w.outstandings)

  unfoldable pub transmit_to : Option Ptr → PeerMessage → Do
  unfolding load add_peer_messages remove_peer
  transmit_to (some p) pm = do a ← load p; output a.session (text pm.content)
  transmit_to none pm =
      if not (iequals pm.type_ "LEAVE")
        && (not (iequals pm.type_ "EXPIRE") && not (iequals pm.dst ""))
      then add_peer_messages pm.dst pm
      else if iequals pm.type_ "LEAVE" && iequals pm.dst ""
      then remove_peer pm.src
      else skip

  -- PeerServer::handleTransmission
  unfoldable pub handle_transmission : PeerMessage → Do
  unfolding lookup transmit_to
  handle_transmission pm = do w ← get; transmit_to (lookup iequals pm.dst w.peers) pm

  unfoldable pub transmit_all : List PeerMessage → Do
  unfolding handle_transmission
  transmit_all [] = skip
  transmit_all (pm ∷ pms) = do handle_transmission pm; transmit_all pms

  unfoldable pub process_messages : Option (List PeerMessage) → Option String → String → Do
  unfolding transmit_all remove_peer_messages
  process_messages none k id = skip
  process_messages (some pms) none id = skip
  process_messages (some pms) (some k) id = do
    w ← get
    set_locked (k ∷ w.locked)
    transmit_all pms
    set_locked w.locked
    remove_peer_messages id

  -- PeerServer::processOutstanding
  unfoldable pub process_outstanding : String → Do
  unfolding lookup key_of process_messages
  process_outstanding id = do
    w ← get
    process_messages (lookup iequals id w.outstandings) (key_of iequals id w.outstandings) id

  -- PeerServer::checkKey: the message, if the key is refused
  unfoldable pub check_key : String → Hub → Option String
  check_key key w =
      if not (iequals "peerjs" key)
      then some "Invalid key provided"
      else if ltb 5000 (length w.peers)
      then some "Server has reached its concurrent user limit"
      else none

  module _ (type_json : String → String) (error_json : String → String → String) where
    -- PeerServer::sendError
    unfoldable pub send_error : Ptr → String → String → Do
    send_error session type_ msg = do
      output session (text (error_json type_ msg))
      output session closing

    unfoldable pub configure : Option Ptr → Ptr → String → String → Do
    unfolding load send_error process_outstanding
    configure none session id token = skip
    configure (some p) session id token = do
      a ← load p
      if iequals a.token token
          then (do
            process_outstanding id
            b ← load p
            set_object p (some (record b { slots = b.slots + 1 })))
          else send_error session "ID-TAKEN" "ID is taken"

    -- PeerServer::configureWs
    unfoldable pub configure_ws : Ptr → String → String → Do
    unfolding lookup configure
    configure_ws session id token = do
      w ← get
      configure (lookup iequals id w.peers) session id token

    -- a connection under an identifier that no peer has; `refusal` is what checkKey says
    unfoldable pub open_peer : Option String → Ptr → String → String → Do
    unfolding add_peer configure_ws send_error
    open_peer none session id token = do
      set_object session (some (record { id = id; token = token; session = session; slots = 0 }))
      init_session session session
      add_peer id session
      output session (text (type_json "OPEN"))
      configure_ws session id token
    open_peer (some msg) session id token = send_error session "ERROR" msg

    -- Peer::reset_session, then configureWs
    unfoldable pub reopen_peer : Ptr → Ptr → String → String → Do
    unfolding load configure_ws
    reopen_peer p session id token = do
      a ← load p
      output a.session closing
      set_object p (some (record a { session = session }))
      init_session session p
      configure_ws session id token

    unfoldable pub connect : Option Ptr → Ptr → String → String → String → Do
    unfolding check_key open_peer reopen_peer
    connect none session key id token = do w ← get; open_peer (check_key key w) session id token
    connect (some p) session key id token = reopen_peer p session id token

    -- PeerServer::onWebsocketConnection, for the values of a request's query
    unfoldable pub on_connection : Ptr → String → String → String → Do
    unfolding lookup connect send_error
    on_connection session key id token =
        if iequals key "" || (iequals id "" || iequals token "")
        then send_error session "ERROR" "No id, token, or key supplied to peerjs server"
        else (do w ← get; connect (lookup iequals id w.peers) session key id token)

  module _ (parse : String → Fields) (with_src : String → String → String) where
    unfoldable pub transmit_reading : Reading → String → String → Do
    unfolding handle_transmission
    transmit_reading broken id msg = crash
    transmit_reading ignored id msg = skip
    transmit_reading (message type_ dst) id msg =
        handle_transmission
          (record { type_ = type_; src = id; dst = dst; content = with_src msg id })

    -- PeerServer::onPeerMessage
    unfoldable pub on_peer_message : Ptr → String → Do
    unfolding load message_of transmit_reading
    on_peer_message p msg = do
      a ← load p
      transmit_reading (message_of iequals (parse msg)) a.id msg

    -- A signal of the peer calls its slots; what is left of them is disconnected if it is deleted.
    unfoldable pub emit : ℕ → Ptr → Do → Do
    emit zero p slot = skip
    emit (suc n) p slot = do
      w ← get
      if is_some (w.objects p) then (do slot; emit n p slot) else skip

    -- PeerServer::onPeerClose
    unfoldable pub on_peer_close : Ptr → Do
    unfolding load remove_peer
    on_peer_close p = do a ← load p; remove_peer a.id

    unfoldable pub message_to : Option Ptr → String → Do
    unfolding load emit on_peer_message
    message_to none msg = skip
    message_to (some p) msg = do a ← load p; emit a.slots p (on_peer_message p msg)

    unfoldable pub close_of : Option Ptr → Do
    unfolding load emit on_peer_close
    close_of none = skip
    close_of (some p) = do a ← load p; emit a.slots p (on_peer_close p)

    -- Peer::onMessage and Peer::onClose, the slots of a session's signals
    unfoldable pub on_message : Ptr → String → Do
    unfolding message_to
    on_message session msg = do w ← get; message_to (w.slots session) msg

    unfoldable pub on_close : Ptr → Do
    unfolding close_of
    on_close session = do w ← get; close_of (w.slots session)
