-- ===== src/Peers/Resources.antt =====
-- PeerServer::onWebsocketConnection of flint/src/peer/PeerServer.cpp for the resource of a session:
-- `parse` finds the path and the query of a URL, if it is one.
use flingd_cc.Base.{
  ◌≡◌, refl, String, Bool, ◌||◌, Option, none, some, List, if◌then◌else◌, Bool-cases, inl, inr,
}
use flingd_cc.Base.Machine.{skip}
use flingd_cc.Url.{parse_query, get_value}
use flingd_cc.Peers.Store.{Ptr, Hub, Do}
use flingd_cc.Peers.Tables.{IsEquality}
use flingd_cc.Peers.Sound.{IsSound}
use flingd_cc.Peers.Server.{on_connection}
use flingd_cc.Peers.Ends.{Returns}
use flingd_cc.Peers.Connects.{on_connection-Returns}

module _ (iequals : String → String → Bool) (type_json : String → String)
    (error_json : String → String → String) (parse : String → Option (String × String))
    (split : String → String → List String) where
  unfoldable pub connect_for : Option (String × String) → Ptr → Do
  unfolding on_connection parse_query get_value
  connect_for none session = skip
  connect_for (some (path, query)) session =
      let queries = parse_query split query in
      if iequals "peerjs" path || (iequals "/peerjs" path || iequals "/peerjs/" path)
      then on_connection iequals type_json error_json session (get_value queries "key")
          (get_value queries "id") (get_value queries "token")
      else skip

  -- PeerServer::onWebsocketConnection
  unfoldable pub on_websocket_connection : Ptr → String → Do
  unfolding connect_for
  on_websocket_connection session resource = connect_for (parse resource) session

  connect_for-Returns :
      (eq : IsEquality iequals) (w : Hub) (session : Ptr) (o : Option (String × String))
      → IsSound iequals eq w
      → w.objects session ≡ none
      → Returns iequals eq (connect_for o session w)
  unfolding connect_for
  connect_for-Returns eq w session none v fresh = (w, refl, v)
  connect_for-Returns eq w session (some (path, query)) v fresh =
      elim (Bool-cases
        (iequals "peerjs" path || (iequals "/peerjs" path || iequals "/peerjs/" path))) [
          | inl b ↦
              let queries = parse_query split query in
              rw (connect_for, b)
                (on_connection-Returns iequals eq type_json error_json w v session
                  (get_value queries "key") (get_value queries "id") (get_value queries "token")
                  fresh)
          | inr b ↦ rw (connect_for, b) (w, refl, v)
        ]

  -- the connection of a new session, for any resource
  pub on_websocket_connection-Returns :
      (eq : IsEquality iequals) (w : Hub) (session : Ptr) (resource : String)
      → IsSound iequals eq w
      → w.objects session ≡ none
      → Returns iequals eq (on_websocket_connection session resource w)
  unfolding on_websocket_connection
  on_websocket_connection-Returns eq w session resource v fresh =
      connect_for-Returns eq w session (parse resource) v fresh
