-- ===== src/Peers/Connects.antt =====
-- The connections of flint/src/peer/PeerServer.cpp end, and keep the invariant of the server.
use flingd_cc.Base.{
  ◌+◌, ◌≤◌, ◌≡◌, refl, String, Bool, ◌||◌, Option, none, some, ◌∷◌, arith, length, Option-cases,
  Bool-cases, inl, inr,
}
use flingd_cc.StdMap.{insert}
use flingd_cc.Peers.Store.{Ptr, Peer, Hub, text, closing, write, load}
use flingd_cc.Peers.Tables.{IsEquality, lookup, remove}
use flingd_cc.Peers.Laws.{All-remove, Apart-remove}
use flingd_cc.Peers.Sound.{IsAddressed, IsSound, lookup_live, set-Sound, open-Sound}
use flingd_cc.Peers.Queue.{delivered, queue, process_outstanding_lem}
use flingd_cc.Peers.Ends.{Returns}
use flingd_cc.Peers.Server.{
  add_peer, configure, configure_ws, open_peer, reopen_peer, connect, on_connection, check_key,
  send_error,
}

module _ (iequals : String → String → Bool) (eq : IsEquality iequals) (type_json : String → String)
    (error_json : String → String → String) where
  error-Returns :
      (w : Hub) (session : Ptr) (type_ msg : String)
      → IsSound iequals eq w
      → Returns iequals eq (send_error iequals type_json error_json session type_ msg w)
  unfolding send_error
  error-Returns w session type_ msg v = (
    record w { sent = (session, closing) ∷ (session, text (error_json type_ msg)) ∷ w.sent },
    refl,
    v,
  )

  module _ (w : Hub) (v : IsSound iequals eq w) where
    -- the connection under an identifier that the server knows
    configure-Returns :
        (session : Ptr) (id token : String) (p : Ptr) (a : Peer)
        → lookup iequals id w.peers ≡ some p
        → w.objects p ≡ some a
        → Returns iequals eq (configure iequals type_json error_json (some p) session id token w)
    unfolding configure load
    configure-Returns session id token p a f o = elim (Bool-cases (iequals a.token token)) [
      | inl t ↦
          let emptied : Hub = record w {
            outstandings = remove iequals id w.outstandings;
            sent = delivered a.session (queue (lookup iequals id w.outstandings)) w.sent;
          } in
          let opened : Peer = record a { slots = a.slots + 1 } in
          (
            record emptied { objects = write w.objects p (some opened) },
            simp (o, t, process_outstanding_lem iequals eq w id p a v f o),
            set-Sound iequals eq emptied p a opened
                (record {
                  owned = v.owned;
                  apart = v.apart;
                  addressed =
                      All-remove iequals eq (IsAddressed iequals eq) id w.outstandings v.addressed;
                  apart_out = Apart-remove iequals eq id w.outstandings v.apart_out;
                  unlocked = v.unlocked;
                  bounded = v.bounded;
                })
                o refl,
          )
      | inr t ↦ rw (configure, load, o, t) (error-Returns w session "ID-TAKEN" "ID is taken" v)
    ]

    configure_ws-Returns :
        (session : Ptr) (id token : String)
        → Returns iequals eq (configure_ws iequals type_json error_json session id token w)
    unfolding configure_ws configure
    configure_ws-Returns session id token = elim (Option-cases (lookup iequals id w.peers)) [
      | inl e ↦ rw (configure_ws, e) (w, refl, v)
      | inr (p, e) ↦
          let (a, g, t) = lookup_live iequals eq w id p v e in
          rw (configure_ws, e) (configure-Returns session id token p a e g)
    ]

  module _ (w : Hub) (v : IsSound iequals eq w) where
    open-Returns :
        (o : Option String) (session : Ptr) (id token : String)
        → w.objects session ≡ none
        → lookup iequals id w.peers ≡ none
        → (o ≡ none → length w.peers ≤ 5000)
        → Returns iequals eq (open_peer iequals type_json error_json o session id token w)
    unfolding open_peer add_peer
    open-Returns (some msg) session id token fresh new room = error-Returns w session "ERROR" msg v
    open-Returns none session id token fresh new room =
        let a : Peer = record { id = id; token = token; session = session; slots = 0 } in
        rw (open_peer, add_peer, new)
          (configure_ws-Returns
            (record w {
              objects = write w.objects session (some a);
              slots = write w.slots session (some session);
              peers = insert id session w.peers;
              sent = (session, text (type_json "OPEN")) ∷ w.sent;
            })
            (open-Sound iequals eq w id session a v fresh refl new (room refl)) session id token)

    reopen-Returns :
        (p : Ptr) (a : Peer) (session : Ptr) (id token : String)
        → w.objects p ≡ some a
        → Returns iequals eq (reopen_peer iequals type_json error_json p session id token w)
    unfolding reopen_peer load
    reopen-Returns p a session id token o =
        rw (reopen_peer, load, o)
          (configure_ws-Returns
            (record w {
              objects = write w.objects p (some (record a { session = session }));
              slots = write w.slots session (some p);
              sent = (a.session, closing) ∷ w.sent;
            })
            (set-Sound iequals eq w p a (record a { session = session }) v o refl) session id token)

    room : (key : String) → check_key iequals key w ≡ none → length w.peers ≤ 5000
    unfolding check_key
    room key e = ground arith

    -- a connection of a new session
    pub on_connection-Returns :
        (session : Ptr) (key id token : String)
        → w.objects session ≡ none
        → Returns iequals eq (on_connection iequals type_json error_json session key id token w)
    unfolding on_connection connect
    on_connection-Returns session key id token fresh =
        elim (Bool-cases (iequals key "" || (iequals id "" || iequals token ""))) [
          | inl b ↦
              rw (on_connection, b)
                (error-Returns w session "ERROR" "No id, token, or key supplied to peerjs server" v)
          | inr b ↦ elim (Option-cases (lookup iequals id w.peers)) [
            | inl e ↦
                rw (on_connection, b, e, connect)
                  (open-Returns (check_key iequals key w) session id token fresh e (room key))
            | inr (p, e) ↦
                let (a, g, t) = lookup_live iequals eq w id p v e in
                rw (on_connection, b, e, connect) (reopen-Returns p a session id token g)
          ]
        ]
