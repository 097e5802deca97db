-- ===== src/Peers/Routes.antt =====
-- What the messages and the connections of flint/src/peer/PeerServer.cpp do to the sessions.
use flingd_cc.Base.{ℕ, zero, suc, ◌+◌, ◌≡◌, refl, String, Bool, true, false, some, List, ◌∷◌}
use flingd_cc.Base.Machine.{ok}
use flingd_cc.Peers.Store.{Ptr, Peer, Hub, Output, text, closing, write, load}
use flingd_cc.Peers.Tables.{IsEquality, lookup, remove}
use flingd_cc.Peers.Sound.{IsSound, set-Sound, write_at}
use flingd_cc.Peers.Queue.{delivered, queue, process_outstanding_lem}
use flingd_cc.Peers.Steps.{sends, step}
use flingd_cc.Peers.Reading.{Fields, message, message_of}
use flingd_cc.Peers.Server.{
  emit, transmit_reading, on_peer_message, message_to, on_message, on_connection, connect,
  reopen_peer, configure_ws, configure, send_error, handle_transmission, transmit_to,
}

abbrev pub copies : ℕ → Ptr × Output → List (Ptr × Output) → List (Ptr × Output)
copies zero o sent = sent
copies (suc n) o sent = copies n o (o ∷ sent)

module _ (iequals : String → String → Bool) (eq : IsEquality iequals) (type_json : String → String)
    (error_json : String → String → String) (parse : String → Fields)
    (with_src : String → String → String) where
  send_lem :
      (p q : Ptr) (a b : Peer) (msg type_ dst : String) (w : Hub)
      → w.objects p ≡ some a
      → message_of iequals (parse msg) ≡ message type_ dst
      → lookup iequals dst w.peers ≡ some q
      → w.objects q ≡ some b
      → on_peer_message iequals parse with_src p msg w
        ≡ ok tt (record w { sent = (b.session, text (with_src msg a.id)) ∷ w.sent })
  unfolding on_peer_message transmit_reading handle_transmission transmit_to load
  send_lem p q a b msg type_ dst w o m f g = simp (o, m, f, g)

  emit_send :
      (p q : Ptr) (a b : Peer) (msg type_ dst : String) (n : ℕ) (w : Hub)
      → w.objects p ≡ some a
      → message_of iequals (parse msg) ≡ message type_ dst
      → lookup iequals dst w.peers ≡ some q
      → w.objects q ≡ some b
      → emit iequals parse with_src n p (on_peer_message iequals parse with_src p msg) w
        ≡ ok tt (record w { sent = copies n (b.session, text (with_src msg a.id)) w.sent })
  unfolding emit
  emit_send p q a b msg type_ dst zero w o m f g = refl
  emit_send p q a b msg type_ dst (suc n) w o m f g =
      rw (emit, o, send_lem p q a b msg type_ dst w o m f g)
        (emit_send p q a b msg type_ dst n
          (record w { sent = (b.session, text (with_src msg a.id)) ∷ w.sent }) o m f g)

  -- A message of a session whose peer lives, for a peer that the server has, is sent to this peer's
  -- session with the sender's identifier, as often as the server is connected to the sender's signals,
  -- and nothing else changes.
  pub message_routed :
      (w : Hub) (session p q : Ptr) (a b : Peer) (msg type_ dst : String)
      → w.slots session ≡ some p
      → w.objects p ≡ some a
      → message_of iequals (parse msg) ≡ message type_ dst
      → lookup iequals dst w.peers ≡ some q
      → w.objects q ≡ some b
      → step iequals eq type_json error_json parse with_src (sends session msg) w
        ≡ ok tt (record w { sent = copies a.slots (b.session, text (with_src msg a.id)) w.sent })
  unfolding step on_message message_to load
  message_routed w session p q a b msg type_ dst s o m f g =
      simp (s, o, emit_send p q a b msg type_ dst a.slots w o m f g)

  -- the server after a peer got another session
  abbrev pub reconnected : Hub → Ptr → Ptr → Peer → String → Hub
  reconnected w session p a id = record w {
    objects =
        write (write w.objects p (some (record a { session = session }))) p
          (some (record a { session = session; slots = a.slots + 1 }));
    slots = write w.slots session (some p);
    outstandings = remove iequals id w.outstandings;
    sent =
        delivered session (queue (lookup iequals id w.outstandings))
          ((a.session, closing) ∷ w.sent);
  }

  -- A second connection under the identifier of a peer, with its token, closes the peer's session and
  -- gives the peer the new one, sends it the messages that are kept for it, and connects the server to
  -- the peer's signals once more.
  pub reconnect_lem :
      (w : Hub) (session p : Ptr) (a : Peer) (key id token : String)
      → IsSound iequals eq w
      → iequals key "" ≡ false
      → iequals id "" ≡ false
      → iequals token "" ≡ false
      → lookup iequals id w.peers ≡ some p
      → w.objects p ≡ some a
      → iequals a.token token ≡ true
      → on_connection iequals type_json error_json session key id token w
        ≡ ok tt (reconnected w session p a id)
  unfolding on_connection connect reopen_peer configure_ws configure load
  reconnect_lem w session p a key id token v k i t f o same =
      let moved : Peer = record a { session = session } in
      let reset : Hub = record w {
        objects = write w.objects p (some moved);
        slots = write w.slots session (some p);
        sent = (a.session, closing) ∷ w.sent;
      } in
      let at : write w.objects p (some moved) p ≡ some moved = write_at w.objects p (some moved) in
      simp (
        k,
        i,
        t,
        f,
        o,
        at,
        same,
        process_outstanding_lem iequals eq reset id p moved
            (set-Sound iequals eq w p a moved v o refl) f at,
      )

  -- A connection under the identifier of a peer with another token closes the peer's session, all the
  -- same, and gives the peer the new one, which is then told that the identifier is taken and closed.
  pub taken_lem :
      (w : Hub) (session p : Ptr) (a : Peer) (key id token : String)
      → iequals key "" ≡ false
      → iequals id "" ≡ false
      → iequals token "" ≡ false
      → lookup iequals id w.peers ≡ some p
      → w.objects p ≡ some a
      → iequals a.token token ≡ false
      → on_connection iequals type_json error_json session key id token w
        ≡ ok tt (record w {
          objects = write w.objects p (some (record a { session = session }));
          slots = write w.slots session (some p);
          sent =
              (session, closing)
              ∷ (session, text (error_json "ID-TAKEN" "ID is taken"))
              ∷ (a.session, closing)
              ∷ w.sent;
        })
  unfolding on_connection connect reopen_peer configure_ws configure load send_error
  taken_lem w session p a key id token k i t f o other =
      let moved : Peer = record a { session = session } in
      let at : write w.objects p (some moved) p ≡ some moved = write_at w.objects p (some moved) in
      simp (k, i, t, f, o, at, other)
