-- ===== src/Peers/Faults.antt =====
-- Runs of flint/src/peer/PeerServer.cpp that lose a message or use a peer after it was deleted.
use flingd_cc.Base.{
  ℕ, zero, suc, ◌+◌, ◌≤◌, ◌≡◌, ◌≢◌, refl, sym, subst, String, Bool, true, false, Option, none, some,
  List, ◌∷◌, arith, All, length,
}
use flingd_cc.Base.Machine.{ok, fault}
use flingd_cc.Peers.Store.{Ptr, PeerMessage, Peer, Hub, Do, text, write, load}
use flingd_cc.Peers.Tables.{IsEquality, lookup, remove}
use flingd_cc.Peers.Laws.{lookup-cong}
use flingd_cc.Peers.Sound.{IsSound, write_at, lookup_live}
use flingd_cc.Peers.Queue.{delivered}
use flingd_cc.Peers.Opens.{IsKept, all_kept_lem, open_lem}
use flingd_cc.Peers.Steps.{connects, sends, closes, step}
use flingd_cc.Peers.Routes.{reconnected, reconnect_lem}
use flingd_cc.Peers.Reading.{Fields, message, message_of}
use flingd_cc.Peers.Server.{
  emit, transmit_reading, on_peer_message, on_peer_close, message_to, close_of, on_message,
  on_close, on_connection, remove_peer, remove_if, handle_transmission, transmit_all, transmit_to,
}

write_other :
    (slots : Ptr → Option Ptr) (session old : Ptr) (c : Option Ptr)
    → old ≢ session
    → write slots session c old ≡ slots old
unfolding write
write_other slots session old c other = ground arith

write_slot :
    (slots : Ptr → Option Ptr) (session p : Ptr) → write slots session (some p) session ≡ some p
unfolding write
write_slot slots session p = ground arith

module _ (iequals : String → String → Bool) (eq : IsEquality iequals) (type_json : String → String)
    (error_json : String → String → String) (parse : String → Fields)
    (with_src : String → String → String) where
  -- Of messages for an identifier that no peer has, which are not LEAVE or EXPIRE and for which nothing
  -- is kept yet, the session that then connects under this identifier, with a valid key and while there
  -- are at most 5000 peers, gets all but the first: OPEN and the others in their order.
  pub first_message_lost :
      (w : Hub) (session : Ptr) (key id token : String) (pm : PeerMessage) (pms : List PeerMessage)
      → IsSound iequals eq w
      → iequals "peerjs" key ≡ true
      → iequals key "" ≡ false
      → iequals id "" ≡ false
      → iequals token "" ≡ false
      → w.objects session ≡ none
      → lookup iequals id w.peers ≡ none
      → lookup iequals id w.outstandings ≡ none
      → length w.peers ≤ 5000
      → All (IsKept iequals eq id) (pm ∷ pms)
      → (x : Hub) × (y : Hub) × (transmit_all iequals (pm ∷ pms) w ≡ ok tt x)
        × (on_connection iequals type_json error_json session key id token x ≡ ok tt y)
        × (y.sent ≡ delivered session pms ((session, text (type_json "OPEN")) ∷ w.sent))
  first_message_lost w session key id token pm pms v good k i t fresh new none_kept room all =
      let (m, run, f, sound) = all_kept_lem iequals eq id i (pm ∷ pms) w v all new in
      let held : lookup iequals id m ≡ some pms = rw f rw none_kept refl in
      (
        record w { outstandings = m },
        _,
        run,
        open_lem iequals eq type_json error_json (record w { outstandings = m }) session key id
            token sound good k i t fresh new room,
        rw held refl,
      )

  emit_gone :
      (n : ℕ) (p : Ptr) (slot : Do) (w : Hub)
      → w.objects p ≡ none
      → emit iequals parse with_src n p slot w ≡ ok tt w
  unfolding emit
  emit_gone zero p slot w e = refl
  emit_gone (suc n) p slot w e = rw (emit, e) refl

  -- a slot that deletes the peer is the last one
  emit_last :
      (n : ℕ) (p : Ptr) (a : Peer) (slot : Do) (w x : Hub)
      → w.objects p ≡ some a
      → slot w ≡ ok tt x
      → x.objects p ≡ none
      → emit iequals parse with_src (suc n) p slot w ≡ ok tt x
  unfolding emit
  emit_last n p a slot w x o e g = rw (emit, o, e) (emit_gone n p slot x g)

  -- The end of a session whose peer lives, with the server connected to its signals, removes this peer.
  pub close_lem :
      (w : Hub) (session p : Ptr) (a : Peer) (n : ℕ)
      → w.slots session ≡ some p
      → w.objects p ≡ some a
      → a.slots ≡ suc n
      → lookup iequals a.id w.peers ≡ some p
      → step iequals eq type_json error_json parse with_src (closes session) w
        ≡ ok tt (record w { objects = write w.objects p none; peers = remove iequals a.id w.peers })
  unfolding step on_close close_of emit on_peer_close remove_peer remove_if load
  close_lem w session p a n s o c f =
      let after : Hub = record w {
        objects = write w.objects p none;
        peers = remove iequals a.id w.peers;
      } in
      let rest =
        emit_gone n p (on_peer_close iequals parse with_src p) after (write_at w.objects p none) in
      simp (s, o, c, f, rest)

  left_lem :
      (w : Hub) (p : Ptr) (a : Peer) (msg type_ dst : String)
      → w.objects p ≡ some a
      → lookup iequals a.id w.peers ≡ some p
      → message_of iequals (parse msg) ≡ message type_ dst
      → iequals type_ "LEAVE" ≡ true
      → iequals dst "" ≡ true
      → lookup iequals dst w.peers ≡ none
      → on_peer_message iequals parse with_src p msg w
        ≡ ok tt (record w { objects = write w.objects p none; peers = remove iequals a.id w.peers })
  unfolding on_peer_message transmit_reading handle_transmission transmit_to remove_peer remove_if
      load
  left_lem w p a msg type_ dst o f m leave empty absent = simp (o, f, m, leave, empty, absent)

  -- A message LEAVE with an empty destination, from a session whose peer lives, while no peer has an
  -- empty identifier, deletes this peer, and the end of the session then uses it: the daemon crashes.
  pub leave_crashes :
      (w : Hub) (session p : Ptr) (a : Peer) (n : ℕ) (msg type_ dst : String)
      → w.slots session ≡ some p
      → w.objects p ≡ some a
      → a.slots ≡ suc n
      → lookup iequals a.id w.peers ≡ some p
      → message_of iequals (parse msg) ≡ message type_ dst
      → iequals type_ "LEAVE" ≡ true
      → iequals dst "" ≡ true
      → lookup iequals dst w.peers ≡ none
      → (x : Hub) × (step iequals eq type_json error_json parse with_src (sends session msg) w
          ≡ ok tt x)
        × (step iequals eq type_json error_json parse with_src (closes session) x ≡ fault)
  unfolding step on_message on_close message_to close_of load
  leave_crashes w session p a n msg type_ dst s o c f m leave empty absent =
      let after : Hub = record w {
        objects = write w.objects p none;
        peers = remove iequals a.id w.peers;
      } in
      let last =
        emit_last n p a (on_peer_message iequals parse with_src p msg) w after o
          (left_lem w p a msg type_ dst o f m leave empty absent) (write_at w.objects p none) in
      (
        after,
        rw (step, on_message, s, message_to, load, o, c) last,
        simp (s, write_at w.objects p none),
      )

  -- After a second connection under the identifier and with the token of a peer, the end of the first
  -- session deletes the peer, and the next message of the second session uses it: the daemon crashes.
  pub reconnect_crashes :
      (w : Hub) (old session p : Ptr) (a : Peer) (key id token msg : String)
      → IsSound iequals eq w
      → iequals key "" ≡ false
      → iequals id "" ≡ false
      → iequals token "" ≡ false
      → lookup iequals id w.peers ≡ some p
      → w.objects p ≡ some a
      → iequals a.token token ≡ true
      → w.slots old ≡ some p
      → old ≢ session
      → (x : Hub) × (y : Hub) × (step iequals eq type_json error_json parse with_src
            (connects session key id token)
            w
          ≡ ok tt x)
        × (step iequals eq type_json error_json parse with_src (closes old) x ≡ ok tt y)
        × (step iequals eq type_json error_json parse with_src (sends session msg) y ≡ fault)
  unfolding step on_message message_to load
  reconnect_crashes w old session p a key id token msg v k i t f o same s other =
      let x = reconnected iequals eq type_json error_json parse with_src w session p a id in
      let b : Peer = record a { session = session; slots = a.slots + 1 } in
      let y : Hub = record x {
        objects = write x.objects p none;
        peers = remove iequals a.id x.peers;
      } in
      let (c, g, named) = lookup_live iequals eq w id p v f in
      let is_a : c ≡ a = cc in
      let found : lookup iequals a.id w.peers ≡ some p =
        rw
          (sym (
            lookup-cong iequals eq id a.id w.peers
              (subst (λ (d : Peer). iequals id d.id ≡ true) is_a named)))
          f in
      (
        x,
        y,
        reconnect_lem iequals eq type_json error_json parse with_src w session p a key id token v k
            i t f o same,
        close_lem x old p b a.slots (rw (write_other w.slots session old (some p) other) s)
            (write_at _ p (some b)) (omega arith) found,
        simp (write_slot w.slots session p, write_at x.objects p none),
      )
