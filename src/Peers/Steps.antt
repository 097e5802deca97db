-- ===== src/Peers/Steps.antt =====
-- Every event of the server of flint/src/peer/PeerServer.cpp keeps its invariant or is fatal.
use flingd_cc.Base.{
  ℕ, zero, suc, ◌≡◌, refl, String, Bool, true, false, not, Option, none, some, arith, is_some, ltb,
  ◌||◌, ◌&&◌, Option-cases, Bool-cases, inl, inr,
}
use flingd_cc.Base.Machine.{fault}
use flingd_cc.Peers.Store.{Ptr, Peer, Hub, Do, load}
use flingd_cc.Peers.Tables.{IsEquality}
use flingd_cc.Peers.Sound.{IsSound}
use flingd_cc.Peers.Ends.{Returns, then-Returns, remove_peer-Returns, handle_transmission-Returns}
use flingd_cc.Peers.Connects.{on_connection-Returns}
use flingd_cc.Peers.Reading.{Fields, Reading, broken, ignored, message, message_of}
use flingd_cc.Peers.Server.{
  emit, transmit_reading, on_peer_message, on_peer_close, message_to, close_of, on_message,
  on_close, on_connection,
}

-- The sessions' signals: a new connection with the key, the identifier and the token of its query, a
-- message, and the end of a connection.
pub data Event : Type 0 where
  connects : Ptr → String → String → String → Event
  sends : Ptr → String → Event
  closes : Ptr → Event

module _ (iequals : String → String → Bool) (eq : IsEquality iequals) (type_json : String → String)
    (error_json : String → String → String) (parse : String → Fields)
    (with_src : String → String → String) where
  unfoldable pub step : Event → Do
  unfolding on_connection on_message on_close
  step (connects session key id token) =
      on_connection iequals type_json error_json session key id token
  step (sends session msg) = on_message iequals parse with_src session msg
  step (closes session) = on_close iequals parse with_src session

  abbrev pub is_broken : Reading → Bool
  is_broken broken = true
  is_broken ignored = false
  is_broken (message type_ dst) = false

  -- The session's signals are connected to a peer that was deleted.
  abbrev is_dangling : Option Ptr → Hub → Bool
  is_dangling none w = false
  is_dangling (some p) w = not (is_some (w.objects p))

  abbrev is_heard : Option Peer → Bool
  is_heard none = true
  is_heard (some a) = ltb 0 a.slots

  -- The message reaches a peer that was deleted, or the server, and it cannot be read.
  abbrev is_refused : Option Ptr → String → Hub → Bool
  is_refused none msg w = false
  is_refused (some p) msg w =
      not (is_some (w.objects p))
      || (is_broken (message_of iequals (parse msg)) && is_heard (w.objects p))

  abbrev pub is_fatal : Event → Hub → Bool
  is_fatal (connects session key id token) w = false
  is_fatal (sends session msg) w = is_refused (w.slots session) msg w
  is_fatal (closes session) w = is_dangling (w.slots session) w

  -- A new session has no peer yet.
  abbrev pub IsPossible : Event → Hub → Type 0
  IsPossible (connects session key id token) w = w.objects session ≡ none
  IsPossible (sends session msg) w = Unit {0}
  IsPossible (closes session) w = Unit {0}

  -- a peer that lives while a slot starts
  emit-Returns :
      (p : Ptr) (slot : Do)
      → ((w : Hub) (a : Peer)
          → IsSound iequals eq w
          → w.objects p ≡ some a
          → Returns iequals eq (slot w))
      → (n : ℕ) (w : Hub) → IsSound iequals eq w
      → Returns iequals eq (emit iequals parse with_src n p slot w)
  unfolding emit
  emit-Returns p slot h zero w v = (w, refl, v)
  emit-Returns p slot h (suc n) w v = elim (Option-cases (w.objects p)) [
    | inl e ↦ rw (emit, e) (w, refl, v)
    | inr (a, e) ↦
        rw (emit, e)
          (then-Returns iequals eq (slot w) (λ x. emit iequals parse with_src n p slot) (h w a v e)
            (emit-Returns p slot h n))
  ]

  transmit-Returns :
      (o : Reading) (id msg : String) (w : Hub)
      → IsSound iequals eq w
      → is_broken o ≡ false
      → Returns iequals eq (transmit_reading iequals parse with_src o id msg w)
  unfolding transmit_reading
  transmit-Returns broken id msg w v h = absurd (ground arith)
  transmit-Returns ignored id msg w v h = (w, refl, v)
  transmit-Returns (message type_ dst) id msg w v h = handle_transmission-Returns iequals eq w v _

  peer_message-Returns :
      (p : Ptr) (msg : String)
      → is_broken (message_of iequals (parse msg)) ≡ false
      → (w : Hub) (a : Peer) → IsSound iequals eq w
      → w.objects p ≡ some a
      → Returns iequals eq (on_peer_message iequals parse with_src p msg w)
  unfolding on_peer_message load
  peer_message-Returns p msg h w a v e =
      rw (on_peer_message, load, e)
        (transmit-Returns (message_of iequals (parse msg)) a.id msg w v h)

  -- a message that cannot be read
  broken-fault :
      (p : Ptr) (a : Peer) (msg : String) (n : ℕ) (w : Hub)
      → w.objects p ≡ some a
      → is_broken (message_of iequals (parse msg)) ≡ true
      → ltb 0 n ≡ true
      → emit iequals parse with_src n p (on_peer_message iequals parse with_src p msg) w ≡ fault
  unfolding emit on_peer_message transmit_reading load
  broken-fault p a msg zero w o b h = absurd (ground arith)
  broken-fault p a msg (suc n) w o b h =
      let bad : message_of iequals (parse msg) ≡ broken = ground arith in simp (o, bad)

  peer_close-Returns :
      (p : Ptr) (w : Hub) (a : Peer)
      → IsSound iequals eq w
      → w.objects p ≡ some a
      → Returns iequals eq (on_peer_close iequals parse with_src p w)
  unfolding on_peer_close load
  peer_close-Returns p w a v e =
      rw (on_peer_close, load, e) (remove_peer-Returns iequals eq w v a.id)

  module _ (w : Hub) (v : IsSound iequals eq w) where
    message-Returns :
        (o : Option Ptr) (msg : String)
        → is_refused o msg w ≡ false
        → Returns iequals eq (message_to iequals parse with_src o msg w)
    unfolding message_to load
    message-Returns none msg h = (w, refl, v)
    message-Returns (some p) msg h = elim (Option-cases (w.objects p)) [
      | inl e ↦ absurd (ground arith)
      | inr (a, e) ↦ elim (Bool-cases (is_broken (message_of iequals (parse msg)))) [
        | inl b ↦
            let unheard : a.slots ≡ 0 = ground arith in
            rw (message_to, load, e, unheard, emit) (w, refl, v)
        | inr b ↦
            rw (message_to, load, e)
              (emit-Returns p (on_peer_message iequals parse with_src p msg)
                (peer_message-Returns p msg b) a.slots w v)
      ]
    ]

    close-Returns :
        (o : Option Ptr)
        → is_dangling o w ≡ false
        → Returns iequals eq (close_of iequals parse with_src o w)
    unfolding close_of load
    close-Returns none h = (w, refl, v)
    close-Returns (some p) h = elim (Option-cases (w.objects p)) [
      | inl e ↦ absurd (ground arith)
      | inr (a, e) ↦
          rw (close_of, load, e)
            (emit-Returns p (on_peer_close iequals parse with_src p) (peer_close-Returns p) a.slots
              w v)
    ]

    message-fault :
        (o : Option Ptr) (msg : String)
        → is_refused o msg w ≡ true
        → message_to iequals parse with_src o msg w ≡ fault
    unfolding message_to load
    message-fault none msg h = absurd (ground arith)
    message-fault (some p) msg h = elim (Option-cases (w.objects p)) [
      | inl gone ↦ simp gone
      | inr (a, e) ↦
          let b : is_broken (message_of iequals (parse msg)) ≡ true = ground arith in
          let c : ltb 0 a.slots ≡ true = ground arith in
          simp (e, broken-fault p a msg a.slots w e b c)
    ]

    close-fault :
        (o : Option Ptr) → is_dangling o w ≡ true → close_of iequals parse with_src o w ≡ fault
    unfolding close_of load
    close-fault none h = absurd (ground arith)
    close-fault (some p) h = let gone : w.objects p ≡ none = ground arith in simp gone

    step-Returns :
        (e : Event) → IsPossible e w → is_fatal e w ≡ false → Returns iequals eq (step e w)
    unfolding step on_message on_close
    step-Returns (connects session key id token) k h =
        on_connection-Returns iequals eq type_json error_json w v session key id token k
    step-Returns (sends session msg) k h = message-Returns (w.slots session) msg h
    step-Returns (closes session) k h = close-Returns (w.slots session) h

    pub event-Returns_iff :
        (e : Event)
        → IsPossible e w
        → (is_fatal e w ≡ true → step e w ≡ fault)
          × (is_fatal e w ≡ false → Returns iequals eq (step e w))
    unfolding step on_message on_close
    event-Returns_iff (connects session key id token) k =
        ((λ h. absurd (ground arith)), step-Returns (connects session key id token) k)
    event-Returns_iff (sends session msg) k =
        ((λ h. message-fault (w.slots session) msg h), step-Returns (sends session msg) k)
    event-Returns_iff (closes session) k =
        ((λ h. close-fault (w.slots session) h), step-Returns (closes session) k)
