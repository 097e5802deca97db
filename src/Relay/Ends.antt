-- ===== src/Relay/Ends.antt =====
-- The handlers of flint/src/ws/WebsocketServer.cpp end, and keep the invariant of the server.
use flingd_cc.Base.{
  String, ◌≡◌, refl, sym, subst, Bool, true, false, if◌then◌else◌, Option, none, some, List, [],
  ◌∷◌, arith, str_eq, is_some, All, Bool-cases, Option-cases, inl, inr,
}
use flingd_cc.Base.Machine.{Run, ok, fault}
use flingd_cc.StdMap.{find, insert, erase}
use flingd_cc.Relay.Store.{
  Ptr, Sender, Receiver, Channel, Output, text, closing, sender_channel, receiver_channel, Server,
  write, load_sender, load_receiver,
}
use flingd_cc.Relay.Server.{
  send_all, send_to, on_receiver_close, on_sender_close, on_sender_message, add_sender_channel,
  add_receiver_channel, on_sender_connected, connect, join, leave, forward, deliver,
  remove_receiver_channel, remove_sender_channel, connect_receiver, notice,
}
use flingd_cc.Relay.Sound.{IsSound, sender_of, senders_of, channel_id_of, receiver-IsSound}
use flingd_cc.Relay.Moves.{sender-IsSound, leave-IsSound, orphan-IsSound}
use flingd_cc.Relay.Closing.{is_sender, close_senders_lem, closings, close-IsSound, senders_live}

-- A run that ends in a sound state.
abbrev pub Returns : Run Server (Unit {0}) → Type 0
Returns r = (w : Server) × (r ≡ ok tt w) × IsSound w

receiver_in :
    (c : Option Channel) (id : String)
    → channel_id_of c ≡ some id
    → (r : Receiver) × (c ≡ some (receiver_channel r))
receiver_in none id e = absurd (ground arith)
receiver_in (some (sender_channel s)) id e = absurd (ground arith)
receiver_in (some (receiver_channel r)) id e = (r, refl)

pub members_in :
    (c : Option Channel) (id : String) (p : Ptr)
    → find id (senders_of c) ≡ some p
    → (r : Receiver) × (c ≡ some (receiver_channel r)) × (find id r.senders ≡ some p)
unfolding find
members_in none id p e = absurd (ground arith)
members_in (some (sender_channel s)) id p e = absurd (ground arith)
members_in (some (receiver_channel r)) id p e = (r, refl, e)

pub sender_in :
    (c : Option Channel) → is_sender c ≡ true → (s : Sender) × (c ≡ some (sender_channel s))
sender_in none e = absurd (ground arith)
sender_in (some (sender_channel s)) e = (s, refl)
sender_in (some (receiver_channel r)) e = absurd (ground arith)

-- What is sent does not matter.
said-IsSound : (w : Server) (m : List (Ptr × Output)) → IsSound w → IsSound (record w { sent = m })
said-IsSound w m v = record {
  listed = v.listed;
  registered = v.registered;
  joined = v.joined;
  member = v.member;
  distinct = v.distinct;
  distinct_senders = v.distinct_senders;
}

abbrev is_full : List (String × Ptr) → Bool
is_full [] = false
is_full (e ∷ m) = true

-- whether a receiver sends what is meant for `id` to somebody
abbrev is_addressed : String → Receiver → Bool
is_addressed id r = if str_eq id "*:*" then is_full r.senders else is_some (find id r.senders)

-- whether a text is read that is none: of the identifier always, of the data for somebody
abbrev pub is_unreadable : Option (String × Option String) → Receiver → Bool
is_unreadable none r = true
is_unreadable (some (id, none)) r = is_addressed id r
is_unreadable (some (id, some msg)) r = false

empty_of : (m : List (String × Ptr)) → is_full m ≡ false → m ≡ []
empty_of [] h = refl
empty_of (e ∷ m) h = absurd (ground arith)

all-fault : (m : List (String × Ptr)) (w : Server) → is_full m ≡ true → send_all none m w ≡ fault
unfolding send_all
all-fault [] w h = absurd (ground arith)
all-fault (e ∷ m) w h = refl

one-fault : (o : Option Ptr) (w : Server) → is_some o ≡ true → send_to none o w ≡ fault
unfolding send_to
one-fault none w h = absurd (ground arith)
one-fault (some p) w h = refl

pub deliver-fault :
    (o : Option (String × Option String)) (r : Receiver) (w : Server)
    → is_unreadable o r ≡ true
    → deliver o r w ≡ fault
unfolding deliver
deliver-fault none r w h = refl
deliver-fault (some (id, none)) r w h = elim (Bool-cases (str_eq id "*:*")) [
  | inl b ↦ rw (deliver, b) (all-fault r.senders w (ground arith))
  | inr b ↦ rw (deliver, b) (one-fault (find id r.senders) w (ground arith))
]
deliver-fault (some (id, some msg)) r w h = absurd (ground arith)

module _ (json : List (String × String) → String) where
  module _ (w : Server) (v : IsSound w) where
    receiver_at :
        (id : String) (p : Ptr)
        → find id w.receivers ≡ some p
        → (r : Receiver) × (w.channels p ≡ some (receiver_channel r))
    receiver_at id p f = receiver_in (w.channels p) id (v.listed id p f)

    said-Returns : (p : Ptr) (o : Output) → Returns (ok tt (record w { sent = (p, o) ∷ w.sent }))
    said-Returns p o = (_, refl, said-IsSound w ((p, o) ∷ w.sent) v)

    receiver-Returns :
        (id : String) (p : Ptr) → w.channels p ≡ none → Returns (add_receiver_channel json id p w)
    unfolding add_receiver_channel
    receiver-Returns id p e = elim (Option-cases (find id w.receivers)) [
      | inl f ↦
          let made = some (receiver_channel (record { channel_id = id; senders = [] })) in
          (
            record w { channels = write w.channels p made; receivers = insert id p w.receivers },
            rw (add_receiver_channel, f) refl,
            receiver-IsSound w id p v e f,
          )
      | inr (q, f) ↦ rw (add_receiver_channel, f) (said-Returns p closing)
    ]

    join-Returns :
        (o : Option Ptr) (channel_id id : String) (q : Ptr)
        → find channel_id w.receivers ≡ o
        → w.channels q ≡ none
        → Returns (join json o id q w)
    unfolding join add_sender_channel load_receiver
    join-Returns none channel_id id q f e = said-Returns q closing
    join-Returns (some p) channel_id id q f e =
        let (r, g) = receiver_at channel_id p f in
        elim (Option-cases (find id r.senders)) [
          | inl new ↦
              let more = some (receiver_channel (record r { senders = insert id q r.senders })) in
              (
                record w {
                  channels = write (write w.channels q (sender_of id p)) p more;
                  sent = (p, notice json "senderConnected" id) ∷ w.sent;
                },
                rw (join, add_sender_channel, load_receiver, g, new) refl,
                said-IsSound _ _ (sender-IsSound w v p r id q g e new),
              )
          | inr (x, old) ↦
              rw (join, add_sender_channel, load_receiver, g, old) (said-Returns q closing)
        ]

    pub connect-Returns :
        (sender : Option (String × String)) (receiver : Option String) (p : Ptr)
        → w.channels p ≡ none
        → Returns (connect json sender receiver p w)
    unfolding connect connect_receiver on_sender_connected
    connect-Returns none none p e = (w, refl, v)
    connect-Returns none (some id) p e = receiver-Returns id p e
    connect-Returns (some (channel_id, id)) receiver p e =
        join-Returns (find channel_id w.receivers) channel_id id p refl e

    closed :
        (p : Ptr) (id : String) (o : Option Ptr)
        → w.channels p ≡ some (sender_channel (record { sender_id = id; channel = o }))
        → Returns (on_sender_close json p w)
    unfolding on_sender_close leave remove_sender_channel load_sender load_receiver
    closed p id none e = (
      record w { channels = write w.channels p none },
      rw (on_sender_close, load_sender, e) refl,
      orphan-IsSound w v p id e,
    )
    closed p id (some q) e =
        let (r, g, f) = members_in (w.channels q) id p (v.member q id p e) in
        let fewer = some (receiver_channel (record r { senders = erase id r.senders })) in
        (
          record w {
            channels = write (write w.channels q fewer) p none;
            sent = (q, notice json "senderDisconnected" id) ∷ w.sent;
          },
          rw (on_sender_close, load_sender, e, leave, remove_sender_channel, load_receiver, g, f)
              refl,
          said-IsSound _ _ (leave-IsSound w v q r id p g e),
        )

    pub sender_close-Returns :
        (p : Ptr) (s : Sender)
        → w.channels p ≡ some (sender_channel s)
        → Returns (on_sender_close json p w)
    sender_close-Returns p s e = closed p s.sender_id s.channel e

    pub receiver_close-Returns :
        (p : Ptr) (r : Receiver)
        → w.channels p ≡ some (receiver_channel r)
        → Returns (on_receiver_close p w)
    unfolding on_receiver_close load_receiver remove_receiver_channel
    receiver_close-Returns p r e = (
      _,
      rw
          (
            on_receiver_close,
            load_receiver,
            e,
            close_senders_lem r.senders w (senders_live w v p r e),
          )
          refl,
      said-IsSound _ (closings r.senders w.sent) (close-IsSound w v p r e),
    )

    send_all-Returns :
        (msg : String) (m : List (String × Ptr))
        → All (λ e. is_sender (w.channels e.1) ≡ true) m
        → (sent : List (Ptr × Output)) → Returns (send_all (some msg) m (record w { sent = sent }))
    unfolding send_all load_sender
    send_all-Returns msg [] a sent = (_, refl, said-IsSound w sent v)
    send_all-Returns msg ((k, p) ∷ m) a sent =
        let (s, g) = sender_in (w.channels p) a.0 in
        rw (send_all, load_sender, g) (send_all-Returns msg m a.1 ((p, text msg) ∷ sent))

    send_to-Returns :
        (msg : String) (r : Receiver) (p : Ptr) (id : String)
        → w.channels p ≡ some (receiver_channel r)
        → Returns (send_to (some msg) (find id r.senders) w)
    unfolding send_to load_sender
    send_to-Returns msg r p id e = elim (Option-cases (find id r.senders)) [
      | inl f ↦ rw f (w, refl, v)
      | inr (q, f) ↦
          let g = v.joined p id q (subst (λ c. find id (senders_of c) ≡ some q) (sym e) f) in
          rw (f, send_to, load_sender, g) (said-Returns q (text msg))
    ]

    pub deliver-Returns :
        (p : Ptr) (r : Receiver) (o : Option (String × Option String))
        → w.channels p ≡ some (receiver_channel r)
        → is_unreadable o r ≡ false
        → Returns (deliver o r w)
    unfolding deliver send_to
    deliver-Returns p r none e h = absurd (ground arith)
    deliver-Returns p r (some (id, none)) e h = elim (Bool-cases (str_eq id "*:*")) [
      | inl b ↦
          let nobody : r.senders ≡ [] = empty_of r.senders (ground arith) in
          rw (deliver, b, nobody, send_all) (w, refl, v)
      | inr b ↦
          let nobody : find id r.senders ≡ none = ground arith in
          rw (deliver, b, nobody) (w, refl, v)
    ]
    deliver-Returns p r (some (id, some msg)) e h = elim (Bool-cases (str_eq id "*:*")) [
      | inl b ↦ rw (deliver, b) (send_all-Returns msg r.senders (senders_live w v p r e) w.sent)
      | inr b ↦ rw (deliver, b) (send_to-Returns msg r p id e)
    ]

    pub forwarded :
        (p : Ptr) (msg id : String) (o : Option Ptr)
        → w.channels p ≡ some (sender_channel (record { sender_id = id; channel = o }))
        → is_some o ≡ true
        → Returns (on_sender_message json p msg w)
    unfolding on_sender_message forward load_sender load_receiver
    forwarded p msg id none e h = absurd (ground arith)
    forwarded p msg id (some q) e h =
        let (r, g, f) = members_in (w.channels q) id p (v.member q id p e) in
        rw (on_sender_message, load_sender, e, forward, load_receiver, g) (said-Returns q _)
