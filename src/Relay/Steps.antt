-- ===== src/Relay/Steps.antt =====
-- Every event of the server of flint/src/ws/WebsocketServer.cpp keeps its invariant or is fatal.
use flingd_cc.Base.{
  String, ◌≡◌, refl, Bool, true, false, not, Option, none, some, List, arith, is_some, Bool-cases,
  inl, inr,
}
use flingd_cc.Base.Machine.{fault, get, ◌>>=◌}
use flingd_cc.Relay.Store.{
  Ptr, Channel, sender_channel, receiver_channel, Server, load_sender, load_receiver,
}
use flingd_cc.Relay.Server.{
  Do, on_sender_message, on_receiver_message, message_to, close_of, on_websocket_connection,
  forward,
}
use flingd_cc.Relay.Sound.{IsSound}
use flingd_cc.Relay.Ends.{
  Returns, connect-Returns, sender_close-Returns, receiver_close-Returns, deliver-Returns,
  deliver-fault, is_unreadable, forwarded,
}

-- The sessions' signals: a new connection for a path, a message, and the end of a connection.
pub data Event : Type 0 where
  connects : String → Ptr → Event
  sends : Ptr → String → Event
  closes : Ptr → Event

module _ (json : List (String × String) → String) (parse : String → Option (String × Option String))
    (starts_with : String → String → Bool) (sender_regex : String → Option (String × String))
    (receiver_regex : String → Option String) where
  unfoldable pub step : Event → Do
  unfolding on_websocket_connection message_to close_of
  step (connects path p) =
      on_websocket_connection json starts_with sender_regex receiver_regex path p
  step (sends p msg) = do w ← get; message_to json parse (w.channels p) p msg
  step (closes p) = do w ← get; close_of json parse (w.channels p) p

  -- A message that crashes the daemon: from a sender whose receiver has gone, or from a receiver
  -- whose identifier, or whose data for somebody, is no text.
  abbrev pub is_fatal_for : Option Channel → String → Bool
  is_fatal_for none msg = false
  is_fatal_for (some (sender_channel s)) msg = not (is_some s.channel)
  is_fatal_for (some (receiver_channel r)) msg = is_unreadable (parse msg) r

  abbrev pub is_fatal : Event → Server → Bool
  is_fatal (connects path p) w = false
  is_fatal (sends p msg) w = is_fatal_for (w.channels p) msg
  is_fatal (closes p) w = false

  -- A new session has no channel object yet.
  abbrev pub IsPossible : Event → Server → Type 0
  IsPossible (connects path p) w = w.channels p ≡ none
  IsPossible (sends p msg) w = Unit {0}
  IsPossible (closes p) w = Unit {0}

  module _ (w : Server) (v : IsSound w) where
    message-Returns :
        (c : Option Channel) (p : Ptr) (msg : String)
        → w.channels p ≡ c
        → is_fatal_for c msg ≡ false
        → Returns (message_to json parse c p msg w)
    unfolding message_to on_receiver_message load_receiver
    message-Returns none p msg e h = (w, refl, v)
    message-Returns (some (sender_channel s)) p msg e h =
        forwarded json w v p msg s.sender_id s.channel e (ground arith)
    message-Returns (some (receiver_channel r)) p msg e h =
        rw (message_to, on_receiver_message, load_receiver, e)
          (deliver-Returns json w v p r (parse msg) e (ground arith))

    message-fault :
        (c : Option Channel) (p : Ptr) (msg : String)
        → w.channels p ≡ c
        → is_fatal_for c msg ≡ true
        → message_to json parse c p msg w ≡ fault
    unfolding message_to on_sender_message on_receiver_message forward load_sender load_receiver
    message-fault none p msg e h = absurd (ground arith)
    message-fault (some (sender_channel s)) p msg e h =
        let gone : s.channel ≡ none = ground arith in simp (e, gone)
    message-fault (some (receiver_channel r)) p msg e h =
        rw (message_to, on_receiver_message, load_receiver, e) (deliver-fault (parse msg) r w h)

    close-Returns :
        (c : Option Channel) (p : Ptr) → w.channels p ≡ c → Returns (close_of json parse c p w)
    unfolding close_of
    close-Returns none p e = (w, refl, v)
    close-Returns (some (sender_channel s)) p e = sender_close-Returns json w v p s e
    close-Returns (some (receiver_channel r)) p e = receiver_close-Returns json w v p r e

    step-Returns : (e : Event) → IsPossible e w → is_fatal e w ≡ false → Returns (step e w)
    unfolding step on_websocket_connection
    step-Returns (connects path p) e h = elim (Bool-cases (starts_with path "/channels/")) [
      | inl b ↦
          rw (step, on_websocket_connection, b)
            (connect-Returns json w v (sender_regex path) (receiver_regex path) p e)
      | inr b ↦ rw (step, on_websocket_connection, b) (w, refl, v)
    ]
    step-Returns (sends p msg) e h = message-Returns (w.channels p) p msg refl h
    step-Returns (closes p) e h = close-Returns (w.channels p) p refl

    -- In a sound state, and where the closing of a connection does not throw, an event crashes the
    -- daemon exactly if it is a message of a sender whose receiver has gone, or of a receiver whose
    -- senderId is no text, or whose data is no text while there is a sender that it is for; every other
    -- event ends, in a sound state again: no channel object is used after it was deleted.
    pub step-Returns_iff :
        (e : Event)
        → IsPossible e w
        → (is_fatal e w ≡ true → step e w ≡ fault) × (is_fatal e w ≡ false → Returns (step e w))
    unfolding step
    step-Returns_iff (connects path p) k =
        ((λ h. absurd (ground arith)), step-Returns (connects path p) k)
    step-Returns_iff (sends p msg) k =
        ((λ h. message-fault (w.channels p) p msg refl h), step-Returns (sends p msg) k)
    step-Returns_iff (closes p) k = ((λ h. absurd (ground arith)), step-Returns (closes p) k)
