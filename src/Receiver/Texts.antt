-- ===== src/Receiver/Texts.antt =====
-- The texts of flint/src/flint/handler/ReceiverApplicationHandler.cpp, as values of JSON: what is read in a
-- message, and what is sent.
use flingd_cc.Base.{String, List, [], ◌∷◌, Option, none, some}
use flingd_cc.Base.Int.{pos}
use flingd_cc.Media.Json
use flingd_cc.Media.Json.{Json, Members, find_member, object, end, item, done, array, integer}
use flingd_cc.Peers.Reading.{Member, missing, null, texts, other}
use flingd_cc.Receiver.Handler.{
  Output, register_ok, start_heartbeat, heartbeat, sender_connected, sender_disconnected, closing,
  Additional, absent, no_object, pairs, Fields,
}

module _ {D : Type 0} where
  abbrev value_of : Json D → Member
  value_of Json.null = null
  value_of (Json.texts t) = texts t
  value_of v = other

  abbrev pub member_of : Option (Json D) → Member
  member_of none = missing
  member_of (some v) = value_of v

  abbrev text_or_none : Json D → Option String
  text_or_none (Json.texts t) = some t
  text_or_none v = none

  unfoldable pub pairs_of : Members D → List (String × Option String)
  pairs_of end = []
  pairs_of (Json.member k v ms) = (k, text_or_none v) ∷ pairs_of ms

  abbrev pub additional_of : Option (Json D) → Additional
  additional_of none = absent
  additional_of (some (object ms)) = pairs (pairs_of ms)
  additional_of (some v) = no_object

  -- The members of a value that is neither null nor an object are undefined, as the text of `other` is.
  -- `raw` is what GetString gives of an object.
  unfoldable pub fields_of : (Json D → String) → Json D → Option Fields
  unfolding find_member pairs_of
  fields_of raw Json.null = none
  fields_of raw (object ms) = some (record {
    app_id = member_of (find_member "appid" ms);
    type_ = member_of (find_member "type" ms);
    additional = additional_of (find_member "additionaldata" ms);
    heartbeat = member_of (find_member "heartbeat" ms);
    document_text = raw (object ms);
  })
  fields_of raw v = some (record {
    app_id = other;
    type_ = other;
    additional = absent;
    heartbeat = other;
    document_text = raw v;
  })

  module _ (app_id uuid device_name : String) where
    abbrev typed : String → Members D → Json D
    typed type_ ms =
        object (Json.member "type" (Json.texts type_) (Json.member "appid" (Json.texts app_id) ms))

    -- The text of an output; the end of the connection has none.
    unfoldable pub text_of : Output → Json D
    text_of (register_ok ip) = typed "registerok" (
        Json.member "service_info"
          (object (
            Json.member "ip" (array (item (Json.texts ip) done)) (
              Json.member "uuid" (Json.texts uuid)
                (Json.member "device_name" (Json.texts device_name) end))))
          end)
    text_of start_heartbeat =
        typed "startHeartbeat" (Json.member "interval" (integer (pos 3000)) end)
    text_of (heartbeat t) = typed "heartbeat" (Json.member "heartbeat" (Json.texts t) end)
    text_of (sender_connected token) =
        typed "senderconnected" (Json.member "token" (Json.texts token) end)
    text_of (sender_disconnected token) =
        typed "senderdisconnected" (Json.member "token" (Json.texts token) end)
    text_of closing = Json.null
