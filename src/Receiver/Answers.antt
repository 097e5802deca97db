-- ===== src/Receiver/Answers.antt =====
-- What flint/src/flint/handler/ReceiverApplicationHandler.cpp does with a message.
use flingd_cc.Base.{ℕ, String, Bool, true, false, Option, none, some, ◌≡◌, refl, str_eq}
use flingd_cc.App.Object.{Application}
use flingd_cc.App.Store.{Ptr, World, ok, load}
use flingd_cc.App.Events.{get_alive_application}
use flingd_cc.Sessions.Manager.{touch_receiver}
use flingd_cc.Peers.Reading.{Member, missing, null, texts, other}
use flingd_cc.Receiver.Handler.{
  Link, Fields, close, on_heartbeat, dispatch, typed, addressed, received, message_for, on_message,
}

module _ (iequals : String → String → Bool) (app_id : String) (launches : String → Bool) (n now : ℕ)
    (token ip : String) where
  unread :
      (m : Member) (t : String) (l : Link) (w : World)
      → iequals t "ping" ≡ false
      → on_heartbeat iequals app_id m t l w ≡ ok l w
  unfolding on_heartbeat
  unread missing t l w e = refl
  unread null t l w e = refl
  unread (texts b) t l w e = rw e refl
  unread other t l w e = rw e refl

  -- While the application of the connection is the one that is alive, a message for it of the type
  -- heartbeat, whatever heartbeat it has, only touches the session of the receiver, unless the text that is
  -- read of the message itself is ping.
  pub heartbeat_ignored :
      (w : World) (l : Link) (f : Fields) (p : Ptr) (a : Application) (id type_ : String)
      → get_alive_application w ≡ some p
      → w.apps p ≡ some a
      → str_eq a.app_id app_id ≡ true
      → f.app_id ≡ texts id
      → str_eq app_id id ≡ true
      → f.type_ ≡ texts type_
      → iequals type_ "register" ≡ false
      → iequals type_ "unregister" ≡ false
      → iequals type_ "additionaldata" ≡ false
      → iequals type_ "heartbeat" ≡ true
      → iequals f.document_text "ping" ≡ false
      → on_message iequals app_id launches n now token ip (some f) l w
        ≡ ok (record l { sessions = (touch_receiver now app_id l.sessions).0 }) w
  unfolding on_message message_for received addressed typed dispatch load
  heartbeat_ignored w l f p a id type_ alive o own named same typed_ r u d h t =
      simp (alive, o, own, named, same, typed_, r, u, d, h)
        (unread f.heartbeat f.document_text _ w t)

  -- a message while no application is alive closes the connection
  pub stray_lem :
      (w : World) (l : Link) (f : Option Fields)
      → get_alive_application w ≡ none
      → on_message iequals app_id launches n now token ip f l w ≡ ok (close l) w
  unfolding on_message message_for
  stray_lem w l f e = simp e
