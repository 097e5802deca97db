-- ===== src/Sdk/Daemon.antt =====
-- The receiver's side, sdk/receiver/src/FlintReceiverManager.cpp, and the daemon's side,
-- flint/src/flint/handler/ReceiverApplicationHandler.cpp, of one connection.
use Prim.Native.String.{◌++◌ as ◌&◌}
use text.Mathlib.TextLemmas.{append_assoc}
use flingd_cc.Base.{
  sym, ◌∙◌, ℕ, String, Bool, true, false, [], ◌∷◌, ◌++◌, some, str_eq, eq_iff, ◌≡◌, refl, arith,
  Bool-cases, inl, inr,
}
use flingd_cc.Base.Machine
use flingd_cc.Base.Machine.{Cmd, ◌>>◌, ◌>>=◌}
use flingd_cc.Media.Json.{Json, null, texts, object, Members, end, member}
use flingd_cc.App.Object.{Application}
use flingd_cc.App.Store.{Ptr, World, ok, write}
use flingd_cc.App.Events.{get_alive_application}
use flingd_cc.Sessions.Manager.{touch_receiver}
use flingd_cc.Receiver.Handler.{Link, register_ok, heartbeat, on_message}
use flingd_cc.Receiver.Texts.{fields_of, text_of}
use flingd_cc.Receiver.Answers.{heartbeat_ignored}
use flingd_cc.Sdk.Store.{ipc, Channel, BusManager, Sdk}
use flingd_cc.Sdk.Manager.{step, receives, runs_task, typed_object, base_url}

module _ {D : Type 0} (print : Json D → String) (parse : String → Json D)
    (app_id uuid device_name : String) where
  -- rapidjson reads a value back that it has written.
  abbrev pub Reads : Json D → Type 0
  Reads v = parse (print v) ≡ v

  -- An object is not written as the empty text, from which nothing is read.
  not_empty :
      parse "" ≡ null → (ms : Members D) → Reads (object ms) → str_eq (print (object ms)) "" ≡ false
  not_empty n ms v = elim (Bool-cases (str_eq (print (object ms)) "")) [
    | inl e ↦
        let same : print (object ms) ≡ "" = ground (arith, eq_iff (print (object ms)) "") in
        absurd (ground (arith, n, v, same))
    | inr e ↦ e
  ]

  equal : (t : String) → str_eq t t ≡ true
  equal t = ground (arith, eq_iff t t)

  -- The message arrives, and the next task of the io_service runs.
  abbrev pub exchange : String → Cmd Sdk (Unit {0})
  exchange text = do step print parse app_id (receives ipc text); step print parse app_id runs_task

  -- the channel after a text was sent
  abbrev pub sent : Sdk → Channel → String → Sdk
  sent w c m = record w { ipc_channel = some (record c { wire = c.wire ++ m ∷ [] }); tasks = [] }

  abbrev pub pong : Json D
  pong = typed_object print parse app_id "heartbeat" (member "heartbeat" (texts "pong") end)

  pong-exchange :
      (w : Sdk) (c : Channel)
      → w.ipc_channel ≡ some c
      → c.opened ≡ true
      → w.tasks ≡ []
      → parse "" ≡ null
      → Reads (text_of app_id uuid device_name (heartbeat "ping"))
      → Reads pong
      → c.connecting ≡ true
      → exchange (print (text_of app_id uuid device_name (heartbeat "ping"))) w
        ≡ Machine.ok tt (sent w c (print pong))
  unfolding step text_of
  pong-exchange w c e o t n r p u =
      let filled = not_empty n _ r in simp (r, e, o, t, equal app_id, not_empty n _ p, filled, u)

  tag_lem :
      (v : String)
      → "<" & ("channelBaseUrl" & (">" & (v & "</channelBaseUrl>")))
        ≡ "<channelBaseUrl>" & (v & "</channelBaseUrl>")
  tag_lem v =
      sym (append_assoc "<" "channelBaseUrl" (">" & (v & "</channelBaseUrl>")))
      ∙ sym (append_assoc "<channelBaseUrl" ">" (v & "</channelBaseUrl>"))

  -- the additional data for the address of the daemon, without custom data
  abbrev pub address : String → Json D
  address ip = typed_object print parse app_id "additionaldata" (
      member "additionaldata"
        (object (member "channelBaseUrl" (texts (base_url print parse app_id ip)) end)) end)

  address-exchange :
      (w : Sdk) (c : Channel) (b : BusManager) (ip : String)
      → w.ipc_channel ≡ some c
      → w.bus_manager ≡ some b
      → w.custom_data ≡ ""
      → c.opened ≡ true
      → w.tasks ≡ []
      → parse "" ≡ null
      → Reads (text_of app_id uuid device_name (register_ok ip))
      → Reads (address ip)
      → c.connecting ≡ true
      → exchange (print (text_of app_id uuid device_name (register_ok ip))) w
        ≡ Machine.ok tt (sent (record w { service_url = ip }) c (print (address ip)))
  unfolding step text_of
  address-exchange w c b ip e m k o t n r p u =
      let filled = not_empty n _ r in
      simp (r, e, m, k, o, t, equal app_id, not_empty n _ p, filled, u)

  module _ (iequals : String → String → Bool) (launches : String → Bool) (n now : ℕ)
      (token ip : String) (world : World) (l : Link) (p : Ptr) (a : Application)
      (alive : get_alive_application world ≡ some p) (lives : world.apps p ≡ some a)
      (own : a.app_id ≡ app_id) where
    -- While the application is the one that is alive, and with JSON read as it was written: when the
    -- daemon sends a ping to the receiver's manager, whose channel is open and has nothing else to send,
    -- the manager answers with a pong. Where the text that the daemon reads of this message itself, and
    -- not of its heartbeat, is not ping, the daemon only touches the receiver's session and sends
    -- nothing. The comparison without case tells the type heartbeat from the three others.
    pub pong_ignored :
        (w : Sdk) (c : Channel) (raw : Json D → String)
        → w.ipc_channel ≡ some c
        → c.opened ≡ true
        → w.tasks ≡ []
        → parse "" ≡ null
        → Reads (text_of app_id uuid device_name (heartbeat "ping"))
        → Reads pong
        → c.connecting ≡ true
        → iequals "heartbeat" "register" ≡ false
        → iequals "heartbeat" "unregister" ≡ false
        → iequals "heartbeat" "additionaldata" ≡ false
        → iequals "heartbeat" "heartbeat" ≡ true
        → iequals (raw pong) "ping" ≡ false
        → (exchange (print (text_of app_id uuid device_name (heartbeat "ping"))) w
            ≡ Machine.ok tt (sent w c (print pong)))
          × (on_message iequals app_id launches n now token ip
                (fields_of raw (parse (print pong)))
                l
                world
              ≡ ok (record l { sessions = (touch_receiver now app_id l.sessions).0 }) world)
    unfolding fields_of
    pong_ignored w c raw e o t q v z k r u d h x = (
      pong-exchange w c e o t q v z k,
      rw (z) (
          heartbeat_ignored iequals app_id launches n now token ip world l _ p a app_id "heartbeat"
            alive lives (rw own (equal app_id)) refl (equal app_id) refl r u d h x),
    )

    -- When the daemon tells its address to the receiver's manager, whose channel is open and has nothing
    -- else to send, which has buses and no custom data, the manager sends its additional data, and from
    -- these, with JSON read as it was written, the daemon keeps the URL of the channel at this address for the application that is alive.
    -- The comparison without case tells the type additionaldata from the others.
    pub address_told :
        (w : Sdk) (c : Channel) (b : BusManager) (host : String) (raw : Json D → String)
        → w.ipc_channel ≡ some c
        → w.bus_manager ≡ some b
        → w.custom_data ≡ ""
        → c.opened ≡ true
        → w.tasks ≡ []
        → parse "" ≡ null
        → Reads (text_of app_id uuid device_name (register_ok host))
        → Reads (address host)
        → c.connecting ≡ true
        → iequals "additionaldata" "register" ≡ false
        → iequals "additionaldata" "unregister" ≡ false
        → iequals "additionaldata" "additionaldata" ≡ true
        → (m : String) × (x : Link) × (exchange
              (print (text_of app_id uuid device_name (register_ok host)))
              w
            ≡ Machine.ok tt (sent (record w { service_url = host }) c m))
          × (on_message iequals app_id launches n now token ip (fields_of raw (parse m)) l world
              ≡ ok x (record world {
                apps = write world.apps p (
                    some (record a {
                      additional_data =
                          "<channelBaseUrl>"
                          & (("ws://" & (host & ":9439/channels/channelBaseUrl"))
                              & "</channelBaseUrl>");
                    }));
              }))
    unfolding fields_of on_message
    address_told w c b host raw e m k o t q v z h r u d = (
      print (address host),
      record l { sessions = (touch_receiver now app_id l.sessions).0 },
      address-exchange w c b host e m k o t q v z h,
      rw (z) simp (alive, lives, own, equal app_id, r, u, d, tag_lem),
    )
