-- ===== src/Sdk/Messages.antt =====
-- Messages of senders, as sdk/receiver/src/ReceiverMessageChannel.cpp and MessageBusManager.cpp read them,
-- and of the daemon, as FlintReceiverManager.cpp does, keep what holds of a manager.
use flingd_cc.Base.{String, Option, none, some, str_eq}
use flingd_cc.Base.Machine.{skip, ◌>>=◌, ◌>>◌}
use flingd_cc.Media.Json.{
  Json, null, boolean, integer, double, texts, array, object, Items, done, item,
}
use flingd_cc.Media.Info.{is_null, at, get_string}
use flingd_cc.Media.Keeps.{bind-Keeps, at-Keeps, get_string-Keeps}
use flingd_cc.Sdk.Store.{ipc, receivers, Channel, BusManager, Do}
use flingd_cc.Sdk.Bus.{
  bus_send, deliver, on_receiver_message, on_data, typed_message, channel_message,
  on_channel_message,
}
use flingd_cc.Sdk.Manager.{
  set_service_url, send_to_channel, ipc_send, send_heartbeat, join_additional_data,
  send_additional_data, on_first_ip, on_ip, on_heartbeat, dispatch, ipc_message, on_ipc_message,
}
use flingd_cc.Sdk.Sound.{
  IsSound, Sound, skip-Sound, seq-Sound, get-then-Sound, if-Sound, unless-Sound, when-Sound,
  tell-Sound, send-Sound, send_to-Sound,
}
use flingd_cc.Sdk.Kept.{load_manager-Sound, load_bus-Sound}

set_service_url-Sound : (t : String) → Sound (set_service_url t)
set_service_url-Sound t = record { holds = λ w h. record { both = h.both; known = h.known } }

send_to_channel-Sound : (o : Option Channel) (m : String) → Sound (send_to_channel o m)
unfolding send_to_channel
send_to_channel-Sound none m = skip-Sound
send_to_channel-Sound (some c) m = send-Sound ipc m

pub ipc_send-Sound : (m : String) → Sound (ipc_send m)
unfolding ipc_send
ipc_send-Sound m = get-then-Sound _ (λ w. send_to_channel-Sound w.ipc_channel m)

module _ {D : Type 0} where
  at-Sound :
      (name : String) (v : Json D) (k : Json D → Do)
      → ((u : Json D) → Sound (k u))
      → Sound (at name v >>= k)
  at-Sound name v k f = bind-Keeps IsSound _ k (at-Keeps IsSound name v) f

  get_string-Sound :
      (v : Json D) (k : String → Do) → ((t : String) → Sound (k t)) → Sound (get_string v >>= k)
  get_string-Sound v k f = bind-Keeps IsSound _ k (get_string-Keeps IsSound v) f

module _ {D : Type 0} (print : Json D → String) (parse : String → Json D) where
  pub bus_send-Sound : (ns m sender : String) → Sound (bus_send print parse ns m sender)
  unfolding bus_send
  bus_send-Sound ns m sender =
      load_bus-Sound ns _ (λ b. when-Sound b.linked _ (send_to-Sound print receivers _ sender))

  deliver-Sound :
      (b : BusManager) (sender : String) (d : Json D) → Sound (deliver print parse b sender d)
  unfolding deliver
  deliver-Sound b sender d = unless-Sound (is_null d) _ (
      at-Sound "namespace" d _ (λ ns. unless-Sound (is_null ns) _ (
        at-Sound "payload" d _ (λ payload.
          unless-Sound (is_null payload) _
            (get_string-Sound ns _ (λ n. get_string-Sound payload _ (λ p. tell-Sound _)))))))

  on_receiver_message-Sound :
      (type_ sender m : String) → Sound (on_receiver_message print parse type_ sender m)
  unfolding on_receiver_message
  on_receiver_message-Sound type_ sender m = load_manager-Sound _ (λ w b e h.
      (if-Sound (str_eq type_ "senderConnected") _ _ (tell-Sound _) (
          if-Sound (str_eq type_ "senderDisconnected") _ _ (tell-Sound _)
            (when-Sound (str_eq type_ "message") _ (deliver-Sound b sender (parse m))))).holds
        w h)

  on_data-Sound : (sender : String) (v : Json D) → Sound (on_data print parse sender v)
  unfolding on_data
  on_data-Sound sender v =
      unless-Sound (is_null v) _
        (get_string-Sound v _ (λ m. on_receiver_message-Sound "message" sender m))

  typed_message-Sound :
      (type_ sender : String) (d : Json D) → Sound (typed_message print parse type_ sender d)
  unfolding typed_message
  typed_message-Sound type_ sender d =
      if-Sound (str_eq type_ "senderConnected") _ _
        (on_receiver_message-Sound "senderConnected" sender "")
        (if-Sound (str_eq type_ "senderDisconnected") _ _
          (on_receiver_message-Sound "senderDisconnected" sender "")
          (when-Sound (str_eq type_ "message") _
            (at-Sound "data" d _ (λ v. on_data-Sound sender v))))

  channel_message-Sound : (d : Json D) → Sound (channel_message print parse d)
  unfolding channel_message
  channel_message-Sound d = unless-Sound (is_null d) _ (
      at-Sound "type" d _ (λ t. unless-Sound (is_null t) _ (
        at-Sound "senderId" d _ (λ s. unless-Sound (is_null s) _ (
          get_string-Sound s _
            (λ sender. get_string-Sound t _ (λ type_. typed_message-Sound type_ sender d)))))))

  pub on_channel_message-Sound : (text : String) → Sound (on_channel_message print parse text)
  unfolding on_channel_message
  on_channel_message-Sound text = channel_message-Sound (parse text)

module _ {D : Type 0} (print : Json D → String) (parse : String → Json D) (app_id : String) where
  send_heartbeat-Sound : (t : String) → Sound (send_heartbeat print parse app_id t)
  unfolding send_heartbeat
  send_heartbeat-Sound t = ipc_send-Sound _

  pub send_additional_data-Sound : Sound (send_additional_data print parse app_id)
  unfolding send_additional_data
  send_additional_data-Sound = get-then-Sound _ (λ w.
      unless-Sound (str_eq (join_additional_data print parse app_id w) "") _ (ipc_send-Sound _))

  on_first_ip-Sound : (is : Items D) → Sound (on_first_ip print parse app_id is)
  unfolding on_first_ip
  on_first_ip-Sound done = skip-Sound
  on_first_ip-Sound (item v is) =
      get_string-Sound v _ (λ ip. seq-Sound (set_service_url-Sound ip) send_additional_data-Sound)

  on_ip-Sound : (v : Json D) → Sound (on_ip print parse app_id v)
  unfolding on_ip
  on_ip-Sound (array is) = on_first_ip-Sound is
  on_ip-Sound null = skip-Sound
  on_ip-Sound (boolean b) = skip-Sound
  on_ip-Sound (integer n) = skip-Sound
  on_ip-Sound (double x) = skip-Sound
  on_ip-Sound (texts t) = skip-Sound
  on_ip-Sound (object ms) = skip-Sound

  on_heartbeat-Sound : (v : Json D) → Sound (on_heartbeat print parse app_id v)
  unfolding on_heartbeat
  on_heartbeat-Sound v = unless-Sound (is_null v) _ (
      get_string-Sound v _ (λ t.
        if-Sound (str_eq t "ping") _ _ (send_heartbeat-Sound "pong")
          (when-Sound (str_eq t "pong") _ (send_heartbeat-Sound "ping"))))

  token-Sound : (d : Json D) → Sound (at "token" d >>= (λ v. get_string v >> skip))
  token-Sound d = at-Sound "token" d _ (λ v. get_string-Sound v _ (λ t. skip-Sound))

  dispatch-Sound : (type_ : String) (d : Json D) → Sound (dispatch print parse app_id type_ d)
  unfolding dispatch
  dispatch-Sound type_ d =
      if-Sound (str_eq type_ "registerok") _ _
        (at-Sound "service_info" d _
          (λ info. unless-Sound (is_null info) _ (at-Sound "ip" info _ (λ v. on_ip-Sound v))))
        (unless-Sound (str_eq type_ "startHeartbeat") _ (
          if-Sound (str_eq type_ "heartbeat") _ _
            (at-Sound "heartbeat" d _ (λ v. on_heartbeat-Sound v))
            (if-Sound (str_eq type_ "senderconnected") _ _ (token-Sound d)
              (when-Sound (str_eq type_ "senderdisconnected") _ (token-Sound d)))))

  ipc_message-Sound : (d : Json D) → Sound (ipc_message print parse app_id d)
  unfolding ipc_message
  ipc_message-Sound d = unless-Sound (is_null d) _ (
      at-Sound "appid" d _ (λ id. unless-Sound (is_null id) _ (
        get_string-Sound id _ (λ t. when-Sound (str_eq app_id t) _ (
          at-Sound "type" d _ (λ v.
            unless-Sound (is_null v) _
              (get_string-Sound v _ (λ type_. dispatch-Sound type_ d))))))))

  pub on_ipc_message-Sound : (text : String) → Sound (on_ipc_message print parse app_id text)
  unfolding on_ipc_message
  on_ipc_message-Sound text = unless-Sound (str_eq text "") _ (ipc_message-Sound (parse text))
