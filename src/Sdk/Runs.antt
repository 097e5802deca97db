-- ===== src/Sdk/Runs.antt =====
-- Runs of the manager of sdk/receiver/src/FlintReceiverManager.cpp, with all its parts, from its creation.
use flingd_cc.Base.{subst, ◌++◌, String, Bool, true, false, List, [], ◌∷◌, some, is_some, ◌≡◌, refl}
use flingd_cc.Base.Machine.{ok, skip, ◌>>◌}
use flingd_cc.StdMap.{find}
use flingd_cc.Media.Json.{Json}
use flingd_cc.Media.Keeps.{Holds, ok-Keeps, bind-Keeps, if-Keeps}
use flingd_cc.Sdk.Store.{message, Channel, BusManager, ChannelName, ipc, receivers, Sdk, Do}
use flingd_cc.Sdk.Manager.{
  set_opened, set_custom_data, new_sdk, buses_url, ipc_url, clear, is_opened, create_message_bus,
  un_register_self, register_self, set_additional_data, open_manager, close_manager, Event, opens,
  fails_or_closes, receives, runs_task, sets_data, calls_open, calls_close, creates_bus,
  sets_listener, sends_on_bus, on_open, on_close, on_message, step,
}
use flingd_cc.Sdk.Sound.{
  IsSound, Sound, skip-Sound, seq-Sound, get-then-Sound, unless-Sound, when-Sound, load-Sound,
  open_channel-Sound, close_channel-Sound, flush-Sound, mark_closed-Sound, run_task-Sound,
}
use flingd_cc.Sdk.Kept.{
  known_of, open_buses-Sound, close_buses-Sound, on_open_buses-Sound, on_close_buses-Sound,
  create_bus-Sound, set_listener-Sound,
}
use flingd_cc.Sdk.Told.{told_by, payload, from_sender, message_told}
use flingd_cc.Sdk.Messages.{
  ipc_send-Sound, bus_send-Sound, send_additional_data-Sound, on_channel_message-Sound,
  on_ipc_message-Sound,
}

clear-Sound : Sound clear
unfolding clear
clear-Sound = record { holds = λ w h. record { both = refl; known = tt } }

set_opened-Sound : (b : Bool) → Sound (set_opened b)
set_opened-Sound b = record { holds = λ w h. record { both = h.both; known = h.known } }

set_custom_data-Sound : (t : String) → Sound (set_custom_data t)
set_custom_data-Sound t = record { holds = λ w h. record { both = h.both; known = h.known } }

new_sdk-IsSound : IsSound new_sdk
unfolding new_sdk
new_sdk-IsSound = record { both = refl; known = (refl, tt, tt) }

create_message_bus-Sound : (ns : String) → Sound (create_message_bus ns)
unfolding create_message_bus
create_message_bus-Sound ns = get-then-Sound _ (λ w.
    if-Keeps IsSound (is_opened w) _ _ (ok-Keeps IsSound false)
      (if-Keeps IsSound (is_some w.bus_manager) _ _ (create_bus-Sound ns) (ok-Keeps IsSound false)))

module _ {D : Type 0} (print : Json D → String) (parse : String → Json D) (app_id : String) where
  set_additional_data-Sound : (t : String) → Sound (set_additional_data print parse app_id t)
  unfolding set_additional_data
  set_additional_data-Sound t =
      seq-Sound (set_custom_data-Sound t) (send_additional_data-Sound print parse app_id)

  open_manager-Sound : Sound (open_manager print parse app_id)
  unfolding open_manager
  open_manager-Sound = get-then-Sound _ (λ w. unless-Sound w.opened _ (
      seq-Sound
        (when-Sound (is_some w.bus_manager) _
          (open_buses-Sound app_id (buses_url print parse app_id)))
        (seq-Sound
          (when-Sound (is_some w.ipc_channel) _
            (open_channel-Sound ipc (ipc_url print parse app_id)))
          (set_opened-Sound true))))

  close_manager-Sound : Sound (close_manager print parse app_id)
  unfolding close_manager un_register_self
  close_manager-Sound = get-then-Sound _ (λ w. when-Sound w.opened _ (
      seq-Sound (ipc_send-Sound _) (
        seq-Sound (when-Sound (is_some w.bus_manager) _ close_buses-Sound) (
          seq-Sound (when-Sound (is_some w.ipc_channel) _ (close_channel-Sound ipc)) clear-Sound))))

  on_open-Sound : (n : ChannelName) → Sound (on_open print parse app_id n)
  unfolding on_open register_self
  on_open-Sound ipc = seq-Sound (flush-Sound ipc) (ipc_send-Sound _)
  on_open-Sound receivers = on_open_buses-Sound

  on_close-Sound : (n : ChannelName) → Sound (on_close print parse app_id n)
  unfolding on_close
  on_close-Sound ipc = seq-Sound (mark_closed-Sound ipc) clear-Sound
  on_close-Sound receivers = on_close_buses-Sound

  on_message-Sound :
      (n : ChannelName) (text : String) → Sound (on_message print parse app_id n text)
  unfolding on_message
  on_message-Sound ipc text =
      load-Sound ipc _ (λ w c e h. (on_ipc_message-Sound print parse app_id text).holds w h)
  on_message-Sound receivers text =
      load-Sound receivers _ (λ w c e h. (on_channel_message-Sound print parse text).holds w h)

  step-Sound : (e : Event print parse app_id) → Sound (step print parse app_id e)
  unfolding step
  step-Sound (opens n) = on_open-Sound n
  step-Sound (fails_or_closes n) = on_close-Sound n
  step-Sound (receives n text) = on_message-Sound n text
  step-Sound runs_task = run_task-Sound
  step-Sound (sets_data t) = set_additional_data-Sound t
  step-Sound calls_open = open_manager-Sound
  step-Sound calls_close = close_manager-Sound
  step-Sound (creates_bus ns) =
      bind-Keeps IsSound _ _ (create_message_bus-Sound ns) (λ b. skip-Sound)
  step-Sound (sets_listener ns l) = set_listener-Sound ns l
  step-Sound (sends_on_bus ns m sender) = bus_send-Sound print parse ns m sender

  unfoldable pub run : List (Event print parse app_id) → Do
  unfolding step
  run [] = skip
  run (e ∷ es) = do step print parse app_id e; run es

  run-Sound : (es : List (Event print parse app_id)) → Sound (run es)
  unfolding run
  run-Sound [] = skip-Sound
  run-Sound (e ∷ es) = seq-Sound (step-Sound e) (run-Sound es)

  -- What a manager, with what belongs to it, does from its creation on, as long as nothing crashes: it has
  -- a bus manager if and only if it has the channel of the ipc; the bus manager has its channel, in its own
  -- eyes, if and only if this was not deleted; no two of its buses have the same namespace, and each bus
  -- has a channel if and only if the bus manager has one.
  pub run-IsSound :
      (es : List (Event print parse app_id)) (x : Sdk) → run es new_sdk ≡ ok tt x → IsSound x
  run-IsSound es x e = subst (Holds IsSound) e ((run-Sound es).holds new_sdk new_sdk-IsSound)

  -- Whatever a manager did since its creation: a message of a sender, whose JSON is read as it was written,
  -- tells the listener of the bus with its namespace, if the bus manager is there and has such a bus with
  -- a listener, the payload and the sender, and no one else anything.
  pub run_told :
      (es : List (Event print parse app_id)) (x : Sdk) (d : Channel) (b : BusManager)
      (ns m sender : String)
      → run es new_sdk ≡ ok tt x
      → x.receiver_channel ≡ some d
      → x.bus_manager ≡ some b
      → parse (print (payload print parse app_id ns m)) ≡ payload print parse app_id ns m
      → parse
          (print (from_sender print parse app_id sender (print (payload print parse app_id ns m))))
        ≡ from_sender print parse app_id sender (print (payload print parse app_id ns m))
      → step print parse app_id
          (receives receivers (
            print
              (from_sender print parse app_id sender (print (payload print parse app_id ns m)))))
          x
        ≡ ok tt (record x { told = told_by (find ns b.buses) (message ns m sender) ++ x.told })
  run_told es x d b ns m sender e r k i j =
      message_told print parse app_id x d b ns m sender r k (known_of x b k (run-IsSound es x e)).1
        i j
