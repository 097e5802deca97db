-- ===== src/Sdk/Tests.antt =====
-- The receiver SDK at concrete states. A text stands for a value of JSON by one of its members.
use flingd_cc.Base.{
  ℕ, ◌+◌, String, Bool, true, false, List, [], ◌∷◌, Option, none, some, str_eq, ◌≡◌, refl,
  if◌then◌else◌,
}
use flingd_cc.Base.Int.{negsuc}
use flingd_cc.Base.Machine
use flingd_cc.Base.Machine.{Run}
use flingd_cc.StdMap.{find}
use flingd_cc.Media.Json.{Json, null, texts, object, find_member}
use flingd_cc.App.Object.{Application, new_application}
use flingd_cc.App.Store.{World, ok, empty_world, write}
use flingd_cc.App.Events.{get_alive_application}
use flingd_cc.Receiver.Handler.{Link, register_ok, heartbeat, on_message}
use flingd_cc.Receiver.Texts.{fields_of, text_of}
use flingd_cc.Sessions.Manager.{touch_receiver}
use flingd_cc.Sdk.Store.{
  ipc, receivers, sending, Channel, new_channel, BusManager, Bus, Sdk, message,
}
use flingd_cc.Sdk.Manager.{
  new_sdk, Event, step, opens, fails_or_closes, receives, runs_task, calls_close, creates_bus,
  sets_listener,
}
use flingd_cc.Sdk.Delivery
use flingd_cc.Sdk.Delivery.{
  LineEvent, sends, runs, run_line, IsLine, total, count, sent_by, line-IsKept,
}
use flingd_cc.Sdk.Order.{runs_for, open_order}
use flingd_cc.Sdk.Faults.{close_crashes, lost_daemon_crashes}
use flingd_cc.Sdk.Told.{payload, from_sender}
use flingd_cc.Sdk.Sound.{IsSound}
use flingd_cc.Sdk.Runs.{run, run-IsSound, run_told}
use flingd_cc.Sdk.Daemon.{exchange, sent, pong, address, pong_ignored, address_told}

abbrev text_in : String → Option (Json ℕ) → String
text_in default (some (texts t)) = t
text_in default v = default

-- the member with a name, or a default
abbrev label : (name default : String) → Json ℕ → String
label name default (object ms) = text_in default (find_member name ms)
label name default v = default

-- one of two values
abbrev lookup : (s t : String) (v w : Json ℕ) → String → Json ℕ
lookup s t v w x = if str_eq x s then v else if str_eq x t then w else null

abbrev line : List LineEvent
line = sends "a" ∷ runs ∷ Delivery.opens ∷ sends "b" ∷ runs ∷ []

abbrev dialled : Channel
dialled = record new_channel { url = "u"; connecting = true }

abbrev connecting_sdk : Sdk
connecting_sdk = record new_sdk { ipc_channel = some dialled }

line-IsKept_example :
    (x : Sdk) × (d : Channel) × (run_line line connecting_sdk ≡ Machine.ok tt x)
    × IsLine x d
    × (d.connecting ≡ true)
    × ((m : String) → total m x d ≡ count m (sent_by line) + total m connecting_sdk dialled)
unfolding new_sdk
line-IsKept_example =
    line-IsKept line connecting_sdk dialled (record { here = refl; ready = tt; full = tt }) refl

abbrev waiting : Channel
waiting = record new_channel { pending = "a" ∷ [] }

abbrev busy : Sdk
busy = record new_sdk { ipc_channel = some waiting; tasks = (ipc, sending "b") ∷ [] }

open_order_example :
    run_line (Delivery.opens ∷ runs_for ("b" ∷ "a" ∷ [])) busy
    ≡ Machine.ok tt (record busy {
      tasks = [];
      ipc_channel = some (record waiting { opened = true; pending = []; wire = "b" ∷ "a" ∷ [] });
    })
open_order_example =
    open_order busy waiting (record { here = refl; ready = (refl, tt); full = (refl, tt) })

abbrev parse_none : String → Json ℕ
parse_none t = null

abbrev connected_sdk : Sdk
connected_sdk = record new_sdk {
  opened = true;
  ipc_channel = some (record dialled { opened = true });
  receiver_channel = some dialled;
}

abbrev manager : BusManager
manager = record { opened = false; linked = true; buses = [] }

close_crashes_example :
    (x : Sdk) × (step (label "type" "") parse_none "~a" calls_close connected_sdk ≡ Machine.ok tt x)
    × (step (label "type" "") parse_none "~a" runs_task x ≡ Machine.fault)
unfolding new_sdk
close_crashes_example =
    close_crashes (label "type" "") parse_none "~a" connected_sdk (record dialled { opened = true })
      dialled manager refl refl refl refl refl refl refl

lost_daemon_crashes_example :
    (x : Sdk) × (step (label "type" "") parse_none "~a" (fails_or_closes ipc) new_sdk
      ≡ Machine.ok tt x)
    × (x.receiver_channel ≡ some new_channel)
    × (step (label "type" "") parse_none "~a" (opens receivers) x ≡ Machine.fault)
    × (step (label "type" "") parse_none "~a" (fails_or_closes receivers) x ≡ Machine.fault)
unfolding new_sdk
lost_daemon_crashes_example =
    lost_daemon_crashes (label "type" "") parse_none "~a" new_sdk new_channel new_channel refl refl

abbrev bus : Bus
bus = record { listened = true; linked = true }

abbrev told_manager : BusManager
told_manager = record manager { buses = ("urn:x", bus) ∷ [] }

abbrev with_bus : Sdk
with_bus = record new_sdk { bus_manager = some told_manager }

abbrev print_message : Json ℕ → String
print_message = label "type" "payload"

abbrev parse_message : String → Json ℕ
parse_message =
    lookup "message" "payload" (from_sender print_message parse_none "~a" "s1" "payload")
      (payload print_message parse_none "~a" "urn:x" "hello")

abbrev listening : List (Event print_message parse_message "~a")
listening = creates_bus "urn:x" ∷ sets_listener "urn:x" true ∷ []

run-IsSound_example : IsSound with_bus
unfolding new_sdk run
run-IsSound_example = run-IsSound print_message parse_message "~a" listening with_bus refl

run_told_example :
    step print_message parse_message "~a" (receives receivers "message") with_bus
    ≡ Machine.ok tt (record with_bus { told = message "urn:x" "hello" "s1" ∷ [] })
unfolding new_sdk run find
run_told_example =
    run_told print_message parse_message "~a" listening with_bus new_channel told_manager "urn:x"
      "hello" "s1" refl refl refl refl refl

abbrev accepts : String → Bool
accepts s = true

abbrev player : Application
player = new_application "~a" "http://a" true (negsuc 0) "~a"

abbrev playing : World
playing = record empty_world {
  apps = write empty_world.apps 0 (some player);
  next = 1;
  top = some 0;
}

abbrev link : Link
link = record {
  sessions = record { senders = []; receiver = none; listener = none };
  ping_armed = true;
  ip_armed = true;
  cached_ip = "10.0.0.2";
  sent = [];
}

abbrev open_channel : Channel
open_channel = record dialled { opened = true }

abbrev linked : Sdk
linked = record new_sdk { ipc_channel = some open_channel }

abbrev print_beat : Json ℕ → String
print_beat = label "heartbeat" "?"

abbrev parse_beat : String → Json ℕ
parse_beat =
    lookup "ping" "pong" (text_of "~a" "u" "d" (heartbeat "ping"))
      (pong print_beat parse_none "~a" "u" "d")

-- the bytes that are read of an object
abbrev bytes : Json ℕ → String
bytes v = "?"

pong_ignored_example :
    (exchange print_beat parse_beat "~a" "u" "d" "ping" linked
      ≡ Machine.ok tt (sent print_beat parse_beat "~a" "u" "d" linked open_channel "pong"))
    × (on_message str_eq "~a" accepts 2 0 "t" "10.0.0.2"
          (fields_of bytes (parse_beat "pong"))
          link
          playing
        ≡ ok link playing)
unfolding new_sdk text_of get_alive_application write find_member touch_receiver
pong_ignored_example =
    pong_ignored print_beat parse_beat "~a" "u" "d" str_eq accepts 2 0 "t" "10.0.0.2" playing link 0
      player refl refl refl linked open_channel bytes refl refl refl refl refl refl refl refl refl
      refl refl refl

abbrev print_type : Json ℕ → String
print_type = label "type" "?"

abbrev parse_type : String → Json ℕ
parse_type =
    lookup "registerok" "additionaldata" (text_of "~a" "u" "d" (register_ok "10.0.0.9"))
      (address print_type parse_none "~a" "u" "d" "10.0.0.9")

address_told_example :
    (m : String) × (x : Link) × (exchange print_type parse_type "~a" "u" "d" "registerok" linked
      ≡ Machine.ok tt (
          sent print_type parse_type "~a" "u" "d"
            (record linked { service_url = "10.0.0.9" })
            open_channel
            m))
    × (on_message str_eq "~a" accepts 2 0 "t" "10.0.0.2"
          (fields_of bytes (parse_type m))
          link
          playing
        ≡ ok x (record playing {
          apps = write playing.apps 0 (
              some (record player {
                additional_data =
                    "<channelBaseUrl>ws://10.0.0.9:9439/channels/channelBaseUrl</channelBaseUrl>";
              }));
        }))
unfolding new_sdk text_of get_alive_application write find_member
address_told_example =
    address_told print_type parse_type "~a" "u" "d" str_eq accepts 2 0 "t" "10.0.0.2" playing link 0
      player refl refl refl linked open_channel manager "10.0.0.9" bytes refl refl refl refl refl
      refl refl refl refl refl refl refl
