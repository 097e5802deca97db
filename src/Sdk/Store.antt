-- ===== src/Sdk/Store.antt =====
-- The state of a FlintReceiverManager of sdk/receiver/src, with its two channels. A channel posts its
-- work to the io_service that both share: a posted task keeps the channel's pointer, also when the
-- channel is deleted.
use flingd_cc.Base.{String, Bool, false, List, [], ◌++◌, Option, none, some}
use flingd_cc.Base.Machine.{Cmd, ok, fault}

pub data ChannelName : Type 0 where
  ipc receivers : ChannelName

pub data Task : Type 0 where
  sending : String → Task
  closing : Task

-- MessageChannel: `wire` is what was given to the websocket, oldest first, as are `pending` and the tasks.
pub record Channel : Type 0 where
  pub opened : Bool
  pub url : String
  pub pending : List String
  pub connecting : Bool
  pub wire : List String
  pub is_closing : Bool

-- ReceiverMessageBus: whether it has a listener, and whether it was made with a channel
pub record Bus : Type 0 where
  pub listened : Bool
  pub linked : Bool

-- MessageBusManager: `linked` is whether its pointer to the channel is not NULL.
pub record BusManager : Type 0 where
  pub opened : Bool
  pub linked : Bool
  pub buses : List (String × Bus)

-- what the listener of the bus with a namespace is told
pub data Notice : Type 0 where
  message : (ns payload sender : String) → Notice
  connected disconnected : (ns sender : String) → Notice

-- The channel of the ipc is deleted when its pointer is set to NULL. The other channel belongs to the
-- bus manager, which may be deleted before it. `told` is newest first.
pub record Sdk : Type 0 where
  pub opened : Bool
  pub ipc_channel : Option Channel
  pub bus_manager : Option BusManager
  pub receiver_channel : Option Channel
  pub service_url : String
  pub custom_data : String
  pub tasks : List (ChannelName × Task)
  pub told : List Notice

abbrev pub Do : Type 0
Do = Cmd Sdk (Unit {0})

abbrev pub new_channel : Channel
new_channel = record {
  opened = false;
  url = "";
  pending = [];
  connecting = false;
  wire = [];
  is_closing = false;
}

abbrev pub channel_of : ChannelName → Sdk → Option Channel
channel_of ipc w = w.ipc_channel
channel_of receivers w = w.receiver_channel

abbrev pub set_channel : ChannelName → Option Channel → Do
set_channel ipc o w = ok tt (record w { ipc_channel = o })
set_channel receivers o w = ok tt (record w { receiver_channel = o })

abbrev pub value_or_fault : {A : Type 0} → Option A → Cmd Sdk A
value_or_fault none w = fault
value_or_fault (some a) w = ok a w

unfoldable pub load : ChannelName → Cmd Sdk Channel
load n w = value_or_fault (channel_of n w) w

unfoldable pub load_manager : Cmd Sdk BusManager
load_manager w = value_or_fault w.bus_manager w

abbrev pub set_manager : Option BusManager → Do
set_manager o w = ok tt (record w { bus_manager = o })

abbrev pub tell : List Notice → Do
tell ns w = ok tt (record w { told = ns ++ w.told })

-- io_service::post
unfoldable pub post : List (ChannelName × Task) → Do
post ts w = ok tt (record w { tasks = w.tasks ++ ts })
