-- ===== src/Sdk/Channel.antt =====
-- sdk/receiver/src/message/MessageChannel.cpp, but for the signals, which are calls of the managers. The
-- connection itself is websocketpp's.
use flingd_cc.Base.{String, true, false, List, [], ◌∷◌, ◌++◌, str_eq, if◌then◌else◌}
use flingd_cc.Base.Machine.{skip, crash, ◌>>=◌, ◌>>◌}
use flingd_cc.Media.Json.{Json, texts, object, end, member}
use flingd_cc.Sdk.Store.{ChannelName, Task, sending, closing, Channel, Do, load, set_channel, post}
use flingd_cc.Base.{some}

-- open, for a url that may be empty
unfoldable pub connect_to : String → Channel → Channel
connect_to url c =
    let d = (if str_eq url "" then c else record c { url = url }) in
    if str_eq d.url "" then d else record d { connecting = true }

-- sendImpl
unfoldable pub send_now : String → Channel → Channel
send_now m c =
    if c.opened
    then record c { wire = c.wire ++ m ∷ [] }
    else record c { pending = c.pending ++ m ∷ [] }

-- send: the task that is posted, if any
unfoldable pub tasks_for : ChannelName → String → List (ChannelName × Task)
tasks_for n m = if str_eq m "" then [] else (n, sending m) ∷ []

-- what onOpen sends again
unfoldable pub flushed : ChannelName → List String → List (ChannelName × Task)
unfolding tasks_for
flushed n [] = []
flushed n (m ∷ ms) = tasks_for n m ++ flushed n ms

-- MessageChannel::open
unfoldable pub open_channel : ChannelName → String → Do
unfolding load connect_to
open_channel n url = do c ← load n; set_channel n (some (connect_to url c))

-- The io_service is there once the channel was opened with a url: before that the tasks are posted
-- through a NULL pointer.
unfoldable pub post_on : Channel → List (ChannelName × Task) → Do
unfolding post
post_on c [] = skip
post_on c (e ∷ ts) = if c.connecting then post (e ∷ ts) else crash

unfoldable pub close_channel : ChannelName → Do
unfolding load post_on
close_channel n = do c ← load n; post_on c ((n, closing) ∷ [])

unfoldable pub send : ChannelName → String → Do
unfolding load post_on tasks_for
send n m = do c ← load n; post_on c (tasks_for n m)

-- a posted task: sendImpl or closeImpl
unfoldable pub perform : ChannelName → Task → Do
unfolding load send_now
perform n (sending m) = do c ← load n; set_channel n (some (send_now m c))
perform n closing = do c ← load n; set_channel n (some (record c { is_closing = true }))

unfoldable pub run_first : List (ChannelName × Task) → Do
unfolding perform
run_first [] w = skip w
run_first ((n, t) ∷ ts) w = perform n t (record w { tasks = ts })

unfoldable pub run_task : Do
unfolding run_first
run_task w = run_first w.tasks w

-- onOpen, before its signal
unfoldable pub flush : ChannelName → Do
unfolding load flushed post
flush n = do
  c ← load n
  post (flushed n c.pending)
  set_channel n (some (record c { pending = []; opened = true }))

-- onClose and onFail, before their signals
unfoldable pub mark_closed : ChannelName → Do
unfolding load
mark_closed n = do c ← load n; set_channel n (some (record c { opened = false }))

module _ {D : Type 0} (print : Json D → String) where
  -- send with the identifier of a sender
  unfoldable pub send_to : ChannelName → String → String → Do
  unfolding send
  send_to n m sender =
      if str_eq m ""
      then skip
      else send n (print (object (member "senderId" (texts sender) (member "data" (texts m) end))))
