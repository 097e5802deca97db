-- ===== src/Sdk/Order.antt =====
-- The order in which a channel of sdk/receiver/src/message/MessageChannel.cpp sends when it opens.
use mathlib.Core.List.{append_assoc, append-nil}
use flingd_cc.Base.{String, true, List, [], ◌∷◌, ◌++◌, some, ◌≡◌, ap, sym, ◌∙◌, All, All-append}
use flingd_cc.Base.Machine.{ok}
use flingd_cc.Sdk.Store.{ChannelName, ipc, receivers, Task, sending, closing, Channel, Sdk}
use flingd_cc.Sdk.Channel.{flushed, send_now}
use flingd_cc.Sdk.Delivery.{
  LineEvent, runs, opens, run_line, queued, queued-append, flushed_lem, flushed-IsSending,
  IsSending, IsLine,
}

-- the run of a task for each message
abbrev pub runs_for : List String → List LineEvent
runs_for [] = []
runs_for (m ∷ ms) = runs ∷ runs_for ms

abbrev on_line : Sdk → Channel → List (ChannelName × Task) → Sdk
on_line w c ts = record w { tasks = ts; ipc_channel = some c }

-- the open channel with a wire
abbrev open_line : Channel → List String → Channel
open_line c l = record c { opened = true; wire = l }

drain_lem :
    (ts : List (ChannelName × Task)) (w : Sdk) (c : Channel) (l : List String)
    → All IsSending ts
    → run_line (runs_for (queued ts)) (on_line w (open_line c l) ts)
      ≡ ok tt (on_line w (open_line c (l ++ queued ts)) [])
unfolding run_line send_now
drain_lem [] w c l a = ap (λ k. ok tt (on_line w (open_line c k) [])) (sym (append-nil l))
drain_lem ((ipc, sending t) ∷ ts) w c l a =
    drain_lem ts w c (l ++ t ∷ []) a.1
    ∙ ap (λ k. ok tt (on_line w (open_line c k) [])) (append_assoc l (t ∷ []) (queued ts))
drain_lem ((ipc, closing) ∷ ts) w c l a = absurd a.0
drain_lem ((receivers, t) ∷ ts) w c l a = absurd a.0

-- When a channel opens whose messages, in tasks and pending, are not empty, and while the io_service has
-- no other tasks: a task is run for each of the messages, and then all of them are on the wire, those
-- that waited in tasks before those that were pending.
pub open_order :
    (w : Sdk) (c : Channel)
    → IsLine w c
    → run_line (opens ∷ runs_for (queued w.tasks ++ c.pending)) w
      ≡ ok tt (record w {
        tasks = [];
        ipc_channel = some (record c {
          opened = true;
          pending = [];
          wire = c.wire ++ (queued w.tasks ++ c.pending);
        });
      })
unfolding run_line
open_order w c h =
    let all =
      drain_lem (w.tasks ++ flushed ipc c.pending) w (record c { pending = [] }) c.wire
        (All-append IsSending w.tasks (flushed ipc c.pending) h.ready
          (flushed-IsSending c.pending h.full)) in
    let same =
      queued-append w.tasks (flushed ipc c.pending)
      ∙ ap (λ l. queued w.tasks ++ l) (flushed_lem c.pending h.full) in
    simp (h.here) (rw same at all)
