-- ===== src/Sdk/Faults.antt =====
-- The ends of a connection, in sdk/receiver/src/FlintReceiverManager.cpp and MessageBusManager.cpp.
use mathlib.Core.List.{append-nil}
use flingd_cc.Base.{String, true, false, List, [], ◌∷◌, ◌++◌, none, some, ◌≡◌, refl, ap, sym}
use flingd_cc.Base.Machine.{ok, fault}
use flingd_cc.Media.Json.{Json, end}
use flingd_cc.Sdk.Store.{
  ChannelName, ipc, receivers, Task, sending, closing, Channel, BusManager, Sdk,
}
use flingd_cc.Sdk.Channel.{tasks_for, post_on, perform}
use flingd_cc.Sdk.Manager.{step, opens, fails_or_closes, runs_task, calls_close, typed_object}

module _ {D : Type 0} (print : Json D → String) (parse : String → Json D) (app_id : String) where
  perform_gone :
      (n : ChannelName) (t : Task) (w : Sdk)
      → w.ipc_channel ≡ none
      → w.receiver_channel ≡ none
      → perform n t w ≡ fault
  unfolding perform
  perform_gone ipc (sending m) w i r = simp (i)
  perform_gone ipc closing w i r = simp (i)
  perform_gone receivers (sending m) w i r = simp (r)
  perform_gone receivers closing w i r = simp (r)

  -- Without its channels, the next task of a manager is on a channel that was deleted.
  gone :
      (w : Sdk) (ts : List (ChannelName × Task)) (e : ChannelName × Task)
      → w.ipc_channel ≡ none
      → w.receiver_channel ≡ none
      → step print parse app_id runs_task (record w { tasks = ts ++ e ∷ [] }) ≡ fault
  unfolding step
  gone w [] (n, t) i r = perform_gone n t (record w { tasks = [] }) i r
  gone w ((n, t) ∷ ts) e i r = perform_gone n t (record w { tasks = ts ++ e ∷ [] }) i r

  posted :
      (c : Channel) (ts : List (ChannelName × Task)) (w : Sdk)
      → c.connecting ≡ true
      → post_on c ts w ≡ ok tt (record w { tasks = w.tasks ++ ts })
  unfolding post_on
  posted c [] w e = ap (λ l. ok tt (record w { tasks = l })) (sym (append-nil w.tasks))
  posted c (t ∷ ts) w e = simp (e)

  abbrev ended : Sdk → Sdk
  ended w = record w {
    opened = false;
    ipc_channel = none;
    bus_manager = none;
    receiver_channel = none;
  }

  -- When an open manager, with a bus manager and both channels, which were opened with a url, is closed,
  -- then the next task that is run, whatever it is, is on a channel that was deleted.
  pub close_crashes :
      (w : Sdk) (c d : Channel) (b : BusManager)
      → w.opened ≡ true
      → w.ipc_channel ≡ some c
      → w.receiver_channel ≡ some d
      → w.bus_manager ≡ some b
      → b.linked ≡ true
      → c.connecting ≡ true
      → d.connecting ≡ true
      → (x : Sdk) × (step print parse app_id calls_close w ≡ ok tt x)
        × (step print parse app_id runs_task x ≡ fault)
  unfolding step
  close_crashes w c d b o i r m l u v =
      let ts = tasks_for ipc (print (typed_object print parse app_id "unregister" end)) in
      (
        record (ended w) {
          tasks = (w.tasks ++ ts) ++ (receivers, closing) ∷ [] ++ (ipc, closing) ∷ [];
        },
        simp (o, i, r, m, l, posted c ts w u, u, v),
        gone (ended w) ((w.tasks ++ ts) ++ (receivers, closing) ∷ []) (ipc, closing) refl refl,
      )

  -- When the connection with the daemon ends, by a failure or not, the bus manager is deleted and its
  -- channel is not: when the channel opens or ends after that, an object that was deleted is used.
  pub lost_daemon_crashes :
      (w : Sdk) (c d : Channel)
      → w.ipc_channel ≡ some c
      → w.receiver_channel ≡ some d
      → (x : Sdk) × (step print parse app_id (fails_or_closes ipc) w ≡ ok tt x)
        × (x.receiver_channel ≡ some d)
        × (step print parse app_id (opens receivers) x ≡ fault)
        × (step print parse app_id (fails_or_closes receivers) x ≡ fault)
  unfolding step
  lost_daemon_crashes w c d i r = (
    record w { opened = false; ipc_channel = none; bus_manager = none },
    simp (i),
    r,
    simp (r),
    simp (r),
  )
