-- ===== src/App/Refine/Stop.antt =====
-- What the functions that stop an application do.
use flingd_cc.Base.{◌≡◌, true, false, none, some, ◌∷◌, arith, Bool-cases, inl, inr}
use flingd_cc.App.Object.{Application}
use flingd_cc.App.Store.{Ptr, World, Cmd, ok, write, stop_call}
use flingd_cc.App.Manager.{launch_next, stopped, do_stop_application}
use flingd_cc.App.Phase.{stops_at_once, awaiting_stop}
use flingd_cc.App.Refine.Writes.{writes}

module _ (relaunch : Ptr → Cmd (Unit {0})) (p : Ptr) (a : Application) (w : World) where
  -- The object is deleted, and the first pending application launched.
  pub stopped_lem :
      w.apps p ≡ some a
      → a.connected ≡ true
      → stopped relaunch p w
        ≡ launch_next relaunch w.pending (record w { apps = write w.apps p none; stopping = none })
  unfolding stopped
  stopped_lem e c = simp (e, c, writes)

  -- So it is from `do_stop_application`, for an application that stops at once.
  pub do_stop-at_once :
      w.apps p ≡ some a
      → a.connected ≡ true
      → stops_at_once a ≡ true
      → do_stop_application relaunch p w
        ≡ launch_next relaunch w.pending (record w {
          apps = write w.apps p none;
          stopping = none;
          calls = stop_call a.app_info_raw ∷ w.calls;
        })
  unfolding do_stop_application
  do_stop-at_once e c s = elim (Bool-cases a.use_ipc) [
    | inl i ↦ elim (Bool-cases a.ws_connected) [
      | inl x ↦ absurd (ground arith)
      | inr x ↦ simp (e, c, i, x, writes)
    ]
    | inr i ↦ simp (e, c, i, writes)
  ]

  -- Any other waits for its receiver to stop.
  pub do_stop-later :
      w.apps p ≡ some a
      → stops_at_once a ≡ false
      → do_stop_application relaunch p w
        ≡ ok tt (record w {
          apps = write w.apps p (some (awaiting_stop a));
          stopping = some p;
          calls = stop_call a.app_info_raw ∷ w.calls;
        })
  unfolding do_stop_application
  do_stop-later e s = elim (Bool-cases a.use_ipc) [
    | inl i ↦ elim (Bool-cases a.ws_connected) [
      | inl x ↦ simp (e, i, x, writes)
      | inr x ↦ absurd (ground arith)
    ]
    | inr i ↦ absurd (ground arith)
  ]
