-- ===== src/App/Manager.antt =====
-- Application.cpp and ApplicationManager.cpp of flint/src/flint/application. The two classes call
-- each other through signals, in a cycle that only `onAppStopped` closes: it launches the next
-- pending application. That call is the parameter `relaunch` of the first section; `launch` below
-- ties the knot on fuel. `launches` is the result of Platform::launchApplication.
use flingd_cc.Base.{
  ℕ, zero, suc, String, Bool, true, Option, none, some, List, [], ◌∷◌, ◌++◌, str_eq, is_some,
  if◌then◌else◌,
}
use flingd_cc.Base.Int.{is_positive, to_millis}
use flingd_cc.App.Object.{seconds}
use flingd_cc.App.Store.{
  Ptr, Cmd, ok, out_of_fuel, skip, ◌>>=◌, ◌>>◌, get, load, store, free, set_top, set_starting,
  set_stopping, set_pending, call, launch_call, stop_call,
}

unfoldable pub set_app_state : Ptr → String → Cmd (Unit {0})
unfolding load store
set_app_state p s = do a ← load p; store p (record a { app_state = s })

-- Application::onStarted
unfoldable pub on_started : Ptr → Cmd (Unit {0})
unfolding set_app_state
on_started p = set_app_state p "running"

-- Application::onStoped, which ends in `delete this`
unfoldable pub on_stoped : Ptr → Cmd (Unit {0})
unfolding set_app_state free
on_stoped p = do set_app_state p "stopped"; free p

-- what an application raises reaches the manager once its slots are connected
abbrev pub emit : Ptr → Cmd (Unit {0}) → Cmd (Unit {0})
emit p slot = do a ← load p; if a.connected then slot else skip

-- penddingApplications_.push_back
unfoldable pub enqueue : Ptr → Cmd (Unit {0})
enqueue p w = ok tt (record w { pending = w.pending ++ p ∷ [] })

module _ (relaunch : Ptr → Cmd (Unit {0})) where
  -- the tail of onAppStopped
  unfoldable pub launch_next : List Ptr → Cmd (Unit {0})
  launch_next [] = skip
  launch_next (q ∷ rest) = do set_pending rest; relaunch q

  -- ApplicationManager::onAppStopped
  unfoldable pub on_app_stopped : Ptr → Cmd (Unit {0})
  unfolding on_stoped launch_next
  on_app_stopped p = do on_stoped p; set_stopping none; w ← get; launch_next w.pending

  -- Application::stopped
  unfoldable pub stopped : Ptr → Cmd (Unit {0})
  unfolding load store on_app_stopped
  stopped p = do a ← load p; store p (record a { stop_timer = none }); emit p (on_app_stopped p)

  -- Application::onStopping
  unfoldable pub on_stopping : Ptr → Cmd (Unit {0})
  unfolding set_app_state load store stopped
  on_stopping p = do
    set_app_state p "stopping"
    a ← load p
    if a.use_ipc
        then (if a.ws_connected
            then store p (record a { stop_timer = some (seconds a.stop_timeout) })
            else stopped p)
        else stopped p

  -- ApplicationManager::_doStopApplication
  unfoldable pub do_stop_application : Ptr → Cmd (Unit {0})
  unfolding load on_stopping
  do_stop_application p = do
    a ← load p
    set_stopping (some p)
    call (stop_call a.app_info_raw)
    on_stopping p

  unfoldable pub stop_starting : Option Ptr → Cmd (Unit {0})
  unfolding do_stop_application
  stop_starting none = skip
  stop_starting (some p) = do do_stop_application p; set_starting none

  unfoldable pub stop_top : Option Ptr → Cmd (Unit {0})
  unfolding do_stop_application stop_starting
  stop_top none w = stop_starting w.starting w
  stop_top (some p) w = (do do_stop_application p; set_top none) w

  -- ApplicationManager::stopApplication; stopApplicationByAppId ignores its argument
  unfoldable pub stop_application : Cmd (Unit {0})
  unfolding stop_top
  stop_application = do w ← get; if is_some w.stopping then skip else stop_top w.top

  -- ApplicationManager::onAppStarted
  unfoldable pub on_app_started : Ptr → Cmd (Unit {0})
  unfolding on_started stop_application
  on_app_started p = do
    on_started p
    set_top (some p)
    set_starting none
    w ← get
    elim w.pending [ [] ↦ skip | q ∷ rest ↦ stop_application ]

  -- Application::started
  unfoldable pub started : Ptr → Cmd (Unit {0})
  unfolding load store on_app_started
  started p = do
    a ← load p
    store p
        (record a { start_timer = none; ws_connected = if a.use_ipc then true else a.ws_connected })
    emit p (on_app_started p)

  -- Application::onStarting
  unfoldable pub on_starting : Ptr → Cmd (Unit {0})
  unfolding set_app_state load store started
  on_starting p = do
    set_app_state p "starting"
    a ← load p
    if a.use_ipc then store p (record a { start_timer = some (seconds a.start_timeout) }) else (do
      started p
      b ← load p
      if is_positive b.max_inactive
          then store p (record b { max_inactive_timer = some (to_millis b.max_inactive) })
          else skip)

module _ (launches : String → Bool) (relaunch : Ptr → Cmd (Unit {0})) where
  -- ApplicationManager::_doLaunchApplication
  unfoldable pub do_launch_application : Ptr → Cmd (Unit {0})
  unfolding load store on_starting stopped
  do_launch_application p = do
    a ← load p
    set_starting (some p)
    store p (record a { connected = true })
    call (launch_call a.app_info_raw)
    if launches a.app_info_raw then on_starting relaunch p else stopped relaunch p

  unfoldable pub launch_beside_stopping : Option Ptr → Ptr → Cmd (Unit {0})
  unfolding load do_launch_application enqueue
  launch_beside_stopping none p = do_launch_application p
  launch_beside_stopping (some s) p = do load s; enqueue p

  unfoldable pub launch_beside_top : Option Ptr → Ptr → Cmd (Unit {0})
  unfolding load launch_beside_stopping enqueue stop_application
  launch_beside_top none p w = launch_beside_stopping w.stopping p w
  launch_beside_top (some t) p w =
      (do
        b ← load t
        a ← load p
        if str_eq b.app_id a.app_id then skip else (do enqueue p; stop_application relaunch))
        w

  unfoldable pub launch_beside_starting : Option Ptr → Ptr → Cmd (Unit {0})
  unfolding load launch_beside_top enqueue
  launch_beside_starting none p w = launch_beside_top w.top p w
  launch_beside_starting (some s) p w =
      (do b ← load s; a ← load p; if str_eq b.app_id a.app_id then skip else enqueue p) w

  -- the body of ApplicationManager::launchApplication for a non-null pointer
  unfoldable pub launch_body : Ptr → Cmd (Unit {0})
  unfolding set_app_state launch_beside_starting
  launch_body p = do set_app_state p "starting"; w ← get; launch_beside_starting w.starting p

module _ (launches : String → Bool) where
  -- ApplicationManager::launchApplication, with at most `n` calls inside one another
  unfoldable pub launch : ℕ → Ptr → Cmd (Unit {0})
  unfolding launch_body
  launch zero p w = out_of_fuel
  launch (suc n) p w = launch_body launches (launch n) p w

  -- ApplicationManager::launchApplication; a null pointer is refused
  unfoldable pub launch_application : ℕ → Option Ptr → Cmd (Unit {0})
  unfolding launch
  launch_application n none = skip
  launch_application n (some p) = launch n p
