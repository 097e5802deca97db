-- ===== src/App/Events.antt =====
-- What reaches the manager and its applications from outside: the requests of the HTTP handlers,
-- what ReceiverApplicationHandler does to the applications, and the handlers that the io_service
-- runs for expired timers, one at a time.
use flingd_cc.Base.{
  ℕ, String, Bool, Option, none, some, List, [], ◌∷◌, is_some, str_eq, if◌then◌else◌,
}
use flingd_cc.Base.Int.{ℤ}
use flingd_cc.App.Object.{new_application}
use flingd_cc.App.Store.{Ptr, World, Cmd, skip, ◌>>=◌, ◌>>◌, get, load, store, allocate}
use flingd_cc.App.Manager.{emit, stopped, started, stop_application, launch}

pub data Event : Type 0 where
  -- doLaunch creates an application and has it launched
  request : (id url : String) (ipc : Bool) (inactive : ℤ) (info : String) → Event
  stop : Event
  -- a receiver registers, and its session is created
  registers : String → Event
  -- the connection of a receiver is closed
  closes : String → Event
  -- a timer of the application that the manager starts, runs or stops has expired
  start_expires stop_expires inactive_expires : Event

unfoldable pub first_some : Option Ptr → Option Ptr → Option Ptr
first_some (some p) o = some p
first_some none o = o

unfoldable pub front : List Ptr → Option Ptr
front [] = none
front (p ∷ ps) = some p

-- ApplicationManager::getAliveApplication
unfoldable pub get_alive_application : World → Option Ptr
unfolding first_some front
get_alive_application w = first_some w.top (first_some w.starting (front w.pending))

unfoldable pub current : World → Option Ptr
unfolding first_some
current w = first_some w.top (first_some w.starting w.stopping)

-- Timers end with their object.
unfoldable pub keep_live : World → Option Ptr → Option Ptr
keep_live w none = none
keep_live w (some p) = if is_some (w.apps p) then some p else none

unfoldable pub current_live : World → Option Ptr
unfolding current keep_live
current_live w = keep_live w (current w)

unfoldable pub at : Option Ptr → (Ptr → Cmd (Unit {0})) → Cmd (Unit {0})
at none f = skip
at (some p) f = f p

module _ (launches : String → Bool) (n : ℕ) where
  -- ApplicationManager::onDoAppStop
  unfoldable pub on_do_app_stop : Ptr → Cmd (Unit {0})
  unfolding load stop_application
  on_do_app_stop p = do a ← load p; stop_application (launch launches n)

  -- Application::onStartTimeout without an error
  unfoldable pub on_start_timeout : Ptr → Cmd (Unit {0})
  unfolding load store on_do_app_stop
  on_start_timeout p = do
    a ← load p
    if is_some a.start_timer
        then (do store p (record a { start_timer = none }); emit p (on_do_app_stop p))
        else skip

  -- Application::onStopTimeout without an error
  unfoldable pub on_stop_timeout : Ptr → Cmd (Unit {0})
  unfolding load store stopped
  on_stop_timeout p = do
    a ← load p
    if is_some a.stop_timer
        then (do store p (record a { stop_timer = none }); stopped (launch launches n) p)
        else skip

  -- Application::onMaxInactiveTimeout without an error
  unfoldable pub on_max_inactive_timeout : Ptr → Cmd (Unit {0})
  unfolding load store on_do_app_stop
  on_max_inactive_timeout p = do
    a ← load p
    if is_some a.max_inactive_timer
        then (do store p (record a { max_inactive_timer = none }); emit p (on_do_app_stop p))
        else skip

  -- ReceiverApplicationHandler::onMessage on "register"
  unfoldable pub on_register : String → Ptr → Cmd (Unit {0})
  unfolding load started stop_application
  on_register id p = do
    a ← load p
    if str_eq a.app_id id
        then (if a.use_ipc
            then started (launch launches n) p
            else stop_application (launch launches n))
        else skip

  -- ReceiverApplicationHandler::onClose: whatever is stopping then has stopped
  unfoldable pub stop_and_finish : Cmd (Unit {0})
  unfolding stop_application stopped at
  stop_and_finish = do
    stop_application (launch launches n)
    w ← get
    at w.stopping (stopped (launch launches n))

  unfoldable pub close_beside : String → Option Ptr → Cmd (Unit {0})
  unfolding load stopped stop_and_finish
  close_beside id none = stop_and_finish
  close_beside id (some p) = do
    a ← load p
    if str_eq a.app_id id then stopped (launch launches n) p else stop_and_finish

  unfoldable pub step : Event → Cmd (Unit {0})
  unfolding allocate launch stop_application on_start_timeout on_stop_timeout
      on_max_inactive_timeout on_register close_beside at current_live get_alive_application
  step (request id url ipc inactive info) = do
    p ← allocate (new_application id url ipc inactive info)
    launch launches n p
  step stop = stop_application (launch launches n)
  step (registers id) = do w ← get; at (get_alive_application w) (on_register id)
  step (closes id) = do w ← get; close_beside id w.stopping
  step start_expires = do w ← get; at (current_live w) on_start_timeout
  step stop_expires = do w ← get; at (current_live w) on_stop_timeout
  step inactive_expires = do w ← get; at (current_live w) on_max_inactive_timeout

  unfoldable pub run : List Event → Cmd (Unit {0})
  unfolding step
  run [] = skip
  run (e ∷ es) = do step e; run es
