-- ===== src/App/Phase.antt =====
-- The abstract state machine of the application manager. At rest at most one application holds a
-- slot of the manager, and applications wait only behind one that is starting or stopping.
use flingd_cc.Base.{
  ◌≡◌, String, Bool, true, false, not, ◌&&◌, none, some, List, [], ◌∷◌, ◌++◌, ◌⊎◌, str_eq, is_some,
  if◌then◌else◌,
}
use flingd_cc.Base.Int.{is_positive, to_millis}
use flingd_cc.App.Object.{Application, new_application, seconds}
use flingd_cc.App.Store.{Ptr}
use flingd_cc.App.Events.{
  Event, request, stop, registers, closes, start_expires, stop_expires, inactive_expires,
}

pub record Job : Type 0 where
  pub ptr : Ptr
  pub app : Application

pub data Phase : Type 0 where
  idle : Phase
  starting : Job → List Job → Phase
  running : Job → Phase
  stopping : Job → List Job → Phase

-- `crash`: an object is used after its deletion. `broken`: the manager is left with a pointer to a
-- deleted object.
pub data Outcome : Type 0 where
  to : Phase → Outcome
  crash broken : Outcome

abbrev pub with_app : Job → Application → Job
with_app j a = record j { app = a }

-- An application that stops at once, inside `onStopping`.
abbrev pub stops_at_once : Application → Bool
stops_at_once a = not (a.use_ipc && a.ws_connected)

abbrev pub awaiting_stop : Application → Application
awaiting_stop a = record a { app_state = "stopping"; stop_timer = some (seconds a.stop_timeout) }

abbrev pub awaiting_start : Application → Application
awaiting_start a = record a {
  app_state = "starting";
  connected = true;
  start_timer = some (seconds a.start_timeout);
}

abbrev pub registered : Application → Application
registered a = record a { app_state = "running"; start_timer = none; ws_connected = true }

-- An application that needs no receiver runs at once, for a limited time if one is given.
abbrev pub running_alone : Application → Application
running_alone a = record a {
  app_state = "running";
  connected = true;
  start_timer = none;
  max_inactive_timer =
      if is_positive a.max_inactive then some (to_millis a.max_inactive) else a.max_inactive_timer;
}

-- An application is launched while no slot is held and `qs` wait.
unfoldable pub begin : (String → Bool) → Job → List Job → Outcome
begin launches j [] =
    if launches j.app.app_info_raw
    then (if j.app.use_ipc
        then to (starting (with_app j (awaiting_start j.app)) [])
        else to (running (with_app j (running_alone j.app))))
    else broken
begin launches j (q ∷ qs) =
    if launches j.app.app_info_raw && j.app.use_ipc
    then to (starting (with_app j (awaiting_start j.app)) (q ∷ qs))
    else crash

abbrev pub idle_or_crash : List Job → Outcome
idle_or_crash [] = to idle
idle_or_crash (q ∷ qs) = crash

unfoldable pub stop_phase : Phase → Outcome
stop_phase idle = to idle
stop_phase (starting j qs) =
    if stops_at_once j.app
    then idle_or_crash qs
    else to (stopping (with_app j (awaiting_stop j.app)) qs)
stop_phase (running j) =
    if stops_at_once j.app then to idle else to (stopping (with_app j (awaiting_stop j.app)) [])
stop_phase (stopping j qs) = to (stopping j qs)

abbrev pub bind_outcome : Outcome → (Phase → Outcome) → Outcome
bind_outcome (to ph) f = f ph
bind_outcome crash f = crash
bind_outcome broken f = broken

module _ (launches : String → Bool) where
  -- What was stopping has stopped; the first that waits is launched.
  unfoldable pub finish_phase : Phase → Outcome
  unfolding begin
  finish_phase (stopping j []) = to idle
  finish_phase (stopping j (q ∷ qs)) = begin launches q qs
  finish_phase ph = to ph

  unfoldable pub close_phase : Phase → Outcome
  unfolding stop_phase finish_phase
  close_phase ph = bind_outcome (stop_phase ph) finish_phase

  unfoldable pub request_phase : Job → Phase → Outcome
  unfolding begin stop_phase
  request_phase q idle = begin launches q []
  request_phase q (starting j qs) =
      if str_eq j.app.app_id q.app.app_id
      then to (starting j qs)
      else to (starting j (qs ++ with_app q (record (q.app) { app_state = "starting" }) ∷ []))
  request_phase q (running j) =
      if str_eq j.app.app_id q.app.app_id
      then to (running j)
      else if stops_at_once j.app
      then crash
      else to (
          stopping (with_app j (awaiting_stop j.app))
            (with_app q (record (q.app) { app_state = "starting" }) ∷ []))
  request_phase q (stopping j qs) =
      to (stopping j (qs ++ with_app q (record (q.app) { app_state = "starting" }) ∷ []))

abbrev pub running_or_stopping : Job → List Job → Outcome
running_or_stopping j [] = to (running j)
running_or_stopping j (q ∷ qs) = to (stopping (with_app j (awaiting_stop j.app)) (q ∷ qs))

unfoldable pub register_phase : String → Phase → Outcome
unfolding stop_phase
register_phase id idle = to idle
register_phase id (starting j qs) =
    if str_eq j.app.app_id id
    then running_or_stopping (with_app j (registered j.app)) qs
    else to (starting j qs)
register_phase id (running j) =
    if str_eq j.app.app_id id
    then (if j.app.use_ipc
        then to (running (with_app j (registered j.app)))
        else stop_phase (running j))
    else to (running j)
register_phase id (stopping j []) = to (stopping j [])
register_phase id (stopping j (q ∷ qs)) =
    if str_eq q.app.app_id id && q.app.use_ipc
    then to
        (stopping j (with_app q (record (q.app) { start_timer = none; ws_connected = true }) ∷ qs))
    else to (stopping j (q ∷ qs))

-- The timers of the application that holds a slot.
unfoldable pub start_expired : Phase → Outcome
unfolding stop_phase
start_expired idle = to idle
start_expired (starting j qs) =
    if is_some j.app.start_timer
    then stop_phase (starting (with_app j (record (j.app) { start_timer = none })) qs)
    else to (starting j qs)
start_expired (running j) = to (running j)
start_expired (stopping j qs) =
    if is_some j.app.start_timer
    then to (stopping (with_app j (record (j.app) { start_timer = none })) qs)
    else to (stopping j qs)

unfoldable pub stop_expired : (String → Bool) → Phase → Outcome
unfolding finish_phase
stop_expired launches (stopping j qs) = finish_phase launches (stopping j qs)
stop_expired launches ph = to ph

unfoldable pub inactive_expired : Phase → Outcome
unfolding stop_phase
inactive_expired (running j) =
    if is_some j.app.max_inactive_timer
    then stop_phase (running (with_app j (record (j.app) { max_inactive_timer = none })))
    else to (running j)
inactive_expired ph = to ph

-- The machine: `next` is the address of an application that the event creates.
unfoldable pub step_phase : (String → Bool) → Ptr → Event → Phase → Outcome
unfolding request_phase stop_phase register_phase close_phase start_expired stop_expired
    inactive_expired
step_phase launches next (request id url ipc inactive info) =
    request_phase launches (record { ptr = next; app = new_application id url ipc inactive info })
step_phase launches next stop = stop_phase
step_phase launches next (registers id) = register_phase id
step_phase launches next (closes id) = close_phase launches
step_phase launches next start_expires = start_expired
step_phase launches next stop_expires = stop_expired launches
step_phase launches next inactive_expires = inactive_expired

-- What is true of an application in each place.
pub record IsStarting (a : Application) : Type 0 where
  pub connected : a.connected ≡ true
  pub ipc : a.use_ipc ≡ true
  pub start_timer : is_some a.start_timer ≡ true
  pub stop_timer : a.stop_timer ≡ none
  pub max_inactive_timer : a.max_inactive_timer ≡ none

pub record IsRunning (a : Application) : Type 0 where
  pub connected : a.connected ≡ true
  pub start_timer : a.start_timer ≡ none
  pub stop_timer : a.stop_timer ≡ none
  pub receiver : (a.use_ipc ≡ false) ⊎ ((a.ws_connected ≡ true) × (a.max_inactive_timer ≡ none))

pub record IsStopping (a : Application) : Type 0 where
  pub connected : a.connected ≡ true
  pub ipc : a.use_ipc ≡ true
  pub ws : a.ws_connected ≡ true
  pub stop_timer : is_some a.stop_timer ≡ true
  pub max_inactive_timer : a.max_inactive_timer ≡ none

pub record IsWaiting (a : Application) : Type 0 where
  pub connected : a.connected ≡ false
  pub start_timer : a.start_timer ≡ none
  pub stop_timer : a.stop_timer ≡ none
  pub max_inactive_timer : a.max_inactive_timer ≡ none

abbrev pub AllWaiting : List Job → Type 0
AllWaiting [] = Unit {0}
AllWaiting (q ∷ qs) = IsWaiting q.app × AllWaiting qs

abbrev pub IsWell : Phase → Type 0
IsWell idle = Unit {0}
IsWell (starting j qs) = IsStarting j.app × AllWaiting qs
IsWell (running j) = IsRunning j.app
IsWell (stopping j qs) = IsStopping j.app × AllWaiting qs
