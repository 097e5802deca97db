-- ===== src/App/Refine/Steps.antt =====
-- Every step of the code meets the machine of App/Phase, and every run stays among the worlds that
-- represent a phase until it faults or a launch is refused.
use flingd_cc.Base.{ℕ, suc, refl, sym, subst, String, Bool, List}
use flingd_cc.Base.Int.{ℤ}
use flingd_cc.App.Object.{new_application}
use flingd_cc.App.Store.{Ptr, Heap, World, PlatformCall}
use flingd_cc.App.Events.{
  Event, request, stop, registers, closes, start_expires, stop_expires, inactive_expires, step,
}
use flingd_cc.App.Phase.{Phase, idle, starting, running, stopping, IsWaiting, step_phase, IsWell}
use flingd_cc.App.Refine.Relation.{world, AllLive, jobs, Represents, Meets}
use flingd_cc.App.Refine.StopSteps.{stop-Meets}
use flingd_cc.App.Refine.Finish.{close-Meets}
use flingd_cc.App.Refine.Request.{request-Meets}
use flingd_cc.App.Refine.Register.{register-Meets}
use flingd_cc.App.Refine.Expire.{start_expired-Meets, stop_expired-Meets, inactive_expired-Meets}

new-IsWaiting :
    (id url : String) (ipc : Bool) (inactive : ℤ) (info : String)
    → IsWaiting (new_application id url ipc inactive info)
new-IsWaiting id url ipc inactive info = record {
  connected = refl;
  start_timer = refl;
  stop_timer = refl;
  max_inactive_timer = refl;
}

step_world :
    (launches : String → Bool) (m : ℕ) (h : Heap) (n : Ptr) (cs : List PlatformCall) (e : Event)
    (ph : Phase)
    → AllLive h n (jobs ph)
    → IsWell ph
    → Meets (step_phase launches n e ph) (step launches (suc (suc m)) e (world h n cs ph))
unfolding step step_phase
step_world launches m h n cs (request id url ipc inactive info) idle l v =
    request-Meets launches m h n cs (new_application id url ipc inactive info)
      (new-IsWaiting id url ipc inactive info) idle l v
step_world launches m h n cs (request id url ipc inactive info) (starting j qs) l v =
    request-Meets launches m h n cs (new_application id url ipc inactive info)
      (new-IsWaiting id url ipc inactive info) (starting j qs) l v
step_world launches m h n cs (request id url ipc inactive info) (running j) l v =
    request-Meets launches m h n cs (new_application id url ipc inactive info)
      (new-IsWaiting id url ipc inactive info) (running j) l v
step_world launches m h n cs (request id url ipc inactive info) (stopping j qs) l v =
    request-Meets launches m h n cs (new_application id url ipc inactive info)
      (new-IsWaiting id url ipc inactive info) (stopping j qs) l v
step_world launches m h n cs stop ph l v = stop-Meets launches (suc m) h n cs ph l v
step_world launches m h n cs (registers id) ph l v = register-Meets launches m h n cs id ph l v
step_world launches m h n cs (closes id) ph l v = close-Meets launches m h n cs id ph l v
step_world launches m h n cs start_expires ph l v = start_expired-Meets launches m h n cs ph l v
step_world launches m h n cs stop_expires ph l v = stop_expired-Meets launches m h n cs ph l v
step_world launches m h n cs inactive_expires ph l v =
    inactive_expired-Meets launches m h n cs ph l v

module _ (launches : String → Bool) (m : ℕ) where
  -- From a world that represents a phase, with room for two nested launches, each event ends as
  -- the machine of App/Phase says: in a world that represents the next phase, in a fault where the
  -- machine crashes, or in a world whose starting pointer is to a deleted application where the
  -- machine is broken.
  pub step-Meets :
      (w : World) (ph : Phase) (e : Event)
      → Represents w ph
      → Meets (step_phase launches w.next e ph) (step launches (suc (suc m)) e w)
  step-Meets w ph e x =
      subst (λ u. Meets (step_phase launches w.next e ph) (step launches (suc (suc m)) e u))
        (sym x.shape) (step_world launches m w.apps w.next w.calls e ph x.lives x.well)
