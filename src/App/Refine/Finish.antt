-- ===== src/App/Refine/Finish.antt =====
-- The end of a stopping application meets `finish_phase`, and the close of a receiver's connection
-- meets `close_phase`.
use flingd_cc.Base.{
  ℕ, suc, ◌≡◌, ◌≢◌, refl, sym, subst, String, Bool, true, none, List, [], ◌∷◌, str_eq, Bool-cases,
  inl, inr, if_true, if_false, arith,
}
use flingd_cc.App.Store.{Ptr, Heap, World, Cmd, PlatformCall, Run, write, and_then}
use flingd_cc.App.Manager.{launch, launch_next, stopped}
use flingd_cc.App.Events.{stop_and_finish, close_beside, at}
use flingd_cc.App.Phase.{
  Job, Phase, idle, starting, running, stopping, Outcome, to, crash, broken, finish_phase,
  stop_phase, close_phase, bind_outcome, AllWaiting, IsWell,
}
use flingd_cc.App.Refine.Relation.{world, AllLive, jobs, Represents, Meets}
use flingd_cc.App.Refine.Frames.{Meets-world, AllLive-write}
use flingd_cc.App.Refine.Stop.{stopped_lem}
use flingd_cc.App.Refine.StopSteps.{stop-Meets}
use flingd_cc.App.Refine.Begin.{begin-Meets}

module _ (launches : String → Bool) (m : ℕ) (h : Heap) (n : Ptr) (cs : List PlatformCall) where
  abbrev relaunch : Ptr → Cmd (Unit {0})
  relaunch = launch launches (suc (suc m))

  pub finish-Meets :
      (j : Job) (qs : List Job)
      → AllLive h n (j ∷ qs)
      → j.app.connected ≡ true
      → AllWaiting qs
      → Meets
          (finish_phase launches (stopping j qs))
          (stopped relaunch j.ptr (world h n cs (stopping j qs)))
  unfolding finish_phase launch_next
  finish-Meets j [] l s v =
      let w : World = world h n cs (stopping j []) in
      rw (stopped_lem relaunch j.ptr j.app w l.0.0 s) (Meets-world _ n cs idle tt tt)
  finish-Meets j (q ∷ qs) l s v =
      let w : World = world h n cs (stopping j (q ∷ qs)) in
      rw (stopped_lem relaunch j.ptr j.app w l.0.0 s) (
        begin-Meets launches (write h j.ptr none) n cs m q qs
          (AllLive-write h n j.ptr none (q ∷ qs) l.1 l.2) v.0 v.1)

  -- After a stop, whatever is stopping is finished.
  finish_at-Meets :
      (ph : Phase)
      → AllLive h n (jobs ph)
      → IsWell ph
      → Meets
          (finish_phase launches ph)
          (at (world h n cs ph).stopping (stopped relaunch) (world h n cs ph))
  unfolding at finish_phase
  finish_at-Meets idle l v = Meets-world h n cs idle l v
  finish_at-Meets (starting j qs) l v = Meets-world h n cs (starting j qs) l v
  finish_at-Meets (running j) l v = Meets-world h n cs (running j) l v
  finish_at-Meets (stopping j qs) l v = finish-Meets j qs l v.0.connected v.1

-- A run that meets an outcome, and then continues from its phase.
Meets-bind :
    (o : Outcome) (f : Phase → Outcome) (r : Run (Unit {0})) (k : Cmd (Unit {0}))
    → o ≢ broken
    → Meets o r
    → ((w : World) (ph : Phase) → Represents w ph → Meets (f ph) (k w))
    → Meets (bind_outcome o f) (and_then r (λ _. k))
Meets-bind (to ph) f r k b (w, e, x) g = rw e (g w ph x)
Meets-bind crash f r k b e g = rw e
Meets-bind broken f r k b m g = absurd (b refl)

stop_phase-ne-broken : (ph : Phase) → stop_phase ph ≢ broken
unfolding stop_phase
stop_phase-ne-broken idle = λ e. cc
stop_phase-ne-broken (starting j []) = λ e. ground arith
stop_phase-ne-broken (starting j (q ∷ qs)) = λ e. ground arith
stop_phase-ne-broken (running j) = λ e. ground arith
stop_phase-ne-broken (stopping j qs) = λ e. cc

module _ (launches : String → Bool) (m : ℕ) where
  finish_of-Meets :
      (w : World) (ph : Phase)
      → Represents w ph
      → Meets (finish_phase launches ph) (at w.stopping (stopped (launch launches (suc (suc m)))) w)
  finish_of-Meets w ph x =
      subst
        (λ u.
          Meets (finish_phase launches ph)
            (at u.stopping (stopped (launch launches (suc (suc m)))) u))
        (sym x.shape) (finish_at-Meets launches m w.apps w.next w.calls ph x.lives x.well)

module _ (launches : String → Bool) (m : ℕ) (h : Heap) (n : Ptr) (cs : List PlatformCall) where
  stop_and_finish-Meets :
      (ph : Phase)
      → AllLive h n (jobs ph)
      → IsWell ph
      → Meets (close_phase launches ph) (stop_and_finish launches (suc (suc m)) (world h n cs ph))
  unfolding stop_and_finish close_phase
  stop_and_finish-Meets ph l v =
      Meets-bind (stop_phase ph) (finish_phase launches) _ _ (stop_phase-ne-broken ph)
        (stop-Meets launches (suc m) h n cs ph l v) (finish_of-Meets launches m)

  -- Closing any receiver's connection finishes the application that is stopping.
  pub close-Meets :
      (id : String) (ph : Phase)
      → AllLive h n (jobs ph)
      → IsWell ph
      → Meets
          (close_phase launches ph)
          (close_beside launches (suc (suc m)) id (world h n cs ph).stopping (world h n cs ph))
  unfolding close_beside close_phase
  close-Meets id idle l v = stop_and_finish-Meets idle l v
  close-Meets id (starting j qs) l v = stop_and_finish-Meets (starting j qs) l v
  close-Meets id (running j) l v = stop_and_finish-Meets (running j) l v
  close-Meets id (stopping j qs) l v = rw l.0.0 (elim (Bool-cases (str_eq j.app.app_id id)) [
    | inl e ↦ rw (if_true _ _ e) (finish-Meets launches m h n cs j qs l v.0.connected v.1)
    | inr e ↦ rw (if_false _ _ e) (finish-Meets launches m h n cs j qs l v.0.connected v.1)
  ])
