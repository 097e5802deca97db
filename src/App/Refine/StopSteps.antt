-- ===== src/App/Refine/StopSteps.antt =====
-- `stop_application` meets `stop_phase`.
use flingd_cc.Base.{
  ℕ, suc, ◌≡◌, String, Bool, true, false, none, List, [], ◌∷◌, inl, inr, arith, Bool-cases,
}
use flingd_cc.App.Object.{Application}
use flingd_cc.App.Store.{Ptr, Heap, World, PlatformCall, Cmd}
use flingd_cc.App.Manager.{launch, stop_application}
use flingd_cc.App.Phase.{
  Job, Phase, idle, starting, running, stopping, stop_phase, stops_at_once, awaiting_stop, with_app,
  to, IsRunning, IsStopping, AllWaiting, IsWell, idle_or_crash,
}
use flingd_cc.App.Refine.Relation.{world, AllLive, jobs, Meets}
use flingd_cc.App.Refine.Writes.{write_self}
use flingd_cc.App.Refine.Frames.{Meets-world, AllLive-replace}
use flingd_cc.App.Refine.Stop.{do_stop-at_once, do_stop-later}
use flingd_cc.App.Refine.Dangling.{launch-dangling_starting}

pub awaiting_stop-IsStopping :
    (a : Application)
    → a.connected ≡ true
    → a.max_inactive_timer ≡ none
    → stops_at_once a ≡ false
    → IsStopping (awaiting_stop a)
awaiting_stop-IsStopping a c i e = ground arith

pub running-IsStopping :
    (a : Application) → IsRunning a → stops_at_once a ≡ false → IsStopping (awaiting_stop a)
running-IsStopping a r e = ground arith

module _ (launches : String → Bool) (m : ℕ) (h : Heap) (n : Ptr) (cs : List PlatformCall) where
  abbrev relaunch : Ptr → Cmd (Unit {0})
  relaunch = launch launches (suc m)

  stop_starting_at_once :
      (j : Job) (qs : List Job)
      → AllLive h n (j ∷ qs)
      → j.app.connected ≡ true
      → stops_at_once j.app ≡ true
      → Meets (idle_or_crash qs) (stop_application relaunch (world h n cs (starting j qs)))
  unfolding stop_application
  stop_starting_at_once j [] l s e =
      let w : World = world h n cs (starting j []) in
      rw (do_stop-at_once relaunch j.ptr j.app w l.0.0 s e) (Meets-world _ n _ idle tt tt)
  stop_starting_at_once j (q ∷ qs) l s e =
      let w : World = world h n cs (starting j (q ∷ qs)) in
      rw (
        do_stop-at_once relaunch j.ptr j.app w l.0.0 s e,
        launch-dangling_starting launches m j.ptr q.ptr,
        write_self h j.ptr none,
      )

  stop_starting_later :
      (j : Job) (qs : List Job)
      → AllLive h n (j ∷ qs)
      → j.app.connected ≡ true
      → j.app.max_inactive_timer ≡ none
      → AllWaiting qs
      → stops_at_once j.app ≡ false
      → Meets
          (to (stopping (with_app j (awaiting_stop j.app)) qs))
          (stop_application relaunch (world h n cs (starting j qs)))
  unfolding stop_application
  stop_starting_later j qs l s i v e =
      let w : World = world h n cs (starting j qs) in
      rw (do_stop-later relaunch j.ptr j.app w l.0.0 e) (
        Meets-world _ n _ (stopping (with_app j (awaiting_stop j.app)) qs)
          (AllLive-replace h n j (awaiting_stop j.app) qs l)
          (awaiting_stop-IsStopping j.app s i e, v))

  stop_running :
      (j : Job)
      → AllLive h n (j ∷ [])
      → IsRunning j.app
      → Meets (stop_phase (running j)) (stop_application relaunch (world h n cs (running j)))
  unfolding stop_application stop_phase
  stop_running j l s =
      let w : World = world h n cs (running j) in
      elim (Bool-cases (stops_at_once j.app)) [
        | inl e ↦
            rw (e, do_stop-at_once relaunch j.ptr j.app w l.0.0 s.connected e)
              (Meets-world _ n _ idle tt tt)
        | inr e ↦
            rw (e, do_stop-later relaunch j.ptr j.app w l.0.0 e)
              (Meets-world _ n _ (stopping (with_app j (awaiting_stop j.app)) [])
                (AllLive-replace h n j (awaiting_stop j.app) [] l)
                (running-IsStopping j.app s e, tt))
      ]

  -- The start timer plays no part.
  pub stop_starting :
      (j : Job) (qs : List Job)
      → AllLive h n (j ∷ qs)
      → j.app.connected ≡ true
      → j.app.max_inactive_timer ≡ none
      → AllWaiting qs
      → Meets
          (stop_phase (starting j qs))
          (stop_application relaunch (world h n cs (starting j qs)))
  unfolding stop_phase
  stop_starting j qs l s i v = elim (Bool-cases (stops_at_once j.app)) [
    | inl e ↦ rw e (stop_starting_at_once j qs l s e)
    | inr e ↦ rw e (stop_starting_later j qs l s i v e)
  ]

  pub stop-Meets :
      (ph : Phase)
      → AllLive h n (jobs ph)
      → IsWell ph
      → Meets (stop_phase ph) (stop_application relaunch (world h n cs ph))
  unfolding stop_application stop_phase
  stop-Meets idle l v = Meets-world h n cs idle tt tt
  stop-Meets (starting j qs) l v = stop_starting j qs l v.0.connected v.0.max_inactive_timer v.1
  stop-Meets (running j) l v = stop_running j l v
  stop-Meets (stopping j qs) l v = Meets-world h n cs (stopping j qs) l v
