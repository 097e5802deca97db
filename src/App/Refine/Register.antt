-- ===== src/App/Refine/Register.antt =====
-- The registration of a receiver meets `register_phase`.
use flingd_cc.Base.{
  ℕ, suc, ◌≡◌, refl, sym, ◌∙◌, String, Bool, true, false, ◌&&◌, none, some, List, [], ◌∷◌, str_eq,
  Bool-cases, inl, inr, if_true, if_false, arith,
}
use flingd_cc.App.Object.{Application}
use flingd_cc.App.Store.{Ptr, Heap, World, Cmd, PlatformCall, ok, write}
use flingd_cc.App.Manager.{launch, started, stop_application}
use flingd_cc.App.Events.{on_register, get_alive_application, at}
use flingd_cc.App.Phase.{
  Job, Phase, idle, starting, running, stopping, to, register_phase, running_or_stopping,
  registered, with_app, awaiting_stop, stops_at_once, IsStarting, IsRunning, IsWell,
}
use flingd_cc.App.Refine.Relation.{world, ptrs, AllLive, jobs, Meets}
use flingd_cc.App.Refine.Writes.{write_self, write-ne, writes}
use flingd_cc.App.Refine.Frames.{Meets-world, AllLive-replace}
use flingd_cc.App.Refine.StopSteps.{stop-Meets, awaiting_stop-IsStopping}
use flingd_cc.App.Refine.Stop.{do_stop-later}

-- A registered receiver is known to its application, whatever the manager does.
abbrev greeted : Application → Application
greeted a = record a { start_timer = none; ws_connected = true }

module _ (relaunch : Ptr → Cmd (Unit {0})) (p : Ptr) (a : Application) (w : World)
    (live : w.apps p ≡ some a) (ipc : a.use_ipc ≡ true) where
  started-unconnected :
      a.connected ≡ false
      → started relaunch p w ≡ ok tt (record w { apps = write w.apps p (some (greeted a)) })
  unfolding started
  started-unconnected c = simp (live, c, ipc, writes)

  started-last :
      a.connected ≡ true
      → w.pending ≡ []
      → started relaunch p w
        ≡ ok tt (record w {
          apps = write w.apps p (some (registered a));
          top = some p;
          starting = none;
        })
  unfolding started
  started-last c e = simp (live, c, ipc, e, writes)

  started-crowded :
      (q : Ptr) (ps : List Ptr)
      → a.connected ≡ true
      → w.pending ≡ q ∷ ps
      → started relaunch p w
        ≡ stop_application relaunch (record w {
          apps = write w.apps p (some (registered a));
          top = some p;
          starting = none;
        })
  unfolding started
  started-crowded q ps c e = simp (live, c, ipc, e, writes)

module _ (launches : String → Bool) (m : ℕ) (h : Heap) (n : Ptr) (cs : List PlatformCall) where
  abbrev relaunch : Ptr → Cmd (Unit {0})
  relaunch = launch launches (suc (suc m))

  registered-IsRunning : (a : Application) → IsStarting a → IsRunning (registered a)
  registered-IsRunning a s = record {
    connected = s.connected;
    start_timer = refl;
    stop_timer = s.stop_timer;
    receiver = inr (refl, s.max_inactive_timer);
  }

  -- Others wait, so the application that has just started is told to stop.
  crowded :
      (j q : Job) (qs : List Job)
      → AllLive h n (j ∷ q ∷ qs)
      → IsWell (starting j (q ∷ qs))
      → Meets (running_or_stopping (with_app j (registered j.app)) (q ∷ qs)) (
          stop_application relaunch
            (record (world (write h j.ptr (some (registered j.app))) n cs (starting j (q ∷ qs))) {
              top = some j.ptr;
              starting = none;
            }))
  unfolding stop_application
  crowded j q qs l v =
      let a : Application = registered j.app in
      let g : Heap = write h j.ptr (some a) in
      let w : World = record (world g n cs (starting j (q ∷ qs))) {
        top = some j.ptr;
        starting = none;
      } in
      let later : stops_at_once a ≡ false = rw (v.0.ipc) in
      rw (do_stop-later relaunch j.ptr a w (write_self h j.ptr (some a)) later) (
        Meets-world _ n _ (stopping (with_app j (awaiting_stop a)) (q ∷ qs))
          (AllLive-replace g n (with_app j a) (awaiting_stop a) (q ∷ qs)
            (AllLive-replace h n j a (q ∷ qs) l))
          (awaiting_stop-IsStopping a v.0.connected v.0.max_inactive_timer later, v.1))

  registers_starting :
      (j : Job) (qs : List Job)
      → AllLive h n (j ∷ qs)
      → IsWell (starting j qs)
      → Meets
          (running_or_stopping (with_app j (registered j.app)) qs)
          (started relaunch j.ptr (world h n cs (starting j qs)))
  registers_starting j [] l v =
      let w : World = world h n cs (starting j []) in
      rw (started-last relaunch j.ptr j.app w l.0.0 v.0.ipc v.0.connected refl) (
        Meets-world _ n cs (running (with_app j (registered j.app)))
          (AllLive-replace h n j (registered j.app) [] l) (registered-IsRunning j.app v.0))
  registers_starting j (q ∷ qs) l v =
      let w : World = world h n cs (starting j (q ∷ qs)) in
      rw (started-crowded relaunch j.ptr j.app w l.0.0 v.0.ipc q.ptr (ptrs qs) v.0.connected refl)
        (crowded j q qs l v)

  register_running :
      (id : String) (j : Job)
      → AllLive h n (j ∷ [])
      → IsRunning j.app
      → Meets
          (register_phase id (running j))
          (on_register launches (suc (suc m)) id j.ptr (world h n cs (running j)))
  unfolding register_phase on_register
  register_running id j l v =
      let w : World = world h n cs (running j) in
      rw l.0.0 (elim (Bool-cases (str_eq j.app.app_id id)) [
        | inl e ↦ elim (Bool-cases j.app.use_ipc) [
          | inl i ↦ rw (if_true _ _ e, if_true _ _ e, if_true _ _ i, if_true _ _ i) (again j l v i)
          | inr i ↦
              rw (if_true _ _ e, if_true _ _ e, if_false _ _ i, if_false _ _ i)
                (stop-Meets launches (suc m) h n cs (running j) l v)
        ]
        | inr e ↦ rw (if_false _ _ e, if_false _ _ e) (Meets-world h n cs (running j) l v)
      ])
    where
      again :
          (j : Job)
          → AllLive h n (j ∷ [])
          → IsRunning j.app
          → j.app.use_ipc ≡ true
          → Meets
              (to (running (with_app j (registered j.app))))
              (started relaunch j.ptr (world h n cs (running j)))
      again j l v i =
          rw (started-last relaunch j.ptr j.app (world h n cs (running j)) l.0.0 i v.connected refl)
            (Meets-world _ n cs (running (with_app j (registered j.app)))
              (AllLive-replace h n j (registered j.app) [] l)
              (record {
                connected = v.connected;
                start_timer = refl;
                stop_timer = v.stop_timer;
                receiver = ground arith;
              }))

  register_starting :
      (id : String) (j : Job) (qs : List Job)
      → AllLive h n (j ∷ qs)
      → IsWell (starting j qs)
      → Meets
          (register_phase id (starting j qs))
          (on_register launches (suc (suc m)) id j.ptr (world h n cs (starting j qs)))
  unfolding register_phase on_register
  register_starting id j qs l v = rw l.0.0 (elim (Bool-cases (str_eq j.app.app_id id)) [
    | inl e ↦ rw (if_true _ _ e, if_true _ _ e, if_true _ _ v.0.ipc) (registers_starting j qs l v)
    | inr e ↦ rw (if_false _ _ e, if_false _ _ e) (Meets-world h n cs (starting j qs) l v)
  ])

  -- The first that waits is taken for the running application.
  greet :
      (j q : Job) (qs : List Job)
      → AllLive h n (j ∷ q ∷ qs)
      → IsWell (stopping j (q ∷ qs))
      → q.app.use_ipc ≡ true
      → Meets
          (to (stopping j (with_app q (greeted q.app) ∷ qs)))
          (started relaunch q.ptr (world h n cs (stopping j (q ∷ qs))))
  greet j q qs l v i =
      let w : World = world h n cs (stopping j (q ∷ qs)) in
      let kept : write h q.ptr (some (greeted q.app)) j.ptr ≡ some j.app =
        write-ne h q.ptr j.ptr (some (greeted q.app)) (λ e. l.1.0 (sym e)) ∙ l.0.0 in
      rw (started-unconnected relaunch q.ptr q.app w l.2.0.0 i v.1.0.connected) (
        Meets-world _ n cs (stopping j (with_app q (greeted q.app) ∷ qs))
          ((kept, l.0.1), l.1, AllLive-replace h n q (greeted q.app) qs l.2)
          (
            v.0,
            (
              record {
                connected = v.1.0.connected;
                start_timer = refl;
                stop_timer = v.1.0.stop_timer;
                max_inactive_timer = v.1.0.max_inactive_timer;
              },
              v.1.1,
            ),
          ))

  register_stopping :
      (id : String) (j q : Job) (qs : List Job)
      → AllLive h n (j ∷ q ∷ qs)
      → IsWell (stopping j (q ∷ qs))
      → Meets
          (register_phase id (stopping j (q ∷ qs)))
          (on_register launches (suc (suc m)) id q.ptr (world h n cs (stopping j (q ∷ qs))))
  unfolding register_phase on_register stop_application
  register_stopping id j q qs l v =
      let both = str_eq q.app.app_id id && q.app.use_ipc in
      let same = Meets-world h n cs (stopping j (q ∷ qs)) l v in
      rw l.2.0.0 (elim (Bool-cases (str_eq q.app.app_id id)) [
        | inl e ↦ elim (Bool-cases q.app.use_ipc) [
          | inl i ↦
              rw (if_true {b = both} _ _ (ground arith), if_true _ _ e, if_true _ _ i)
                (greet j q qs l v i)
          | inr i ↦ rw (if_false {b = both} _ _ (ground arith), if_true _ _ e, if_false _ _ i) same
        ]
        | inr e ↦ rw (if_false {b = both} _ _ (ground arith), if_false _ _ e) same
      ])

  -- What a registration does, in each phase.
  pub register-Meets :
      (id : String) (ph : Phase)
      → AllLive h n (jobs ph)
      → IsWell ph
      → Meets (register_phase id ph) (
          at
            (get_alive_application (world h n cs ph))
            (on_register launches (suc (suc m)) id)
            (world h n cs ph))
  unfolding register_phase get_alive_application at
  register-Meets id idle l v = Meets-world h n cs idle l v
  register-Meets id (starting j qs) l v = register_starting id j qs l v
  register-Meets id (running j) l v = register_running id j l v
  register-Meets id (stopping j []) l v = Meets-world h n cs (stopping j []) l v
  register-Meets id (stopping j (q ∷ qs)) l v = register_stopping id j q qs l v
