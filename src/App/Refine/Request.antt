-- ===== src/App/Refine/Request.antt =====
-- A launch request meets `request_phase`.
use flingd_cc.Base.{
  ℕ, suc, ◌≡◌, ◌≢◌, refl, ◌∙◌, ◌<◌, ap, String, Bool, true, false, none, some, List, [], ◌∷◌, ◌++◌,
  str_eq, Bool-cases, inl, inr, arith, if◌then◌else◌,
}
use flingd_cc.App.Object.{Application}
use flingd_cc.App.Store.{Ptr, Heap, World, Cmd, PlatformCall, ok, write}
use flingd_cc.App.Manager.{launch, launch_body, launch_next, stop_application}
use flingd_cc.App.Phase.{
  Job, Phase, idle, starting, running, stopping, to, crash, request_phase, stops_at_once, with_app,
  awaiting_stop, IsRunning, IsWaiting, IsWell,
}
use flingd_cc.App.Refine.Relation.{world, ptrs, AllLive, jobs, Meets}
use flingd_cc.App.Refine.Writes.{write_self, write-ne, write-write, writes}
use flingd_cc.App.Refine.Frames.{
  Meets-world, AllLive-enqueue, AllLive-allocate, AllWaiting-snoc, AllLive-replace,
}
use flingd_cc.App.Refine.Begin.{begin-Meets}
use flingd_cc.App.Refine.StopSteps.{running-IsStopping}
use flingd_cc.App.Refine.Stop.{do_stop-at_once, do_stop-later}
use flingd_cc.App.Refine.Dangling.{launch-dangling_top}

abbrev to_start : Application → Application
to_start a = record a { app_state = "starting" }

ptrs-snoc : (qs : List Job) (q : Job) → ptrs (qs ++ q ∷ []) ≡ ptrs qs ++ q.ptr ∷ []
ptrs-snoc [] q = refl
ptrs-snoc (r ∷ qs) q = ap (◌∷◌ r.ptr) (ptrs-snoc qs q)

launch-suc :
    (launches : String → Bool) (m : ℕ) (p : Ptr) (w : World)
    → launch launches (suc m) p w ≡ launch_body launches (launch launches m) p w
unfolding launch
launch-suc launches m p w = refl

body-beside_top :
    (launches : String → Bool) (relaunch : Ptr → Cmd (Unit {0})) (p : Ptr) (a : Application)
    (w : World) (s : Ptr) (b : Application)
    → w.apps p ≡ some a
    → p ≢ s
    → w.starting ≡ none
    → w.top ≡ some s
    → w.apps s ≡ some b
    → str_eq b.app_id a.app_id ≡ false
    → launch_body launches relaunch p w
      ≡ stop_application relaunch
          (record w { apps = write w.apps p (some (to_start a)); pending = w.pending ++ p ∷ [] })
unfolding launch_body
body-beside_top launches relaunch p a w s b live d f held e x =
    simp (live, f, held, write-ne w.apps p s (some (to_start a)) d, e, x, writes)

module _ (launches : String → Bool) (m : ℕ) (p : Ptr) (a : Application) (w : World)
    (live : w.apps p ≡ some a) where
  launch-beside_starting :
      (s : Ptr) (b : Application)
      → p ≢ s
      → w.starting ≡ some s
      → w.apps s ≡ some b
      → launch launches (suc m) p w ≡ (
          if str_eq b.app_id a.app_id
          then ok tt (record w { apps = write w.apps p (some (to_start a)) })
          else ok tt (record w {
            apps = write w.apps p (some (to_start a));
            pending = w.pending ++ p ∷ [];
          }))
  unfolding launch
  launch-beside_starting s b d held e = elim (Bool-cases (str_eq b.app_id a.app_id)) [
    | inl x ↦ simp (live, held, write-ne w.apps p s (some (to_start a)) d, e, x, writes)
    | inr x ↦ simp (live, held, write-ne w.apps p s (some (to_start a)) d, e, x, writes)
  ]

  launch-beside_stopping :
      (s : Ptr) (b : Application)
      → p ≢ s
      → w.starting ≡ none
      → w.top ≡ none
      → w.stopping ≡ some s
      → w.apps s ≡ some b
      → launch launches (suc m) p w
        ≡ ok tt
            (record w { apps = write w.apps p (some (to_start a)); pending = w.pending ++ p ∷ [] })
  unfolding launch
  launch-beside_stopping s b d f g held e =
      simp (live, f, g, held, write-ne w.apps p s (some (to_start a)) d, e)

  launch-beside_same :
      (s : Ptr) (b : Application)
      → p ≢ s
      → w.starting ≡ none
      → w.top ≡ some s
      → w.apps s ≡ some b
      → str_eq b.app_id a.app_id ≡ true
      → launch launches (suc m) p w ≡ ok tt (record w { apps = write w.apps p (some (to_start a)) })
  unfolding launch
  launch-beside_same s b d f held e x =
      simp (live, f, held, write-ne w.apps p s (some (to_start a)) d, e, x, writes)

-- The object of a new application at the next address, with its state set.
module _ (h : Heap) (n : Ptr) (cs : List PlatformCall) (a : Application) (x : IsWaiting a) where
  abbrev fresh : Job
  fresh = record { ptr = n; app = to_start a }

  other : (j : Job) → (h j.ptr ≡ some j.app) × (j.ptr < n) → write h n (some a) j.ptr ≡ some j.app
  other j l = write-ne h n j.ptr (some a) (omega (arith, l.1)) ∙ l.0

  to_start-IsWaiting : IsWaiting (to_start a)
  to_start-IsWaiting = record {
    connected = x.connected;
    start_timer = x.start_timer;
    stop_timer = x.stop_timer;
    max_inactive_timer = x.max_inactive_timer;
  }

  -- It waits behind the others.
  waits-starting :
      (j : Job) (qs : List Job)
      → AllLive h n (j ∷ qs)
      → IsWell (starting j qs)
      → Meets (to (starting j (qs ++ fresh ∷ []))) (
          ok tt (record (world (write h n (some (to_start a))) (suc n) cs (starting j qs)) {
            pending = ptrs qs ++ n ∷ [];
          }))
  waits-starting j qs l v = rw (← ptrs-snoc qs fresh) (
      Meets-world _ (suc n) cs (starting j (qs ++ fresh ∷ []))
        (AllLive-enqueue h n (to_start a) (j ∷ qs) l)
        (v.0, AllWaiting-snoc qs fresh v.1 to_start-IsWaiting))

  waits-stopping :
      (j : Job) (qs : List Job)
      → AllLive h n (j ∷ qs)
      → IsWell (stopping j qs)
      → Meets (to (stopping j (qs ++ fresh ∷ []))) (
          ok tt (record (world (write h n (some (to_start a))) (suc n) cs (stopping j qs)) {
            pending = ptrs qs ++ n ∷ [];
          }))
  waits-stopping j qs l v = rw (← ptrs-snoc qs fresh) (
      Meets-world _ (suc n) cs (stopping j (qs ++ fresh ∷ []))
        (AllLive-enqueue h n (to_start a) (j ∷ qs) l)
        (v.0, AllWaiting-snoc qs fresh v.1 to_start-IsWaiting))

module _ (launches : String → Bool) (m : ℕ) (h : Heap) (n : Ptr) (cs : List PlatformCall)
    (a : Application) (x : IsWaiting a) where
  abbrev relaunch : Ptr → Cmd (Unit {0})
  relaunch = launch launches (suc (suc m))

  abbrev job : Job
  job = record { ptr = n; app = a }

  request_starting :
      (j : Job) (qs : List Job)
      → AllLive h n (j ∷ qs)
      → IsWell (starting j qs)
      → Meets
          (request_phase launches job (starting j qs))
          (relaunch n (world (write h n (some a)) (suc n) cs (starting j qs)))
  unfolding request_phase
  request_starting j qs l v =
      let w : World = world (write h n (some a)) (suc n) cs (starting j qs) in
      rw
        (
          launch-beside_starting launches (suc m) n a w (write_self h n (some a)) j.ptr j.app
              (omega (arith, l.0.1)) refl (other h n cs a x j l.0),
          write-write h n (some a) (some (to_start a)),
        )
        (elim (Bool-cases (str_eq j.app.app_id a.app_id)) [
          | inl e ↦ rw e (
              Meets-world _ (suc n) cs (starting j qs)
                (AllLive-allocate h n (some (to_start a)) (j ∷ qs) l) v)
          | inr e ↦ rw e (waits-starting h n cs a x j qs l v)
        ])

  request_stopping :
      (j : Job) (qs : List Job)
      → AllLive h n (j ∷ qs)
      → IsWell (stopping j qs)
      → Meets
          (request_phase launches job (stopping j qs))
          (relaunch n (world (write h n (some a)) (suc n) cs (stopping j qs)))
  unfolding request_phase
  request_stopping j qs l v =
      let w : World = world (write h n (some a)) (suc n) cs (stopping j qs) in
      rw
        (
          launch-beside_stopping launches (suc m) n a w (write_self h n (some a)) j.ptr j.app
              (omega (arith, l.0.1)) refl refl refl (other h n cs a x j l.0),
          write-write h n (some a) (some (to_start a)),
        )
        (waits-stopping h n cs a x j qs l v)

  -- The world in which the running application is told to stop.
  abbrev making_room : Job → World
  making_room j = record (world (write h n (some (to_start a))) (suc n) cs (running j)) {
    pending = n ∷ [];
  }

  request_other :
      (j : Job)
      → AllLive h n (j ∷ [])
      → str_eq j.app.app_id a.app_id ≡ false
      → relaunch n (world (write h n (some a)) (suc n) cs (running j))
        ≡ stop_application (launch launches (suc m)) (making_room j)
  request_other j l e =
      let w : World = world (write h n (some a)) (suc n) cs (running j) in
      launch-suc launches (suc m) n w
      ∙ (body-beside_top launches (launch launches (suc m)) n a w j.ptr j.app
            (write_self h n (some a)) (omega (arith, l.0.1)) refl refl (other h n cs a x j l.0) e
          ∙ rw (write-write h n (some a) (some (to_start a))))

  make_room :
      (j : Job)
      → AllLive h n (j ∷ [])
      → IsRunning j.app
      → Meets
          (if stops_at_once j.app
            then crash
            else to (stopping (with_app j (awaiting_stop j.app)) (fresh h n cs a x ∷ [])))
          (stop_application (launch launches (suc m)) (making_room j))
  unfolding stop_application launch_next
  make_room j l v =
      let live : write h n (some (to_start a)) j.ptr ≡ some j.app =
        write-ne h n j.ptr (some (to_start a)) (omega (arith, l.0.1)) ∙ l.0.0 in
      let r : Ptr → Cmd (Unit {0}) = launch launches (suc m) in
      elim (Bool-cases (stops_at_once j.app)) [
        | inl e ↦ rw (
          e,
          do_stop-at_once r j.ptr j.app (making_room j) live v.connected e,
          launch-dangling_top launches m j.ptr n,
          write_self (write h n (some (to_start a))) j.ptr none,
        )
        | inr e ↦
            rw (e, do_stop-later r j.ptr j.app (making_room j) live e)
              (Meets-world _ (suc n) _
                (stopping (with_app j (awaiting_stop j.app)) (fresh h n cs a x ∷ []))
                (AllLive-replace (write h n (some (to_start a))) (suc n) j (awaiting_stop j.app)
                  (fresh h n cs a x ∷ []) (AllLive-enqueue h n (to_start a) (j ∷ []) l))
                (running-IsStopping j.app v e, (to_start-IsWaiting h n cs a x, tt)))
      ]

  request_running :
      (j : Job)
      → AllLive h n (j ∷ [])
      → IsRunning j.app
      → Meets
          (request_phase launches job (running j))
          (relaunch n (world (write h n (some a)) (suc n) cs (running j)))
  unfolding request_phase
  request_running j l v =
      let w : World = world (write h n (some a)) (suc n) cs (running j) in
      elim (Bool-cases (str_eq j.app.app_id a.app_id)) [
        | inl e ↦
            rw
              (
                e,
                launch-beside_same launches (suc m) n a w (write_self h n (some a)) j.ptr j.app
                    (omega (arith, l.0.1)) refl refl (other h n cs a x j l.0) e,
                write-write h n (some a) (some (to_start a)),
              )
              (Meets-world _ (suc n) cs (running j)
                (AllLive-allocate h n (some (to_start a)) (j ∷ []) l) v)
        | inr e ↦ rw (e, request_other j l e) (make_room j l v)
      ]

  -- What a request does, in each phase.
  pub request-Meets :
      (ph : Phase)
      → AllLive h n (jobs ph)
      → IsWell ph
      → Meets
          (request_phase launches job ph)
          (relaunch n (world (write h n (some a)) (suc n) cs ph))
  unfolding request_phase
  request-Meets idle l v =
      begin-Meets launches (write h n (some a)) (suc n) cs m job []
        ((write_self h n (some a), omega arith), tt, tt) x tt
  request-Meets (starting j qs) l v = request_starting j qs l v
  request-Meets (running j) l v = request_running j l v
  request-Meets (stopping j qs) l v = request_stopping j qs l v
