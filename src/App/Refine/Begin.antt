-- ===== src/App/Refine/Begin.antt =====
-- A launch while no slot of the manager is held meets `begin`.
use flingd_cc.Base.{
  ℕ, suc, ◌≡◌, ◌<◌, refl, String, Bool, true, false, ◌&&◌, none, some, List, [], ◌∷◌, inl, inr,
  arith, Bool-cases, if_true, if_false,
}
use flingd_cc.Base.Int.{is_positive}
use flingd_cc.App.Object.{Application}
use flingd_cc.App.Store.{
  Ptr, Heap, World, Cmd, PlatformCall, ok, fault, write, launch_call, stop_call,
}
use flingd_cc.App.Manager.{launch, launch_next, launch_body}
use flingd_cc.App.Phase.{
  Job, starting, running, with_app, to, broken, begin, awaiting_start, running_alone, AllWaiting,
  IsWaiting, IsStarting, IsRunning,
}
use flingd_cc.App.Refine.Relation.{ptrs, AllLive, Meets}
use flingd_cc.App.Refine.Writes.{write_self, writes}
use flingd_cc.App.Refine.Frames.{Meets-world, AllLive-replace}
use flingd_cc.App.Refine.Dangling.{launch-dangling_starting, launch-dangling_top}

-- No slot is held, and the given applications wait.
abbrev pub free_world : Heap → Ptr → List PlatformCall → List Ptr → World
free_world h n cs ps = record {
  apps = h;
  next = n;
  top = none;
  starting = none;
  stopping = none;
  pending = ps;
  calls = cs;
}

-- The application that was started is deleted while the manager still holds it as the top one.
body-alone_fault :
    (launches : String → Bool) (relaunch : Ptr → Cmd (Unit {0})) (h : Heap) (n : Ptr)
    (cs : List PlatformCall) (p : Ptr) (a : Application) (q : Ptr) (ps : List Ptr)
    → h p ≡ some a
    → launches a.app_info_raw ≡ true
    → a.use_ipc ≡ false
    → ((w : World) → w.starting ≡ none → w.top ≡ some p → w.apps p ≡ none → relaunch q w ≡ fault)
    → launch_body launches relaunch p (free_world h n cs (q ∷ ps)) ≡ fault
unfolding launch_body
body-alone_fault launches relaunch h n cs p a q ps live e i bad =
    let w : World = record {
      apps = write h p none;
      next = n;
      top = some p;
      starting = none;
      stopping = none;
      pending = ps;
      calls = stop_call a.app_info_raw ∷ launch_call a.app_info_raw ∷ cs;
    } in
    let stuck : relaunch q w ≡ fault = bad w refl refl (write_self h p none) in
    simp (live, e, i, writes, stuck)

module _ (launches : String → Bool) (m : ℕ) (h : Heap) (n : Ptr) (cs : List PlatformCall) (p : Ptr)
    (a : Application) (live : h p ≡ some a) where
  launch-ipc :
      (ps : List Ptr)
      → launches a.app_info_raw ≡ true
      → a.use_ipc ≡ true
      → launch launches (suc m) p (free_world h n cs ps)
        ≡ ok tt (record {
          apps = write h p (some (awaiting_start a));
          next = n;
          top = none;
          starting = some p;
          stopping = none;
          pending = ps;
          calls = launch_call a.app_info_raw ∷ cs;
        })
  unfolding launch
  launch-ipc ps e i = simp (live, e, i, writes)

  launch-alone :
      launches a.app_info_raw ≡ true
      → a.use_ipc ≡ false
      → launch launches (suc m) p (free_world h n cs [])
        ≡ ok tt (record {
          apps = write h p (some (running_alone a));
          next = n;
          top = some p;
          starting = none;
          stopping = none;
          pending = [];
          calls = launch_call a.app_info_raw ∷ cs;
        })
  unfolding launch
  launch-alone e i = elim (Bool-cases (is_positive a.max_inactive)) [
    | inl x ↦ simp (live, e, i, x, writes)
    | inr x ↦ simp (live, e, i, x, writes)
  ]

  launch-refused :
      (ps : List Ptr)
      → launches a.app_info_raw ≡ false
      → launch launches (suc m) p (free_world h n cs ps)
        ≡ launch_next (launch launches m) ps (record {
          apps = write h p none;
          next = n;
          top = none;
          starting = some p;
          stopping = none;
          pending = ps;
          calls = launch_call a.app_info_raw ∷ cs;
        })
  unfolding launch
  launch-refused ps e = simp (live, e, writes)

running_alone-IsRunning :
    (a : Application) → IsWaiting a → a.use_ipc ≡ false → IsRunning (running_alone a)
running_alone-IsRunning a x i = record {
  connected = refl;
  start_timer = refl;
  stop_timer = x.stop_timer;
  receiver = inl i;
}

awaiting_start-IsStarting :
    (a : Application) → IsWaiting a → a.use_ipc ≡ true → IsStarting (awaiting_start a)
awaiting_start-IsStarting a x i = record {
  connected = refl;
  ipc = i;
  start_timer = refl;
  stop_timer = x.stop_timer;
  max_inactive_timer = x.max_inactive_timer;
}

module _ (launches : String → Bool) (h : Heap) (n : Ptr) (cs : List PlatformCall) (m : ℕ) where
  begin-ipc :
      (j : Job) (qs : List Job)
      → AllLive h n (j ∷ qs)
      → IsWaiting j.app
      → AllWaiting qs
      → launches j.app.app_info_raw ≡ true
      → j.app.use_ipc ≡ true
      → Meets
          (to (starting (with_app j (awaiting_start j.app)) qs))
          (launch launches (suc m) j.ptr (free_world h n cs (ptrs qs)))
  begin-ipc j qs l x v e i = rw (launch-ipc launches m h n cs j.ptr j.app l.0.0 (ptrs qs) e i) (
      Meets-world _ n _ (starting (with_app j (awaiting_start j.app)) qs)
        (AllLive-replace h n j (awaiting_start j.app) qs l)
        (awaiting_start-IsStarting j.app x i, v))

  begin-alone :
      (j : Job)
      → AllLive h n (j ∷ [])
      → IsWaiting j.app
      → launches j.app.app_info_raw ≡ true
      → j.app.use_ipc ≡ false
      → Meets
          (to (running (with_app j (running_alone j.app))))
          (launch launches (suc m) j.ptr (free_world h n cs []))
  begin-alone j l x e i = rw (launch-alone launches m h n cs j.ptr j.app l.0.0 e i) (
      Meets-world _ n _ (running (with_app j (running_alone j.app)))
        (AllLive-replace h n j (running_alone j.app) [] l) (running_alone-IsRunning j.app x i))

  begin-broken :
      (j : Job)
      → (h j.ptr ≡ some j.app) × (j.ptr < n)
      → launches j.app.app_info_raw ≡ false
      → Meets broken (launch launches (suc m) j.ptr (free_world h n cs []))
  unfolding launch_next
  begin-broken j l e = rw (launch-refused launches m h n cs j.ptr j.app l.0 [] e) (
    _,
    refl,
    record {
      ptr = j.ptr;
      held = refl;
      no_top = refl;
      no_stopping = refl;
      old = l.1;
      deleted = write_self h j.ptr none;
    },
  )

  begin-refused :
      (j : Job) (q : Ptr) (ps : List Ptr)
      → h j.ptr ≡ some j.app
      → launches j.app.app_info_raw ≡ false
      → launch launches (suc (suc m)) j.ptr (free_world h n cs (q ∷ ps)) ≡ fault
  unfolding launch_next
  begin-refused j q ps l e = rw (
    launch-refused launches (suc m) h n cs j.ptr j.app l (q ∷ ps) e,
    launch-dangling_starting launches m j.ptr q,
    write_self h j.ptr none,
  )

  begin-fault :
      (j : Job) (q : Ptr) (ps : List Ptr)
      → h j.ptr ≡ some j.app
      → launches j.app.app_info_raw ≡ true
      → j.app.use_ipc ≡ false
      → launch launches (suc (suc m)) j.ptr (free_world h n cs (q ∷ ps)) ≡ fault
  begin-fault j q ps l e i =
      unfold launch in
      body-alone_fault launches (launch launches (suc m)) h n cs j.ptr j.app q ps l e i
        (λ w a b c. launch-dangling_top launches m j.ptr q w a b c)

module _ (launches : String → Bool) (h : Heap) (n : Ptr) (cs : List PlatformCall) (m : ℕ) where
  -- What becomes of a launch depends on the application, and on whether others wait behind it.
  pub begin-Meets :
      (j : Job) (qs : List Job)
      → AllLive h n (j ∷ qs)
      → IsWaiting j.app
      → AllWaiting qs
      → Meets
          (begin launches j qs)
          (launch launches (suc (suc m)) j.ptr (free_world h n cs (ptrs qs)))
  unfolding begin
  begin-Meets j [] l x v = elim (Bool-cases (launches j.app.app_info_raw)) [
    | inl e ↦ elim (Bool-cases j.app.use_ipc) [
      | inl i ↦ rw (if_true _ _ e, if_true _ _ i) (begin-ipc launches h n cs (suc m) j [] l x v e i)
      | inr i ↦ rw (if_true _ _ e, if_false _ _ i) (begin-alone launches h n cs (suc m) j l x e i)
    ]
    | inr e ↦ rw (if_false _ _ e) (begin-broken launches h n cs (suc m) j l.0 e)
  ]
  begin-Meets j (q ∷ qs) l x v =
      let both = launches j.app.app_info_raw && j.app.use_ipc in
      elim (Bool-cases (launches j.app.app_info_raw)) [
        | inl e ↦ elim (Bool-cases j.app.use_ipc) [
          | inl i ↦
              rw (if_true {b = both} _ _ (ground arith))
                (begin-ipc launches h n cs (suc m) j (q ∷ qs) l x v e i)
          | inr i ↦
              rw (if_false {b = both} _ _ (ground arith))
                (begin-fault launches h n cs m j q.ptr (ptrs qs) l.0.0 e i)
        ]
        | inr e ↦
            rw (if_false {b = both} _ _ (ground arith))
              (begin-refused launches h n cs m j q.ptr (ptrs qs) l.0.0 e)
      ]
