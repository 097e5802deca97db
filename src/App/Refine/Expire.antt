-- ===== src/App/Refine/Expire.antt =====
-- The expiry of a timer meets `start_expired`, `stop_expired` and `inactive_expired`.
use flingd_cc.Base.{
  ℕ, suc, ◌≡◌, refl, String, Bool, true, false, Option, none, some, List, [], ◌⊎◌, Bool-cases, inl,
  inr, if_true, if_false, arith, is_some,
}
use flingd_cc.App.Object.{Application}
use flingd_cc.App.Store.{Ptr, Heap, World, Cmd, PlatformCall, ok, write}
use flingd_cc.App.Manager.{launch, stop_application, stopped}
use flingd_cc.App.Events.{
  on_start_timeout, on_stop_timeout, on_max_inactive_timeout, current_live, at,
}
use flingd_cc.App.Phase.{
  Job, Phase, idle, starting, running, stopping, start_expired, stop_expired, inactive_expired,
  with_app, IsWell,
}
use flingd_cc.App.Refine.Relation.{world, AllLive, jobs, Meets}
use flingd_cc.App.Refine.Writes.{writes}
use flingd_cc.App.Refine.Frames.{Meets-world, AllLive-replace}
use flingd_cc.App.Refine.StopSteps.{stop-Meets, stop_starting}
use flingd_cc.App.Refine.Finish.{finish-Meets}

module _ (launches : String → Bool) (m : ℕ) (p : Ptr) (a : Application) (w : World)
    (live : w.apps p ≡ some a) where
  abbrev relaunch : Ptr → Cmd (Unit {0})
  relaunch = launch launches (suc (suc m))

  start_fires :
      a.connected ≡ true
      → is_some a.start_timer ≡ true
      → on_start_timeout launches (suc (suc m)) p w
        ≡ stop_application relaunch
            (record w { apps = write w.apps p (some (record a { start_timer = none })) })
  unfolding on_start_timeout
  start_fires c e = simp (live, c, e, writes)

  start_idle : is_some a.start_timer ≡ false → on_start_timeout launches (suc (suc m)) p w ≡ ok tt w
  unfolding on_start_timeout
  start_idle e = simp (live, e)

  stop_fires :
      is_some a.stop_timer ≡ true
      → on_stop_timeout launches (suc (suc m)) p w
        ≡ stopped relaunch p
            (record w { apps = write w.apps p (some (record a { stop_timer = none })) })
  unfolding on_stop_timeout
  stop_fires e = simp (live, e, writes)

  stop_idle : a.stop_timer ≡ none → on_stop_timeout launches (suc (suc m)) p w ≡ ok tt w
  unfolding on_stop_timeout
  stop_idle e = simp (live, e)

  inactive_fires :
      a.connected ≡ true
      → is_some a.max_inactive_timer ≡ true
      → on_max_inactive_timeout launches (suc (suc m)) p w
        ≡ stop_application relaunch
            (record w { apps = write w.apps p (some (record a { max_inactive_timer = none })) })
  unfolding on_max_inactive_timeout
  inactive_fires c e = simp (live, c, e, writes)

  inactive_idle :
      is_some a.max_inactive_timer ≡ false
      → on_max_inactive_timeout launches (suc (suc m)) p w ≡ ok tt w
  unfolding on_max_inactive_timeout
  inactive_idle e = simp (live, e)

abbrev no_start : Job → Job
no_start j = with_app j (record (j.app) { start_timer = none })

abbrev no_stop : Job → Job
no_stop j = with_app j (record (j.app) { stop_timer = none })

abbrev no_inactive : Job → Job
no_inactive j = with_app j (record (j.app) { max_inactive_timer = none })

cleared :
    (a : Application)
    → (a.use_ipc ≡ false) ⊎ ((a.ws_connected ≡ true) × (a.max_inactive_timer ≡ none))
    → (a.use_ipc ≡ false) ⊎ ((a.ws_connected ≡ true) × (◌≡◌ {A = Option ℕ} none none))
cleared a (inl e) = inl e
cleared a (inr e) = inr (e.0, refl)

module _ (launches : String → Bool) (m : ℕ) (h : Heap) (n : Ptr) (cs : List PlatformCall) where
  pub start_expired-Meets :
      (ph : Phase)
      → AllLive h n (jobs ph)
      → IsWell ph
      → Meets (start_expired ph) (
          at
            (current_live (world h n cs ph))
            (on_start_timeout launches (suc (suc m)))
            (world h n cs ph))
  unfolding start_expired current_live at stop_application
  start_expired-Meets idle l v = Meets-world h n cs idle l v
  start_expired-Meets (starting j qs) l v =
      let w : World = world h n cs (starting j qs) in
      rw
        (
          l.0.0,
          if_true _ _ v.0.start_timer,
          start_fires launches m j.ptr j.app w l.0.0 v.0.connected v.0.start_timer,
        )
        (stop_starting launches (suc m) _ n cs (no_start j) qs
          (AllLive-replace h n j (no_start j).app qs l) v.0.connected v.0.max_inactive_timer v.1)
  start_expired-Meets (running j) l v =
      let w : World = world h n cs (running j) in
      rw (l.0.0, start_idle launches m j.ptr j.app w l.0.0 (ground arith))
        (Meets-world h n cs (running j) l v)
  start_expired-Meets (stopping j qs) l v =
      let w : World = world h n cs (stopping j qs) in
      rw l.0.0 (elim (Bool-cases (is_some j.app.start_timer)) [
        | inl e ↦
            rw (if_true _ _ e, start_fires launches m j.ptr j.app w l.0.0 v.0.connected e)
              (Meets-world _ n cs (stopping (no_start j) qs)
                (AllLive-replace h n j (no_start j).app qs l)
                (
                  record {
                    connected = v.0.connected;
                    ipc = v.0.ipc;
                    ws = v.0.ws;
                    stop_timer = v.0.stop_timer;
                    max_inactive_timer = v.0.max_inactive_timer;
                  },
                  v.1,
                ))
        | inr e ↦
            rw (if_false _ _ e, start_idle launches m j.ptr j.app w l.0.0 e)
              (Meets-world h n cs (stopping j qs) l v)
      ])

  pub stop_expired-Meets :
      (ph : Phase)
      → AllLive h n (jobs ph)
      → IsWell ph
      → Meets (stop_expired launches ph) (
          at
            (current_live (world h n cs ph))
            (on_stop_timeout launches (suc (suc m)))
            (world h n cs ph))
  unfolding stop_expired current_live at
  stop_expired-Meets idle l v = Meets-world h n cs idle l v
  stop_expired-Meets (starting j qs) l v =
      rw
        (
          l.0.0,
          stop_idle launches m j.ptr j.app (world h n cs (starting j qs)) l.0.0 v.0.stop_timer,
        )
        (Meets-world h n cs (starting j qs) l v)
  stop_expired-Meets (running j) l v =
      rw (l.0.0, stop_idle launches m j.ptr j.app (world h n cs (running j)) l.0.0 v.stop_timer)
        (Meets-world h n cs (running j) l v)
  stop_expired-Meets (stopping j qs) l v =
      rw
        (
          l.0.0,
          stop_fires launches m j.ptr j.app (world h n cs (stopping j qs)) l.0.0 v.0.stop_timer,
        )
        (finish-Meets launches m (write h j.ptr (some (no_stop j).app)) n cs (no_stop j) qs
          (AllLive-replace h n j (no_stop j).app qs l) v.0.connected v.1)

  pub inactive_expired-Meets :
      (ph : Phase)
      → AllLive h n (jobs ph)
      → IsWell ph
      → Meets (inactive_expired ph) (
          at
            (current_live (world h n cs ph))
            (on_max_inactive_timeout launches (suc (suc m)))
            (world h n cs ph))
  unfolding inactive_expired current_live at
  inactive_expired-Meets idle l v = Meets-world h n cs idle l v
  inactive_expired-Meets (starting j qs) l v =
      let w : World = world h n cs (starting j qs) in
      rw (l.0.0, inactive_idle launches m j.ptr j.app w l.0.0 (rw v.0.max_inactive_timer))
        (Meets-world h n cs (starting j qs) l v)
  inactive_expired-Meets (stopping j qs) l v =
      let w : World = world h n cs (stopping j qs) in
      rw (l.0.0, inactive_idle launches m j.ptr j.app w l.0.0 (rw v.0.max_inactive_timer))
        (Meets-world h n cs (stopping j qs) l v)
  inactive_expired-Meets (running j) l v =
      let w : World = world h n cs (running j) in
      rw l.0.0 (elim (Bool-cases (is_some j.app.max_inactive_timer)) [
        | inl e ↦
            rw (if_true _ _ e, inactive_fires launches m j.ptr j.app w l.0.0 v.connected e)
              (stop-Meets launches (suc m) (write h j.ptr (some (no_inactive j).app)) n cs
                (running (no_inactive j)) (AllLive-replace h n j (no_inactive j).app [] l)
                (record {
                  connected = v.connected;
                  start_timer = v.start_timer;
                  stop_timer = v.stop_timer;
                  receiver = cleared j.app v.receiver;
                }))
        | inr e ↦
            rw (if_false _ _ e, inactive_idle launches m j.ptr j.app w l.0.0 e)
              (Meets-world h n cs (running j) l v)
      ])
