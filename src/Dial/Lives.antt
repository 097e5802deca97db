-- ===== src/Dial/Lives.antt =====
-- The life of an application without a receiver under the requests of
-- flint/src/flint/handler/DialHandler.cpp.
use Prim.Native.String.{◌++◌ as ◌&◌}
use flingd_cc.Base.{
  ℕ, suc, String, Bool, true, false, some, List, [], ◌∷◌, str_eq, eq_iff, ◌≡◌, refl, ap, subst,
  arith,
}
use flingd_cc.Base.Int.{ℤ}
use flingd_cc.App.Store.{Ptr, World, ok}
use flingd_cc.App.Events.{step, stop, get_alive_application}
use flingd_cc.App.Phase.{
  Job, idle, running, running_alone, with_app, to, stop_phase, request_phase, step_phase,
}
use flingd_cc.App.Refine.Relation.{Represents, Meets}
use flingd_cc.App.Refine.Steps.{step-Meets}
use flingd_cc.Control.Handler.{Response, bare, service_start}
use flingd_cc.Dial.Handler.{
  Config, get_config, dial_application, refuses_empty, on_get, on_post, on_delete,
}
use flingd_cc.Dial.Phases.{Answers, dial_job, on_post-Answers}

abbrev pub page : (app_id state : String) → Response
page app_id state = record {
  status = 200;
  headers = ("Content-Type", "application/xm") ∷ [];
  content = service_start app_id & (state & "</service>\n");
}

abbrev pub running_state : String
running_state =
    "  <state>running</state>\n  <link rel=\"run\" href=\"run\"/>\n  <additionalData></additionalData>\n"

abbrev pub stopped_state : String
stopped_state = "  <state>stopped</state>\n"

module _ (iequals : String → String → Bool) (replace_last : (text from to_ : String) → String)
    (print_info : String → Bool → ℤ → String) (launches : String → Bool) (m : ℕ)
    (apps : List (String × Config)) (app_id body : String) (c : Config) where
  abbrev pub made : Ptr → Job
  made p = dial_job iequals replace_last print_info app_id body c p

  abbrev alone : Ptr → Job
  alone p = with_app (made p) (running_alone (made p).app)

  get_stopped : (w : World) → Represents w idle → on_get app_id w ≡ ok (page app_id stopped_state) w
  unfolding on_get
  get_stopped w x = simp (ap get_alive_application x.shape)

  get_running :
      (w : World) (p : Ptr)
      → Represents w (running (alone p))
      → on_get app_id w ≡ ok (page app_id running_state) w
  unfolding on_get dial_application
  get_running w p x =
      let same : str_eq app_id app_id ≡ true = ground (arith, eq_iff app_id app_id) in
      simp (ap get_alive_application x.shape, x.lives.0.0, same)

  delete_running :
      (w : World) (p : Ptr)
      → c.use_ipc ≡ false
      → Represents w (running (alone p))
      → (y : World) × (on_delete iequals replace_last print_info launches
            (suc (suc m))
            apps
            app_id
            w
          ≡ ok (bare 200) y)
        × Represents y idle
  unfolding on_delete dial_application step step_phase stop_phase
  delete_running w p u x =
      let same : str_eq app_id app_id ≡ true = ground (arith, eq_iff app_id app_id) in
      let s : Meets (to idle) (step launches (suc (suc m)) stop w) =
        simp (u) at (step-Meets launches m w (running (alone p)) stop x) in
      (s.0, simp (ap get_alive_application x.shape, x.lives.0.0, same, s.1), s.2)

  begun :
      (p : Ptr)
      → launches (made 0).app.app_info_raw ≡ true
      → c.use_ipc ≡ false
      → request_phase launches (made p) idle ≡ to (running (alone p))
  unfolding request_phase dial_application
  begun p l u = rw (l, u) refl

  posted :
      (w : World)
      → get_config iequals app_id apps ≡ some c
      → refuses_empty iequals replace_last print_info body c ≡ false
      → launches (made 0).app.app_info_raw ≡ true
      → c.use_ipc ≡ false
      → Represents w idle
      → (p : Ptr) × Answers
          (201, to (running (alone p)))
          (on_post iequals replace_last print_info launches (suc (suc m)) apps app_id body w)
  posted w k r l u x =
      let a =
        on_post-Answers iequals replace_last print_info launches m apps app_id body c k r w idle
          x in
      (
        a.0,
        subst
            (λ o.
              Answers (201, o)
                (on_post iequals replace_last print_info launches (suc (suc m)) apps app_id body w))
            (begun a.0 l u) a.1,
      )

  -- Where nothing is launched: a POST for an application that is known, which needs no receiver and
  -- which the platform launches, with a body that it allows, is answered with 201; a GET then says
  -- that it is running, a DELETE is answered with 200, a GET after it says that the application is
  -- stopped, and nothing is launched again.
  pub dial_life :
      (w : World)
      → get_config iequals app_id apps ≡ some c
      → refuses_empty iequals replace_last print_info body c ≡ false
      → launches (made 0).app.app_info_raw ≡ true
      → c.use_ipc ≡ false
      → Represents w idle
      → (x y : World) × (on_post iequals replace_last print_info launches
            (suc (suc m))
            apps
            app_id
            body
            w
          ≡ ok (bare 201) x)
        × (on_get app_id x ≡ ok (page app_id running_state) x)
        × (on_delete iequals replace_last print_info launches (suc (suc m)) apps app_id x
            ≡ ok (bare 200) y)
        × (on_get app_id y ≡ ok (page app_id stopped_state) y)
        × Represents y idle
  dial_life w k r l u x =
      let a = posted w k r l u x in
      let b = delete_running a.1.0 a.0 u a.1.2 in
      (a.1.0, b.0, a.1.1, get_running a.1.0 a.0 a.1.2, b.1, get_stopped b.0 b.2, b.2)
