-- ===== src/Dial/Phases.antt =====
-- What the requests of flint/src/flint/handler/DialHandler.cpp do, in the terms of the abstract machine of
-- the application manager.
use flingd_cc.Base.{
  ℕ, suc, String, Bool, true, false, Option, none, some, List, [], ◌∷◌, str_eq, ◌≡◌, refl, ap,
  if◌then◌else◌, arith, Bool-cases, inl, inr,
}
use flingd_cc.Base.Int.{ℤ}
use flingd_cc.App.Object.{Application}
use flingd_cc.App.Store.{Ptr, World, Run, Cmd, ok, fault, out_of_fuel, pure, and_then, ◌>>=◌}
use flingd_cc.App.Events.{Event, step, request, stop, get_alive_application}
use flingd_cc.App.Phase.{
  Job, Phase, idle, starting, running, stopping, Outcome, to, crash, broken, bind_outcome,
  stop_phase, request_phase, step_phase,
}
use flingd_cc.App.Refine.Relation.{Represents, IsBroken, Meets}
use flingd_cc.App.Refine.Steps.{step-Meets}
use flingd_cc.Control.Handler.{Response, bare}
use flingd_cc.Dial.Handler.{
  Config, get_config, dial_application, refuses_empty, launch_dial, launch_status, on_post,
}

-- the application that a phase shows as alive
abbrev pub alive_job : Phase → Option Job
alive_job idle = none
alive_job (starting j qs) = some j
alive_job (running j) = some j
alive_job (stopping j []) = none
alive_job (stopping j (q ∷ qs)) = some q

-- A POST for an application, as a job at an address: its status, and what becomes of the phase.
abbrev pub post_alive : (String → Bool) → Job → Option Job → Phase → ℕ × Outcome
post_alive launches q none ph = (201, request_phase launches q ph)
post_alive launches q (some j) ph =
    if str_eq j.app.app_id q.app.app_id
    then (200, to ph)
    else (201, bind_outcome (stop_phase ph) (request_phase launches q))

abbrev pub post_phase : (String → Bool) → Job → Phase → ℕ × Outcome
post_phase launches q ph = post_alive launches q (alive_job ph) ph

-- A request ends with a bare status and as the machine does.
abbrev pub Answers : ℕ × Outcome → Run Response → Type 0
Answers (s, to ph) r = (w : World) × (r ≡ ok (bare s) w) × Represents w ph
Answers (s, crash) r = r ≡ fault
Answers (s, broken) r = (w : World) × (r ≡ ok (bare s) w) × IsBroken w

Meets-Answers :
    (s : ℕ) (o : Outcome) (r : Run (Unit {0}))
    → Meets o r
    → Answers (s, o) (and_then r (λ a. pure (bare s)))
Meets-Answers s (to ph) r m = (m.0, rw (m.1) refl, m.2)
Meets-Answers s crash r m = rw m refl
Meets-Answers s broken r m = (m.0, rw (m.1) refl, m.2)

abbrev Unbroken : Outcome → Type 0
Unbroken broken = ⊥
Unbroken o = Unit {0}

-- A stop leaves no pointer to a deleted application.
stop_phase-Unbroken : (ph : Phase) → Unbroken (stop_phase ph)
unfolding stop_phase
stop_phase-Unbroken idle = tt
stop_phase-Unbroken (starting j []) = ground arith
stop_phase-Unbroken (starting j (q ∷ qs)) = ground arith
stop_phase-Unbroken (running j) = ground arith
stop_phase-Unbroken (stopping j qs) = tt

-- The answer to a launch, as the code composes it.
launch_answer :
    (r : Run (Unit {0}))
    → and_then
        (and_then (and_then r (λ a. pure true)) (λ b. pure (launch_status b)))
        (λ s. pure (bare s))
      ≡ and_then r (λ a. pure (bare 201))
launch_answer (ok a w) = refl
launch_answer fault = refl
launch_answer out_of_fuel = refl

module _ (iequals : String → String → Bool) (replace_last : (text from to_ : String) → String)
    (print_info : String → Bool → ℤ → String) where
  -- the application that a POST creates, at an address
  abbrev pub dial_job : String → String → Config → Ptr → Job
  dial_job app_id body c p = record {
    ptr = p;
    app = dial_application iequals replace_last print_info app_id body c;
  }

module _ (iequals : String → String → Bool) (replace_last : (text from to_ : String) → String)
    (print_info : String → Bool → ℤ → String) (launches : String → Bool) (m : ℕ)
    (apps : List (String × Config)) (app_id body : String) (c : Config)
    (known : get_config iequals app_id apps ≡ some c)
    (allowed : refuses_empty iequals replace_last print_info body c ≡ false) where
  abbrev job : Ptr → Job
  job p = dial_job iequals replace_last print_info app_id body c p

  abbrev post : Cmd Response
  post = on_post iequals replace_last print_info launches (suc (suc m)) apps app_id body

  abbrev launched : Event
  launched =
      let url = replace_last c.url "$POST_DATA" body in
      request app_id url c.use_ipc c.max_inactive (print_info url c.use_ipc c.max_inactive)

  abbrev launch_then : Cmd Response
  launch_then w = and_then (step launches (suc (suc m)) launched w) (λ a. pure (bare 201))

  post_alone : (w : World) → get_alive_application w ≡ none → post w ≡ launch_then w
  unfolding on_post step
  post_alone w e = simp (known, allowed, e) (launch_answer _)

  post_same :
      (w : World) (p : Ptr) (a : Application)
      → get_alive_application w ≡ some p
      → w.apps p ≡ some a
      → str_eq a.app_id app_id ≡ true
      → post w ≡ ok (bare 200) w
  unfolding on_post
  post_same w p a e l i = simp (known, allowed, e, l, i)

  abbrev status : Cmd ℕ
  status =
      launch_dial iequals replace_last print_info launches (suc (suc m)) apps
        (some (dial_application iequals replace_last print_info app_id body c))
      >>= (λ b. pure (launch_status b))

  stop_launch :
      (r : Run (Unit {0}))
      → and_then (and_then r (λ a. status)) (λ s. pure (bare s)) ≡ and_then r (λ x. launch_then)
  unfolding launch_dial step dial_application
  stop_launch (ok a w) = launch_answer (step launches (suc (suc m)) launched w)
  stop_launch fault = refl
  stop_launch out_of_fuel = refl

  post_other :
      (w : World) (p : Ptr) (a : Application)
      → get_alive_application w ≡ some p
      → w.apps p ≡ some a
      → str_eq a.app_id app_id ≡ false
      → post w ≡ and_then (step launches (suc (suc m)) stop w) (λ x. launch_then)
  unfolding on_post step
  post_other w p a e l i =
      simp (known, allowed, e, l, i) (stop_launch (step launches (suc (suc m)) stop w))

  launch-Answers :
      (w : World) (ph : Phase)
      → Represents w ph
      → Answers (201, request_phase launches (job w.next) ph) (launch_then w)
  unfolding step_phase dial_application
  launch-Answers w ph x = Meets-Answers 201 _ _ (step-Meets launches m w ph launched x)

  after_stop :
      (o : Outcome) (r : Run (Unit {0}))
      → Unbroken o
      → Meets o r
      → (p : Ptr) × Answers
          (201, bind_outcome o (request_phase launches (job p)))
          (and_then r (λ x. launch_then))
  after_stop (to ph) r u x = (x.0.next, rw (x.1) (launch-Answers x.0 ph x.2))
  after_stop crash r u x = (0, rw x refl)
  after_stop broken r u x = absurd u

  other-Answers :
      (w : World) (ph : Phase)
      → Represents w ph
      → (p : Ptr) × Answers
          (201, bind_outcome (stop_phase ph) (request_phase launches (job p)))
          (and_then (step launches (suc (suc m)) stop w) (λ x. launch_then))
  unfolding step_phase
  other-Answers w ph x =
      after_stop (stop_phase ph) _ (stop_phase-Unbroken ph) (step-Meets launches m w ph stop x)

  -- the answer beside an application that is alive
  beside-Answers :
      (w : World) (ph : Phase) (j : Job)
      → get_alive_application w ≡ some j.ptr
      → w.apps j.ptr ≡ some j.app
      → Represents w ph
      → (p : Ptr) × Answers (post_alive launches (job p) (some j) ph) (post w)
  unfolding dial_application
  beside-Answers w ph j e l x = elim (Bool-cases (str_eq j.app.app_id app_id)) [
    | inl i ↦ (0, rw (i) (w, post_same w j.ptr j.app e l i, x))
    | inr i ↦ let o = other-Answers w ph x in (o.0, rw (i, post_other w j.ptr j.app e l i) o.1)
  ]

  -- A POST for an application that is known, with a body that it allows, in a world that represents a
  -- phase, with room for two nested launches: where no application is alive it launches the application
  -- and is answered with 201; where this application is alive, with 200, and nothing changes; where
  -- another one is alive, it stops this, then launches the application, and is answered with 201. The
  -- launch and the stop end as the abstract machine says, in a crash without an answer where it crashes.
  pub on_post-Answers :
      (w : World) (ph : Phase)
      → Represents w ph
      → (p : Ptr) × Answers
          (post_phase launches (dial_job iequals replace_last print_info app_id body c p) ph)
          (on_post iequals replace_last print_info launches (suc (suc m)) apps app_id body w)
  unfolding get_alive_application
  on_post-Answers w idle x =
      (w.next, rw (post_alone w (ap get_alive_application x.shape)) (launch-Answers w idle x))
  on_post-Answers w (starting j qs) x =
      beside-Answers w (starting j qs) j (ap get_alive_application x.shape) x.lives.0.0 x
  on_post-Answers w (running j) x =
      beside-Answers w (running j) j (ap get_alive_application x.shape) x.lives.0.0 x
  on_post-Answers w (stopping j []) x = (
    w.next,
    rw (post_alone w (ap get_alive_application x.shape)) (launch-Answers w (stopping j []) x),
  )
  on_post-Answers w (stopping j (q ∷ qs)) x =
      beside-Answers w (stopping j (q ∷ qs)) q (ap get_alive_application x.shape) x.lives.2.0.0 x
