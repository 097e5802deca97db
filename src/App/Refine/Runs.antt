-- ===== src/App/Refine/Runs.antt =====
-- Whole runs, and what happens after a refused launch.
use flingd_cc.Base.{
  ℕ, suc, ◌≡◌, ◌≢◌, ◌↔◌, refl, ◌∙◌, String, Bool, true, false, some, List, [], ◌∷◌, ◌⊎◌, inl, inr,
  arith, str_eq,
}
use flingd_cc.Base.Int.{ℤ}
use flingd_cc.App.Object.{new_application}
use flingd_cc.App.Store.{World, Run, ok, fault, out_of_fuel, empty_world, write, and_then, Cmd}
use flingd_cc.App.Manager.{launch, stop_application}
use flingd_cc.App.Events.{
  Event, request, stop, registers, closes, start_expires, stop_expires, inactive_expires, step, run,
}
use flingd_cc.App.Phase.{
  Job, Phase, idle, starting, running, stopping, Outcome, to, crash, broken, stops_at_once,
  stop_phase, step_phase, request_phase, begin,
}
use flingd_cc.App.Refine.Relation.{Represents, Meets, IsBroken}
use flingd_cc.App.Refine.Writes.{write-ne}
use flingd_cc.App.Refine.Dangling.{launch-dangling_starting}
use flingd_cc.App.Refine.Steps.{step-Meets}

-- A world in which the handlers leave the manager.
abbrev pub Steady : World → Type 0
Steady w = ((ph : Phase) × Represents w ph) ⊎ IsBroken w

-- A run faults, or ends in such a world.
pub data Ends (r : Run (Unit {0})) : Type 0 where
  faults : r ≡ fault → Ends r
  rests : (w : World) → r ≡ ok tt w → Steady w → Ends r

Meets-Ends : (o : Outcome) (r : Run (Unit {0})) → Meets o r → Ends r
Meets-Ends (to ph) r (w, e, x) = rests w e (inl (ph, x))
Meets-Ends crash r e = faults e
Meets-Ends broken r (w, e, x) = rests w e (inr x)

module _ (launches : String → Bool) (m : ℕ) (w : World) (b : IsBroken w) where
  broken-request :
      (id url : String) (ipc : Bool) (inactive : ℤ) (info : String)
      → step launches (suc (suc m)) (request id url ipc inactive info) w ≡ fault
  unfolding step
  broken-request id url ipc inactive info =
      let made = some (new_application id url ipc inactive info) in
      launch-dangling_starting launches (suc m) b.ptr w.next
        (record w { apps = write w.apps w.next made; next = suc w.next }) b.held
        (write-ne w.apps w.next b.ptr made (omega (arith, b.old)) ∙ b.deleted)

  broken-stop : stop_application (launch launches (suc (suc m))) w ≡ fault
  unfolding stop_application
  broken-stop = simp (b.held, b.no_top, b.no_stopping, b.deleted)

  broken-step : (e : Event) → Ends (step launches (suc (suc m)) e w)
  unfolding step
  broken-step (request id url ipc inactive info) = faults (broken-request id url ipc inactive info)
  broken-step stop = faults broken-stop
  broken-step (registers id) = faults (simp (b.held, b.no_top, b.deleted))
  broken-step (closes id) = faults (simp (b.held, b.no_top, b.no_stopping, b.deleted))
  broken-step start_expires = rests w (simp (b.held, b.no_top, b.deleted)) (inr b)
  broken-step stop_expires = rests w (simp (b.held, b.no_top, b.deleted)) (inr b)
  broken-step inactive_expires = rests w (simp (b.held, b.no_top, b.deleted)) (inr b)

Ends-bind :
    (r : Run (Unit {0})) (k : Cmd (Unit {0}))
    → Ends r
    → ((w : World) → Steady w → Ends (k w))
    → Ends (and_then r (λ _. k))
Ends-bind r k (faults e) g = rw e (faults refl)
Ends-bind r k (rests w e s) g = rw e (g w s)

module _ (launches : String → Bool) (m : ℕ) where
  pub step-Ends : (w : World) → Steady w → (e : Event) → Ends (step launches (suc (suc m)) e w)
  step-Ends w (inl (ph, x)) e = Meets-Ends _ _ (step-Meets launches m w ph e x)
  step-Ends w (inr b) e = broken-step launches m w b e

  run-Ends : (es : List Event) (w : World) → Steady w → Ends (run launches (suc (suc m)) es w)
  unfolding run
  run-Ends [] w s = rests w refl s
  run-Ends (e ∷ es) w s =
      Ends-bind (step launches (suc (suc m)) e w) (run launches (suc (suc m)) es) (step-Ends w s e)
        (run-Ends es)

  Ends-ne : (r : Run (Unit {0})) → Ends r → r ≢ out_of_fuel
  Ends-ne r (faults e) f = ground arith
  Ends-ne r (rests w e s) f = ground arith

  -- Whatever the events, the manager's calls of itself never nest more than twice: with room for
  -- two nested launches a run from the start never stops for want of fuel, and it ends in a fault
  -- or in a world that represents a phase or is broken.
  pub run-total :
      (es : List Event)
      → (run launches (suc (suc m)) es empty_world ≢ out_of_fuel)
        × Ends (run launches (suc (suc m)) es empty_world)
  run-total es =
      let e =
        run-Ends es empty_world (inl (idle, record { shape = refl; lives = tt; well = tt })) in
      (Ends-ne _ e, e)

  -- After a refused launch with nothing waiting (a broken world) the manager holds a pointer to
  -- the deleted application, and a request, a stop, a registration and a closed receiver each fault.
  pub broken-faults :
      (w : World)
      → IsBroken w
      → ((id url : String) (ipc : Bool) (inactive : ℤ) (info : String)
          → step launches (suc (suc m)) (request id url ipc inactive info) w ≡ fault)
        × (step launches (suc (suc m)) stop w ≡ fault)
        × ((id : String) → step launches (suc (suc m)) (registers id) w ≡ fault)
        × ((id : String) → step launches (suc (suc m)) (closes id) w ≡ fault)
  unfolding step
  broken-faults w b = (
    broken-request launches m w b,
    broken-stop launches m w b,
    λ id. simp (b.held, b.no_top, b.deleted),
    λ id. simp (b.held, b.no_top, b.no_stopping, b.deleted),
  )

-- Applications wait behind one that is starting and whose receiver has not registered.
abbrev pub IsCrowded : Phase → Type 0
IsCrowded (starting j (q ∷ qs)) = stops_at_once j.app ≡ true
IsCrowded ph = ⊥

IsCrowded-crash : (ph : Phase) → (stop_phase ph ≡ crash) ↔ IsCrowded ph
unfolding stop_phase
IsCrowded-crash idle = ((λ e. cc), λ c. absurd c)
IsCrowded-crash (starting j []) = ((λ e. ground arith), λ c. absurd c)
IsCrowded-crash (starting j (q ∷ qs)) = ((λ e. ground arith), λ c. ground arith)
IsCrowded-crash (running j) = ((λ e. ground arith), λ c. absurd c)
IsCrowded-crash (stopping j qs) = ((λ e. cc), λ c. absurd c)

Meets-fault : (o : Outcome) (r : Run (Unit {0})) → Meets o r → (r ≡ fault) ↔ (o ≡ crash)
Meets-fault (to ph) r (w, e, x) = ((λ f. ground arith), λ f. cc)
Meets-fault crash r e = ((λ f. refl), λ f. e)
Meets-fault broken r (w, e, x) = ((λ f. ground arith), λ f. cc)

abbrev pub NeedsRoom : Job → Phase → Type 0
NeedsRoom q (running j) = (str_eq j.app.app_id q.app.app_id ≡ false) × (stops_at_once j.app ≡ true)
NeedsRoom q ph = ⊥

NeedsRoom-crash :
    (launches : String → Bool) (q : Job) (ph : Phase)
    → (request_phase launches q ph ≡ crash) ↔ NeedsRoom q ph
unfolding request_phase begin
NeedsRoom-crash launches q idle = ((λ e. ground arith), λ c. absurd c)
NeedsRoom-crash launches q (starting j qs) = ((λ e. ground arith), λ c. absurd c)
NeedsRoom-crash launches q (running j) = ((λ e. ground arith), λ c. ground arith)
NeedsRoom-crash launches q (stopping j qs) = ((λ e. cc), λ c. absurd c)

module _ (launches : String → Bool) (m : ℕ) where
  -- In a world that represents a phase, a stop uses a deleted application exactly when one is
  -- starting whose receiver is unknown (it stops at once) and others wait behind it.
  pub stop-fault_iff :
      (w : World) (ph : Phase)
      → Represents w ph
      → (step launches (suc (suc m)) stop w ≡ fault) ↔ IsCrowded ph
  unfolding step_phase
  stop-fault_iff w ph x =
      let f = Meets-fault _ _ (step-Meets launches m w ph stop x) in
      let c = IsCrowded-crash ph in ((λ e. c.0 (f.0 e)), λ e. f.1 (c.1 e))

  -- In a world that represents a phase, a request uses a deleted application exactly when another
  -- application, with another identifier, is running that stops at once.
  pub request-fault_iff :
      (w : World) (ph : Phase) (id url : String) (ipc : Bool) (inactive : ℤ) (info : String)
      → Represents w ph
      → (step launches (suc (suc m)) (request id url ipc inactive info) w ≡ fault)
        ↔ NeedsRoom (record { ptr = w.next; app = new_application id url ipc inactive info }) ph
  unfolding step_phase
  request-fault_iff w ph id url ipc inactive info x =
      let q : Job = record { ptr = w.next; app = new_application id url ipc inactive info } in
      let e : Event = request id url ipc inactive info in
      let f = Meets-fault _ _ (step-Meets launches m w ph e x) in
      let c = NeedsRoom-crash launches q ph in ((λ h. c.0 (f.0 h)), λ h. f.1 (c.1 h))
