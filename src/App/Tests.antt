-- ===== src/App/Tests.antt =====
-- Runs of the manager, and the theorems at concrete worlds.
use flingd_cc.Base.{
  zero, suc, ◌≡◌, ◌≢◌, ◌↔◌, refl, String, Bool, true, false, none, some, [], ◌∷◌, arith,
}
use flingd_cc.Base.Int.{pos, negsuc}
use flingd_cc.App.Object.{Application, new_application}
use flingd_cc.App.Store.{Heap, World, fault, out_of_fuel, empty_world, write}
use flingd_cc.App.Events.{request, stop, registers, start_expires, step, run}
use flingd_cc.App.Phase.{Job, Phase, starting, step_phase, awaiting_start}
use flingd_cc.App.Refine.Relation.{Represents, Meets, IsBroken, world}
use flingd_cc.App.Refine.Steps.{step-Meets}
use flingd_cc.App.Refine.Runs.{
  Ends, run-total, stop-fault_iff, request-fault_iff, IsCrowded, NeedsRoom,
}

-- The platform accepts everything, or nothing.
abbrev accepts : String → Bool
accepts s = true

abbrev refuses : String → Bool
refuses s = false

abbrev first : Application
first = new_application "~a" "http://a" true (negsuc 0) "a"

abbrev second : Application
second = new_application "~b" "http://b" false (pos 5000) "b"

-- A receiver that does not register in time, with another application waiting.
crowded_start :
    run accepts 2
      (request "~a" "http://a" true (negsuc 0) "a"
        ∷ request "~b" "http://b" true (negsuc 0) "b"
        ∷ start_expires
        ∷ [])
      empty_world
    ≡ fault
unfolding run write
crowded_start = refl

abbrev heap : Heap
heap p = elim p [
  | zero ↦ some (awaiting_start first)
  | suc q ↦ elim q [ zero ↦ some second | suc r ↦ none ]
]

abbrev first_job : Job
first_job = record { ptr = 0; app = awaiting_start first }

abbrev second_job : Job
second_job = record { ptr = 1; app = second }

-- The first application is starting, the second waits.
abbrev crowded : Phase
crowded = starting first_job (second_job ∷ [])

crowded-Represents : Represents (world heap 2 [] crowded) crowded
crowded-Represents = record {
  shape = refl;
  lives = ((refl, omega arith), ((omega arith), tt), ((refl, omega arith), tt, tt));
  well = (
    record {
      connected = refl;
      ipc = refl;
      start_timer = refl;
      stop_timer = refl;
      max_inactive_timer = refl;
    },
    (
      record { connected = refl; start_timer = refl; stop_timer = refl; max_inactive_timer = refl },
      tt,
    ),
  );
}

step-Meets_example :
    Meets
      (step_phase accepts 2 (registers "~a") crowded)
      (step accepts 2 (registers "~a") (world heap 2 [] crowded))
step-Meets_example =
    step-Meets accepts 0 (world heap 2 [] crowded) crowded (registers "~a") crowded-Represents

run-total_example :
    (run accepts 2 (request "~a" "http://a" true (negsuc 0) "a" ∷ start_expires ∷ []) empty_world
      ≢ out_of_fuel)
    × Ends (
        run accepts 2
          (request "~a" "http://a" true (negsuc 0) "a" ∷ start_expires ∷ [])
          empty_world)
run-total_example =
    run-total accepts 0 (request "~a" "http://a" true (negsuc 0) "a" ∷ start_expires ∷ [])

stop-fault_iff_example : (step accepts 2 stop (world heap 2 [] crowded) ≡ fault) ↔ IsCrowded crowded
stop-fault_iff_example =
    stop-fault_iff accepts 0 (world heap 2 [] crowded) crowded crowded-Represents

request-fault_iff_example :
    (step accepts 2 (request "~c" "http://c" true (negsuc 0) "c") (world heap 2 [] crowded) ≡ fault)
    ↔ NeedsRoom
        (record { ptr = 2; app = new_application "~c" "http://c" true (negsuc 0) "c" })
        crowded
request-fault_iff_example =
    request-fault_iff accepts 0 (world heap 2 [] crowded) crowded "~c" "http://c" true (negsuc 0)
      "c" crowded-Represents

-- What a refused launch leaves behind.
abbrev after_refusal : World
after_refusal = record empty_world { next = 1; starting = some 0 }

after_refusal-IsBroken : IsBroken after_refusal
after_refusal-IsBroken = record {
  ptr = 0;
  held = refl;
  no_top = refl;
  no_stopping = refl;
  old = omega arith;
  deleted = refl;
}
