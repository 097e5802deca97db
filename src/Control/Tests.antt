-- ===== src/Control/Tests.antt =====
-- The requests of senders at concrete states.
use flingd_cc.Base.{◌≡◌, refl, String, Bool, true, false, none, some, List, [], ◌∷◌, arith, eq_iff}
use flingd_cc.Base.{ℕ}
use flingd_cc.Base.Int.{negsuc}
use flingd_cc.App.Object.{Application, new_application}
use flingd_cc.App.Store.{World, empty_world, ok, write}
use flingd_cc.Sessions.Manager.{SessionManager, check_sender, disconnect_sender}
use flingd_cc.Sessions.Laws.{IsValid, Operation, creates_sender, touches_sender}
use flingd_cc.Sessions.View.{run}
use flingd_cc.Control.Handler.{bare, on_get, on_delete}
use flingd_cc.Control.Answers.{on_delete-refuses}

abbrev sessions : SessionManager
sessions = record {
  senders = ("t1", record { token = "t1"; app_id = "~a"; deadline = some 10; closed = false }) ∷ [];
  receiver = none;
  listener = none;
}

sessions-IsValid : IsValid sessions
sessions-IsValid = record { distinct = (tt, tt); keyed = (refl, refl, refl, tt) }

one_sender_known : check_sender "t1" sessions ≡ true
unfolding check_sender
one_sender_known = refl

abbrev later_operations : List Operation
later_operations = creates_sender 3 "t2" "~b" ∷ touches_sender 4 "t1" ∷ []

abbrev accepts : String → Bool
accepts s = true

on_delete-refuses_example :
    (on_delete accepts 2 false "t1" "~a" sessions empty_world
      ≡ ok ((disconnect_sender "t1" sessions).0, some (bare 200)) empty_world)
    × (let m' = run later_operations (disconnect_sender "t1" sessions).0 in
        (on_get 5 "t1" "~b" m' empty_world ≡ ok (m', some (bare 400)) empty_world)
        × (on_delete accepts 2 true "t1" "~b" m' empty_world
            ≡ ok (m', some (bare 400)) empty_world))
on_delete-refuses_example =
    on_delete-refuses accepts 2 5 true "t1" "~a" "~b" sessions empty_world empty_world
      later_operations sessions-IsValid (λ e. ground (arith, eq_iff "t1" "")) one_sender_known
      (refl, (refl, tt))

abbrev player : Application
player = new_application "~a" "http://a" true (negsuc 0) "raw"

abbrev playing : World
playing = record empty_world {
  apps = write empty_world.apps 0 (some player);
  next = 1;
  top = some 0;
}

abbrev printed : String → ℕ → String
printed token interval = token
