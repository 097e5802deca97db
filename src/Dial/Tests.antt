-- ===== src/Dial/Tests.antt =====
-- The DIAL requests at concrete worlds.
use flingd_cc.Base.{String, Bool, true, none, some, [], str_eq, ◌≡◌, refl, inr, arith, zero, suc}
use flingd_cc.Base.Int.{ℤ, negsuc}
use flingd_cc.App.Object.{Application, new_application}
use flingd_cc.App.Store.{Ptr, Heap, World, ok, empty_world}
use flingd_cc.App.Phase.{Job, Phase, idle, running}
use flingd_cc.App.Refine.Relation.{Represents, world}
use flingd_cc.Control.Handler.{bare}
use flingd_cc.Dial.Handler.{youtube, init, get_config, on_get, on_post, on_delete}
use flingd_cc.Dial.Phases.{Answers, post_phase, dial_job, on_post-Answers}
use flingd_cc.Dial.Lives.{page, running_state, stopped_state, dial_life}

abbrev accepts : String → Bool
accepts s = true

-- The pattern stands in the URL of the one application that is known.
abbrev with_body : (text from to_ : String) → String
with_body text from body = "https://www.youtube.com/tv?v=1"

abbrev info : String → Bool → ℤ → String
info url ipc inactive = url

abbrev player : Application
player = record (new_application "~a" "http://a" true (negsuc 0) "a") {
  app_state = "running";
  connected = true;
  ws_connected = true;
}

abbrev player_job : Job
player_job = record { ptr = 0; app = player }

abbrev heap : Heap
heap p = elim p [ zero ↦ some player | suc q ↦ none ]

abbrev playing : Phase
playing = running player_job

playing-Represents : Represents (world heap 1 [] playing) playing
playing-Represents = record {
  shape = refl;
  lives = ((refl, omega arith), tt, tt);
  well = record {
    connected = refl;
    start_timer = refl;
    stop_timer = refl;
    receiver = inr (refl, refl);
  };
}

on_post-Answers_example :
    (p : Ptr) × Answers
      (post_phase accepts (dial_job str_eq with_body info "YouTube" "v=1" youtube p) playing)
      (on_post str_eq with_body info accepts 2 init "YouTube" "v=1" (world heap 1 [] playing))
unfolding init get_config youtube
on_post-Answers_example =
    on_post-Answers str_eq with_body info accepts 0 init "YouTube" "v=1" youtube refl refl
      (world heap 1 [] playing) playing playing-Represents

dial_life_example :
    (x y : World) × (on_post str_eq with_body info accepts 2 init "YouTube" "v=1" empty_world
      ≡ ok (bare 201) x)
    × (on_get "YouTube" x ≡ ok (page "YouTube" running_state) x)
    × (on_delete str_eq with_body info accepts 2 init "YouTube" x ≡ ok (bare 200) y)
    × (on_get "YouTube" y ≡ ok (page "YouTube" stopped_state) y)
    × Represents y idle
unfolding init get_config youtube
dial_life_example =
    dial_life str_eq with_body info accepts 0 init "YouTube" "v=1" youtube empty_world refl refl
      refl refl (record { shape = refl; lives = tt; well = tt })
