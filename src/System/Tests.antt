-- ===== src/System/Tests.antt =====
-- The settings at a concrete device, with whole numbers for the volume.
use flingd_cc.Base.{ℕ, ◌==◌, String, false, some, [], ◌∷◌, str_eq, ◌≡◌, refl, if◌then◌else◌}
use flingd_cc.Base.Int.{ℤ}
use flingd_cc.Base.Machine.{ok}
use flingd_cc.Media.Json.{Json, null, double}
use flingd_cc.Control.Handler.{bare}
use flingd_cc.System.Device.{Device, on_set_volume}
use flingd_cc.System.Control.{on_post}
use flingd_cc.System.Settings.{set_request, get_request, volume_response, volume_kept}

abbrev quiet : Device ℕ
quiet = record { muted = false; volume = 3; device_name = "tv"; model_name = "m"; calls = [] }

abbrev printed : Json ℕ → String
printed v = "json"

abbrev nothing : String → Json ℕ
nothing t = null

abbrev number : ℤ → ℕ
number n = 0

abbrev size : String → String
size t = "4"

abbrev read : String → Json ℕ
read t =
    if str_eq t "set"
    then set_request printed nothing number (λ a b. a == b) str_eq size "SET_VOLUME" "level"
        (double 7)
    else get_request printed nothing number (λ a b. a == b) str_eq size "GET_VOLUME"

volume_kept_example :
    (t : Device ℕ) × (on_post printed read number (λ a b. a == b) str_eq size "set" quiet
      ≡ ok (some (bare 200)) t)
    × (t.volume ≡ 7)
    × (t.calls ≡ on_set_volume 7 ∷ [])
    × (on_post printed read number (λ a b. a == b) str_eq size "get" t
        ≡ ok (some (volume_response printed read number (λ a b. a == b) str_eq size t.volume)) t)
volume_kept_example =
    volume_kept printed read number (λ a b. a == b) str_eq size quiet 7 "set" "get" refl refl refl
      refl refl refl refl refl
