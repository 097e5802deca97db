-- ===== src/System/Control.antt =====
-- flint/src/flint/handler/SystemControlHandler.cpp. A request's body is a text; `parse` reads it as JSON, and
-- `print` writes JSON. Where the handler returns before it responds, the response is `none`.
use flingd_cc.Base.{String, Bool, true, Option, none, some, [], ◌∷◌, str_eq, if◌then◌else◌}
use flingd_cc.Base.Int.{ℤ}
use flingd_cc.Base.Machine.{Cmd, ok, get, crash, ◌>>=◌, ◌>>◌}
use flingd_cc.Media.Json.{Json, boolean, integer, double, texts, object, end, member}
use flingd_cc.Media.Info.{is_null, at, get_string}
use flingd_cc.Control.Handler.{Response, bare}
use flingd_cc.System.Device.{Device, set_muted, set_volume}

abbrev pub Answer : Type 0 → Type 0
Answer D = Cmd (Device D) (Option Response)

module _ {D : Type 0} (of_int : ℤ → D) where
  -- GetDouble, which reads an integer as well
  unfoldable pub get_double : Json D → Cmd (Device D) D
  get_double (double x) = ok x
  get_double (integer n) = ok (of_int n)
  get_double v = crash

unfoldable pub get_bool : {D : Type 0} → Json D → Cmd (Device D) Bool
get_bool (boolean b) = ok b
get_bool v = crash

module _ {D : Type 0} (print : Json D → String) (parse : String → Json D) (of_int : ℤ → D)
    (same : D → D → Bool) (iequals : String → String → Bool) (length_text : String → String) where
  abbrev pub respond : Response → Answer D
  respond r = ok (some r)

  -- the object that is sent for a setting
  abbrev pub setting : (request_type name : String) → Json D → Json D
  setting request_type name v = object (
      member "success" (boolean true)
        (member "request_type" (texts request_type) (member name v end)))

  abbrev pub json_response : Json D → Response
  json_response v = record {
    status = 200;
    headers = ("Content-Length", length_text (print v)) ∷ ("Content-Type", "application/json") ∷ [];
    content = print v;
  }

  unfoldable pub get_volume : Answer D
  get_volume = do s ← get; respond (json_response (setting "GET_VOLUME" "level" (double s.volume)))

  unfoldable pub get_muted : Answer D
  get_muted = do s ← get; respond (json_response (setting "GET_MUTED" "muted" (boolean s.muted)))

  unfoldable pub set_level : Json D → Answer D
  unfolding get_double set_volume
  set_level v =
      if is_null v
      then ok none
      else (do x ← get_double of_int v; set_volume same x; respond (bare 200))

  unfoldable pub set_mute : Json D → Answer D
  unfolding get_bool set_muted
  set_mute v = if is_null v then ok none else (do b ← get_bool v; set_muted b; respond (bare 200))

  unfoldable pub post_type : String → Json D → Answer D
  unfolding at get_volume get_muted set_level set_mute
  post_type type_ d =
      if iequals type_ "GET_VOLUME"
      then get_volume
      else if iequals type_ "GET_MUTED"
      then get_muted
      else if iequals type_ "SET_VOLUME"
      then (do v ← at "level" d; set_level v)
      else if iequals type_ "SET_MUTED"
      then (do v ← at "muted" d; set_mute v)
      else respond (bare 404)

  unfoldable pub post_json : Json D → Answer D
  unfolding at get_string post_type
  post_json d = if is_null d then ok none else (do
    t ← at "type" d
    if is_null t then ok none else (do type_ ← get_string t; post_type type_ d))

  -- SystemControlHandler::onPost
  unfoldable pub on_post : String → Answer D
  unfolding post_json
  on_post body = if str_eq body "" then respond (bare 400) else post_json (parse body)

  -- SystemControlHandler::SystemControlHandler
  unfoldable pub handle : (method body : String) → Answer D
  unfolding on_post
  handle method body =
      if iequals method "POST"
      then on_post body
      else if iequals method "OPTIONS"
      then respond (bare 200)
      else respond (bare 400)
