-- ===== src/Control/Handler.antt =====
-- flint/src/flint/handler/ApplicationControlHandler.cpp: GET, POST, DELETE and OPTIONS on an
-- application, over the application manager and the sessions. The body of a POST is given parsed, and
-- the information on an application both as fields and as text. The boost functions on texts
-- are parameters. Logging is not modelled.
use Prim.Native.String.{◌++◌ as ◌&◌}
use flingd_cc.Base.{
  ℕ, String, Bool, ◌||◌, ◌&&◌, not, Option, none, some, List, [], ◌∷◌, str_eq, if◌then◌else◌,
}
use flingd_cc.Base.Int.{ℤ}
use flingd_cc.App.Object.{new_application}
use flingd_cc.App.Store.{Ptr, Cmd, fault, pure, ◌>>=◌, ◌>>◌, get, load, allocate}
use flingd_cc.App.Manager.{stop_application, launch}
use flingd_cc.App.Events.{get_alive_application}
use flingd_cc.Sessions.Manager.{
  SessionManager, check_sender, touch_sender, create_sender, disconnect_sender,
}

pub record AppInfo : Type 0 where
  pub url : String
  pub use_ipc : Bool
  pub max_inactive : ℤ
  pub raw : String

-- What rapidjson makes of the body of a POST. In the Release builds, without assertions, a member that
-- is missing is null, and to read of a value what it is not is undefined, and here a fault. A body without
-- a type, or then without app_info, is one in which this is null. In a message the type is none if it is no
-- text, and the information on the application if one of the members that doLaunch reads is of another
-- type. The members of a body that is neither null nor an object are undefined.
pub data Body : Type 0 where
  empty_body : Body
  null_body : Body
  ill_formed : Body
  no_type : Body
  no_app_info : Body
  message : Option String → Option AppInfo → Body

pub record Response : Type 0 where
  pub status : ℕ
  pub headers : List (String × String)
  pub content : String

-- the request: its body parsed, and no "authorization" header as an empty text
pub record HttpRequest : Type 0 where
  pub resource : String
  pub method : String
  pub authorization : String
  pub body : Body

-- what onPost decides: to refuse, or to answer with a status and the token
pub data Verdict : Type 0 where
  refused : Verdict
  accepted : ℕ → Verdict

abbrev pub bare : ℕ → Response
bare status = record { status = status; headers = []; content = "" }

abbrev pub Answer : Type 0
Answer = SessionManager × Option Response

-- a response that needs nothing else
abbrev pub respond : SessionManager → ℕ → Cmd Answer
respond m status = pure (m, some (bare status))

unfoldable pub service_start : String → String
service_start app_id =
    "<?xml version='1.0' encoding='UTF-8'?>\n"
    & ("<service xmlns='urn:dial-multiscreen-org:schemas:dial'>\n"
        & ("  <name>" & (app_id & "</name>\n  <options allowStop='true'/>\n")))

unfoldable pub service_stopped : String
service_stopped = "  <state>stopped</state>\n"

unfoldable pub service_state : String → Option Ptr → Cmd String
unfolding load service_stopped
service_state app_id none = pure service_stopped
service_state app_id (some p) = do
  a ← load p
  pure (
      if str_eq a.app_id app_id
      then "  <state>"
        & (a.app_state
            & ("</state>\n  <link rel=\"run\" href=\"run\"/>\n  <additionalData>"
                & (a.additional_data & "</additionalData>\n")))
      else service_stopped)

-- the part of onGet behind the check of the token
unfoldable pub describe : String → SessionManager → Cmd Answer
unfolding service_start service_state get_alive_application
describe app_id m = do
  w ← get
  state ← service_state app_id (get_alive_application w)
  pure (
    m,
    some (record {
      status = 200;
      headers = ("Content-Type", "application/xm") ∷ [];
      content = service_start app_id & (state & "</service>\n");
    }),
  )

-- ApplicationControlHandler::onGet
unfoldable pub on_get : ℕ → String → String → SessionManager → Cmd Answer
unfolding check_sender touch_sender describe
on_get now token app_id m =
    if str_eq token ""
    then describe app_id m
    else if check_sender token m
    then describe app_id (touch_sender now token m).0
    else respond m 400

-- ApplicationControlHandler::onOptions
unfoldable pub on_options : SessionManager → Cmd Answer
on_options m = respond m 200

-- what is sent for a verdict; `print_json` writes the token and the interval
unfoldable pub post_answer : (String → ℕ → String) → String → SessionManager → Verdict → Answer
post_answer print_json token m refused = (m, some (bare 400))
post_answer print_json token m (accepted status) = (
  m,
  some (record {
    status = status;
    headers =
        ("Cache-Control", "no-cache, must-revalidate, no-store")
        ∷ ("Content-Type", "application/json")
        ∷ [];
    content = print_json token 3000;
  }),
)

-- The session of the token is touched, or one is created for a new token.
unfoldable pub post_session :
    ℕ → String → String → String → SessionManager → SessionManager × String
unfolding touch_sender create_sender
post_session now new_token token app_id m =
    if str_eq token ""
    then (let (m', s) = create_sender now new_token app_id m in (m', s.token))
    else ((touch_sender now token m).0, token)

module _ (ierase_all : String → String → String) where
  unfoldable pub parse_app_id : String → String
  parse_app_id path = ierase_all (ierase_all path "/apps/") "/run"

  unfoldable pub is_running_instance : String → String → Bool
  is_running_instance path app_id = str_eq (ierase_all (ierase_all path "/apps/") app_id) "/run"

module _ (launches : String → Bool) (n : ℕ) where
  unfoldable pub do_launch : String → Option AppInfo → Cmd (Unit {0})
  unfolding allocate launch
  do_launch app_id none = λ w. fault
  do_launch app_id (some info) = do
    p ← allocate (new_application app_id info.url info.use_ipc info.max_inactive info.raw)
    launch launches n p

  unfoldable pub do_stop : Cmd (Unit {0})
  unfolding stop_application launch
  do_stop = stop_application (launch launches n)

  -- `doStop`, then `doLaunch`
  unfoldable pub stop_and_launch : String → Option AppInfo → Cmd (Unit {0})
  unfolding do_launch do_stop
  stop_and_launch app_id info = do do_stop; do_launch app_id info

  -- onPost by its type, beside the application that is alive
  unfoldable pub post_beside : String → String → Option AppInfo → Option Ptr → Cmd Verdict
  unfolding load do_launch stop_and_launch
  post_beside type_ app_id info none =
      if str_eq type_ "launch"
      then (do do_launch app_id info; pure (accepted 201))
      else if str_eq type_ "relaunch"
      then pure refused
      else if str_eq type_ "join"
      then pure refused
      else pure (accepted 500)
  post_beside type_ app_id info (some p) = do
    a ← load p
    let same = str_eq a.app_id app_id
    if str_eq type_ "launch"
        then (if same
            then pure (accepted 200)
            else (do stop_and_launch app_id info; pure (accepted 201)))
        else if str_eq type_ "relaunch"
        then (if same then (do stop_and_launch app_id info; pure (accepted 201)) else pure refused)
        else if str_eq type_ "join"
        then (if same then pure (accepted 200) else pure refused)
        else pure (accepted 500)

  -- ApplicationControlHandler::onPost; a body that is not understood is not answered
  unfoldable pub on_post :
      (String → ℕ → String) → ℕ → String → String → String → Body → SessionManager → Cmd Answer
  unfolding post_session post_beside post_answer get_alive_application
  on_post print_json now new_token token app_id empty_body m = respond m 400
  on_post print_json now new_token token app_id null_body m = pure (m, none)
  on_post print_json now new_token token app_id ill_formed m = λ w. fault
  on_post print_json now new_token token app_id no_type m = pure (m, none)
  on_post print_json now new_token token app_id no_app_info m = pure (m, none)
  on_post print_json now new_token token app_id (message none info) m = λ w. fault
  on_post print_json now new_token token app_id (message (some type_) info) m =
      if str_eq type_ "launch" || str_eq type_ "relaunch" || str_eq type_ "join"
      then (do
        let s = post_session now new_token token app_id m
        w ← get
        v ← post_beside type_ app_id info (get_alive_application w)
        pure (post_answer print_json s.1 s.0 v))
      else respond m 400

  -- the status of onDelete for an application's instance
  unfoldable pub delete_instance : String → Option Ptr → Cmd ℕ
  unfolding load do_stop
  delete_instance app_id none = pure 404
  delete_instance app_id (some p) = do
    a ← load p
    if str_eq a.app_id app_id then (do do_stop; pure 200) else pure 400

  -- ApplicationControlHandler::onDelete
  unfoldable pub on_delete : Bool → String → String → SessionManager → Cmd Answer
  unfolding check_sender disconnect_sender delete_instance get_alive_application
  on_delete is_instance token app_id m =
      if not (str_eq token "") && check_sender token m
      then (do
        let m' = (disconnect_sender token m).0
        w ← get
        status ←
            (if is_instance then delete_instance app_id (get_alive_application w) else pure 200)
        respond m' status)
      else respond m 400

  module _ (ierase_all : String → String → String)
      (istarts_with iequals : String → String → Bool) where
    -- ApplicationControlHandler::ApplicationControlHandler
    unfoldable pub handle :
        (String → ℕ → String) → ℕ → String → HttpRequest → SessionManager → Cmd Answer
    unfolding parse_app_id is_running_instance on_get on_post on_delete on_options
    handle print_json now new_token r m =
        let app_id = parse_app_id ierase_all r.resource in
        if not (str_eq app_id "") && istarts_with app_id "~"
        then (if iequals r.method "GET"
            then on_get now r.authorization app_id m
            else if iequals r.method "POST"
            then on_post print_json now new_token r.authorization app_id r.body m
            else if iequals r.method "DELETE"
            then on_delete (is_running_instance ierase_all r.resource app_id) r.authorization app_id
                m
            else if iequals r.method "OPTIONS"
            then on_options m
            else respond m 400)
        else respond m 404
