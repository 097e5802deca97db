-- ===== src/Dial/Handler.antt =====
-- flint/src/flint/application/DialConfig.cpp and flint/src/flint/handler/DialHandler.cpp: the applications that
-- are known by their names, and the requests for them, over the application manager. The functions
-- of boost on texts are parameters, and so is the text of JSON that describes an application.
use flingd_cc.Base.{
  ℕ, String, Bool, true, false, not, ◌&&◌, Option, none, some, List, [], ◌∷◌, str_eq, if◌then◌else◌,
}
use flingd_cc.Base.Int.{ℤ, negsuc}
use flingd_cc.App.Object.{Application, new_application}
use flingd_cc.App.Store.{Ptr, Cmd, pure, ◌>>=◌, ◌>>◌, get, load, allocate}
use flingd_cc.App.Manager.{launch}
use flingd_cc.App.Events.{get_alive_application}
use flingd_cc.Control.Handler.{
  Response, bare, service_start, service_state, delete_instance, do_stop, parse_app_id,
}
use Prim.Native.String.{◌++◌ as ◌&◌}

pub record Config : Type 0 where
  pub app_id : String
  pub url : String
  pub use_ipc : Bool
  pub max_inactive : ℤ
  pub allow_empty_post_data : Bool

unfoldable pub youtube : Config
youtube = record {
  app_id = "YouTube";
  url = "https://www.youtube.com/tv?$POST_DATA";
  use_ipc = false;
  max_inactive = negsuc 0;
  allow_empty_post_data = false;
}

-- DialConfig::init
unfoldable pub init : List (String × Config)
unfolding youtube
init = ("YouTube", youtube) ∷ []

-- the request: its body as text
pub record DialRequest : Type 0 where
  pub resource : String
  pub method : String
  pub body : String

-- DialHandler::onOptions
unfoldable pub on_options : Cmd Response
on_options = pure (bare 200)

-- DialHandler::onGet
unfoldable pub on_get : String → Cmd Response
unfolding service_start service_state get_alive_application
on_get app_id = do
  w ← get
  state ← service_state app_id (get_alive_application w)
  pure (record {
    status = 200;
    headers = ("Content-Type", "application/xm") ∷ [];
    content = service_start app_id & (state & "</service>\n");
  })

abbrev pub launch_status : Bool → ℕ
launch_status b = if b then 201 else 400

module _ (iequals : String → String → Bool) where
  unfoldable pub get_config : String → List (String × Config) → Option Config
  get_config app_id [] = none
  get_config app_id ((k, c) ∷ m) = if iequals app_id k then some c else get_config app_id m

module _ (iequals : String → String → Bool) (replace_last : (text from to_ : String) → String)
    (print_info : String → Bool → ℤ → String) where
  -- the object that makeDialApplication creates for a configuration
  unfoldable pub dial_application : String → String → Config → Application
  dial_application app_id body c =
      let url = replace_last c.url "$POST_DATA" body in
      new_application app_id url c.use_ipc c.max_inactive (print_info url c.use_ipc c.max_inactive)

  abbrev pub refuses_empty : String → Config → Bool
  refuses_empty body c = str_eq body "" && not c.allow_empty_post_data

  unfoldable pub make_for : String → String → Option Config → Option Application
  unfolding dial_application
  make_for app_id body none = none
  make_for app_id body (some c) =
      if refuses_empty body c then none else some (dial_application app_id body c)

  -- DialConfig::makeDialApplication
  unfoldable pub make_dial_application :
      String → String → List (String × Config) → Option Application
  unfolding get_config make_for
  make_dial_application app_id body m = make_for app_id body (get_config iequals app_id m)

  module _ (launches : String → Bool) (n : ℕ) (apps : List (String × Config)) where
    unfoldable pub launch_dial : Option Application → Cmd Bool
    unfolding allocate launch
    launch_dial none = pure false
    launch_dial (some a) = do p ← allocate a; launch launches n p; pure true

    -- DialHandler::doLaunch: whether there is an application
    unfoldable pub do_launch : String → String → Cmd Bool
    unfolding make_dial_application launch_dial
    do_launch app_id body = launch_dial (make_dial_application app_id body apps)

    -- onPost beside the application that is alive
    unfoldable pub post_beside : String → String → Option Ptr → Cmd ℕ
    unfolding load do_stop do_launch
    post_beside app_id body none = do b ← do_launch app_id body; pure (launch_status b)
    post_beside app_id body (some p) = do
      a ← load p
      if str_eq a.app_id app_id
          then pure 200
          else (do do_stop launches n; b ← do_launch app_id body; pure (launch_status b))

    -- onPost with what is known of the name
    unfoldable pub post_for : String → String → Option Config → Cmd Response
    unfolding post_beside get_alive_application
    post_for app_id body none = pure (bare 400)
    post_for app_id body (some c) = if refuses_empty body c then pure (bare 400) else (do
      w ← get
      status ← post_beside app_id body (get_alive_application w)
      pure (bare status))

    -- DialHandler::onPost
    unfoldable pub on_post : String → String → Cmd Response
    unfolding get_config post_for
    on_post app_id body = post_for app_id body (get_config iequals app_id apps)

    -- DialHandler::onDelete
    unfoldable pub on_delete : String → Cmd Response
    unfolding delete_instance get_alive_application
    on_delete app_id = do
      w ← get
      status ← delete_instance launches n app_id (get_alive_application w)
      pure (bare status)

    -- DialHandler::DialHandler
    unfoldable pub handle : (ierase_all : String → String → String) → DialRequest → Cmd Response
    unfolding parse_app_id on_get on_post on_delete on_options
    handle ierase_all r =
        let app_id = parse_app_id ierase_all r.resource in
        if not (str_eq app_id "")
        then (if iequals r.method "GET"
            then on_get app_id
            else if iequals r.method "POST"
            then on_post app_id r.body
            else if iequals r.method "DELETE"
            then on_delete app_id
            else if iequals r.method "OPTIONS"
            then on_options
            else pure (bare 400))
        else pure (bare 404)
