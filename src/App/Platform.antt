-- ===== src/App/Platform.antt =====
-- Platform::launchApplication and Platform::stopApplication of flint/src/platform/Platform.cpp, as
-- far as their callers see them. The libraries that they call are parameters: `url_of` is the
-- string at "url" of the parsed text (rapidjson), `starts_with` and `erase_first` are boost's.
use flingd_cc.Base.{String, Bool, true, false, ◌||◌, Option, none, some, if◌then◌else◌}

-- What the platform is told to do.
pub data Action : Type 0 where
  launch_web launch_native stop_web stop_native : String → Action

module _ (url_of : String → String) (starts_with : String → String → Bool)
    (erase_first : String → String → String) where
  pub is_web_app : String → Bool
  is_web_app url = starts_with url "http://" || starts_with url "https://"

  pub is_native_app : String → Bool
  is_native_app url = starts_with url "app:?"

  -- The action taken, and the result.
  pub launch_application : String → Option Action × Bool
  launch_application app_info =
      let url = url_of app_info in
      if is_web_app url
      then (some (launch_web url), true)
      else if is_native_app url
      then (some (launch_native (erase_first url "app:?")), true)
      else (none, false)

  pub stop_application : String → Option Action
  stop_application app_info =
      let url = url_of app_info in
      if is_web_app url
      then some (stop_web url)
      else if is_native_app url
      then some (stop_native (erase_first url "app:?"))
      else none
