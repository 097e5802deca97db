-- ===== src/App/Object.antt =====
-- The object of flint/src/flint/application/Application.{h,cpp}: its fields, and its three
-- deadline timers as the delay in milliseconds for which each is armed, if it is.
use flingd_cc.Base.{ℕ, ◌*◌, String, Bool, false, Option, none}
use flingd_cc.Base.Int.{ℤ}

pub record Application : Type 0 where
  pub app_id : String
  pub app_url : String
  pub use_ipc : Bool
  pub max_inactive : ℤ
  pub app_info_raw : String
  pub app_state : String
  pub additional_data : String
  pub ws_connected : Bool
  -- whether the manager's slots are connected to AppStarted, AppStopped and DoAppStop
  pub connected : Bool
  pub start_timer : Option ℕ
  pub stop_timer : Option ℕ
  pub max_inactive_timer : Option ℕ
  -- in seconds
  pub start_timeout : ℕ
  pub stop_timeout : ℕ

-- The constructor.
abbrev pub new_application : String → String → Bool → ℤ → String → Application
new_application id url ipc inactive info = record {
  app_id = id;
  app_url = url;
  use_ipc = ipc;
  max_inactive = inactive;
  app_info_raw = info;
  app_state = "stopped";
  additional_data = "";
  ws_connected = false;
  connected = false;
  start_timer = none;
  stop_timer = none;
  max_inactive_timer = none;
  start_timeout = 30;
  stop_timeout = 10;
}

-- `boost::posix_time::seconds(n)` in milliseconds.
abbrev pub seconds : ℕ → ℕ
seconds n = n * 1000
