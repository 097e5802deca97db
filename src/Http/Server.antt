-- ===== src/Http/Server.antt =====
-- FlintServer::onHttpRequest and onWebsocketConnection. The state is the applications, the sessions and the
-- device; the three kinds of handlers work on their parts of it.
use flingd_cc.Base.{ℕ, String, Bool, ◌||◌, Option, none, some, List, if◌then◌else◌}
use flingd_cc.Base.Int.{ℤ}
use flingd_cc.Base.Machine
use flingd_cc.App.Store.{World, Run, ok, fault, out_of_fuel}
use flingd_cc.Sessions.Manager.{SessionManager}
use flingd_cc.Media.Json.{Json}
use flingd_cc.Control.Handler.{handle as handle_control, Body, Answer, Response}
use flingd_cc.Dial.Handler.{handle as handle_dial, Config}
use flingd_cc.System.Device.{Device}
use flingd_cc.System.Control.{handle as handle_system}
use flingd_cc.System.Describe.{describe_device}
use flingd_cc.Http.Page.{Page, empty_page, page_of}

pub record Daemon (D : Type 0) : Type 0 where
  pub world : World
  pub sessions : SessionManager
  pub device : Device D

-- `authorization` is empty where there is no such header.
pub record Request : Type 0 where
  pub resource : String
  pub method : String
  pub host : String
  pub authorization : String
  pub body : String

-- how a request ends
pub data Reply (D : Type 0) : Type 0 where
  replied : Page → Daemon D → Reply D
  crashed starved : Reply D

module _ {D : Type 0} where
  unfoldable pub from_control : Run Answer → Daemon D → Reply D
  unfolding page_of
  from_control (ok a w) x = replied (page_of a.1) (record x { world = w; sessions = a.0 })
  from_control fault x = crashed
  from_control out_of_fuel x = starved

  unfoldable pub from_dial : Run Response → Daemon D → Reply D
  unfolding page_of
  from_dial (ok r w) x = replied (page_of (some r)) (record x { world = w })
  from_dial fault x = crashed
  from_dial out_of_fuel x = starved

  unfoldable pub from_system : Machine.Run (Device D) (Option Response) → Daemon D → Reply D
  unfolding page_of
  from_system (Machine.ok o s) x = replied (page_of o) (record x { device = s })
  from_system Machine.fault x = crashed

-- the functions of boost on texts
pub record Texts : Type 0 where
  pub iequals : String → String → Bool
  pub istarts_with : String → String → Bool
  pub starts_with : String → String → Bool
  pub ierase_all : String → String → String
  pub replace_last : (text from to_ : String) → String

-- JSON, printed and parsed
pub record Formats (D : Type 0) : Type 0 where
  pub print : Json D → String
  pub parse : String → Json D
  pub body_of : String → Body
  pub print_token : String → ℕ → String
  pub print_info : String → Bool → ℤ → String
  pub length_text : String → String
  pub of_int : ℤ → D
  pub same : D → D → Bool

module _ (t : Texts) where
  -- onWebsocketConnection: the application of the receiver that connects
  unfoldable pub receiver_of : String → Option String
  receiver_of path =
      if t.starts_with path "/receiver/~" then some (t.ierase_all path "/receiver/") else none

module _ {D : Type 0} (t : Texts) (f : Formats D) (launches : String → Bool) (n : ℕ)
    (apps : List (String × Config)) (now : ℕ) (new_token uuid : String) where
  unfoldable pub control : Request → Daemon D → Reply D
  unfolding handle_control from_control
  control r x =
      from_control
        (handle_control launches n t.ierase_all t.istarts_with t.iequals f.print_token now new_token
          (record {
            resource = r.resource;
            method = r.method;
            authorization = r.authorization;
            body = f.body_of r.body;
          })
          x.sessions x.world)
        x

  unfoldable pub dial : Request → Daemon D → Reply D
  unfolding handle_dial from_dial
  dial r x =
      from_dial
        (handle_dial t.iequals t.replace_last f.print_info launches n apps t.ierase_all
          (record { resource = r.resource; method = r.method; body = r.body }) x.world)
        x

  unfoldable pub system : Request → Daemon D → Reply D
  unfolding handle_system from_system
  system r x =
      from_system
        (handle_system f.print f.parse f.of_int f.same t.iequals f.length_text r.method r.body
          x.device)
        x

  -- FlintServer::onHttpRequest
  unfoldable pub on_http_request : Request → Daemon D → Reply D
  unfolding describe_device page_of control dial system
  on_http_request r x =
      if t.iequals r.resource "/setup/icon.png"
      then replied empty_page x
      else if t.iequals r.resource "/ssdp/device-desc.xml"
      then replied (page_of (some (describe_device t.iequals r.host uuid x.device))) x
      else if t.istarts_with r.resource "/system/control"
          || t.istarts_with r.resource "/system/control/"
      then system r x
      else if t.istarts_with r.resource "/apps/~"
      then control r x
      else if t.istarts_with r.resource "/apps/"
      then dial r x
      else replied empty_page x
