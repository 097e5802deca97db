-- ===== src/Media/Store.antt =====
-- The state of sdk/receiver/src/media/MediaManager.h. `Player` has what the getters of the player answer
-- at the time of an operation; the player calls back later, in an event of its own.
use flingd_cc.Base.{String, Bool, List, Option}
use flingd_cc.Base.Int.{ℤ}
use flingd_cc.Base.Machine.{Cmd}
use flingd_cc.Media.Json.{Token}
use flingd_cc.Media.Info.{MediaInfo}

pub record Player (D : Type 0) : Type 0 where
  pub duration : D
  pub current_time : D
  pub volume : D
  pub muted : Bool
  pub status : String

-- what the player is told
pub data Command (D : Type 0) : Type 0 where
  load : String → Command D
  play : Command D
  pause : Command D
  seek : D → Command D
  set_volume : D → Command D

-- `attached` is whether there is a player; `sent` and `commands` are newest first.
pub record Manager (D : Type 0) : Type 0 where
  pub attached : Bool
  pub media : Option MediaInfo
  pub muted : Bool
  pub player_state : String
  pub volume : D
  pub duration : D
  pub current_time : D
  pub playback_rate : ℤ
  pub supported_media_commands : ℤ
  pub media_session_id : ℤ
  pub request_load : ℤ
  pub request_play : ℤ
  pub request_pause : ℤ
  pub request_set_volume : ℤ
  pub request_seek : ℤ
  pub sent : List (List (Token D))
  pub commands : List (Command D)

abbrev pub Do : Type 0 → Type 0
Do D = Cmd (Manager D) (Unit {0})
