-- ===== src/Media/Tests.antt =====
-- The media manager of the receiver SDK at concrete states, with ℕ for the floating-point numbers.
use flingd_cc.Base.{ℕ, true, false, List, [], ◌∷◌, none, some, ◌≡◌, refl, leb, All}
use flingd_cc.Base.Int.{pos}
use flingd_cc.Base.Machine.{ok}
use flingd_cc.Media.Json.{
  Json, integer, double, texts, array, object, done, item, end, member, render, find_member,
}
use flingd_cc.Media.Store.{Player, set_volume, Manager}
use flingd_cc.Media.Writer.{write_status}
use flingd_cc.Media.Manager.{refreshed}
use flingd_cc.Media.Status.{status_value, status_rendered}
use flingd_cc.Media.Requests.{
  plays, Event, message, buffers, run, on_done, IsAllowed, volumes_in_unit, request_of,
}
use flingd_cc.Media.Answers.{request_answered}

abbrev player : Player ℕ
player = record { duration = 10; current_time = 3; volume = 1; muted = false; status = "PLAYING" }

abbrev manager : Manager ℕ
manager = record {
  attached = true;
  media = some (record {
    stream_type = "";
    duration = pos 10;
    content_type = "video";
    content_id = "v";
    metadata = none;
  });
  muted = false;
  player_state = "IDLE";
  volume = 0;
  duration = 0;
  current_time = 0;
  playback_rate = pos 1;
  supported_media_commands = pos 15;
  media_session_id = pos 1;
  request_load = pos 0;
  request_play = pos 7;
  request_pause = pos 0;
  request_set_volume = pos 0;
  request_seek = pos 0;
  sent = [];
  commands = [];
}

status_rendered_example :
    write_status manager (pos 7)
    ≡ render
        (object (
          member "type" (texts "MEDIA_STATUS") (
            member "status"
              (array (item (status_value manager) done))
              (member "requestId" (integer (pos 7)) end))))
        []
status_rendered_example = status_rendered manager (pos 7)

-- a volume, which is set while a PLAY waits
abbrev louder : Json ℕ
louder = object (
    member "type" (texts "SET_VOLUME") (
      member "requestId" (integer (pos 8))
        (member "volume" (object (member "level" (double 1) end)) end)))

abbrev events : List (Event leb 0 1)
events = message player louder ∷ buffers player ∷ []

abbrev quiet : Manager ℕ
quiet = record manager { request_set_volume = pos 8; commands = set_volume 1 ∷ [] }

abbrev later : Manager ℕ
later = record (refreshed player "BUFFERING" quiet) {
  sent = write_status (refreshed player "BUFFERING" quiet) (pos 0) ∷ [];
}

events-run : run leb 0 1 events manager ≡ ok tt later
unfolding run refreshed write_status find_member
events-run = refl

volumes_in_unit_example : All (IsAllowed leb 0 1) later.commands
volumes_in_unit_example = volumes_in_unit leb 0 1 events manager later tt events-run

request_answered_example :
    (y : Manager ℕ) × (on_done leb 0 1 plays player later ≡ ok tt y)
    × (y.sent ≡ write_status (refreshed player "PLAYING" later) (pos 7) ∷ later.sent)
    × (request_of leb 0 1 plays y ≡ pos 0)
unfolding find_member
request_answered_example =
    request_answered leb 0 1 plays events manager later player refl (refl, (refl, tt)) events-run
