-- ===== src/Media/Manager.antt =====
-- sdk/receiver/src/media/MediaManager.cpp. The floating-point numbers are a type `D`, and `le`, `zero_` and
-- `one` are the order of these, 0 and 1.
use flingd_cc.Base.{String, Bool, ◌&&◌, ◌∷◌, Option, none, some, str_eq, if◌then◌else◌, false, []}
use flingd_cc.Base.Int.{ℤ, pos}
use flingd_cc.Base.Machine.{ok, skip, get, ◌>>=◌, ◌>>◌}
use flingd_cc.Media.Json.{Json, null, double, object}
use flingd_cc.Media.Store.{Player, Command, load, play, pause, seek, set_volume, Manager, Do}
use flingd_cc.Media.Writer.{write_status}
use flingd_cc.Media.Info.{MediaInfo, at, get_int, get_string, create_info}

module _ {D : Type 0} where
  -- MediaManager::MediaManager, which leaves the other fields as they are in `w`
  unfoldable pub new_manager : D → Manager D → Manager D
  new_manager zero_ w = record w {
    attached = false;
    media = none;
    player_state = "IDLE";
    volume = zero_;
    playback_rate = pos 1;
    supported_media_commands = pos 15;
    media_session_id = pos 1;
    sent = [];
    commands = [];
  }

  -- MediaManager::setMediaPlayer, for a player or NULL
  unfoldable pub set_media_player : Bool → Do D
  set_media_player attached w = ok tt (record w { attached = attached })

  -- what postPlayerStatus takes from the player
  unfoldable pub refreshed : Player D → String → Manager D → Manager D
  refreshed p status w = record w {
    duration = p.duration;
    current_time = p.current_time;
    volume = p.volume;
    muted = p.muted;
    player_state = if str_eq status "" then p.status else status;
  }

  unfoldable pub send_status : ℤ → Do D
  unfolding write_status
  send_status request_id w = ok tt (record w { sent = write_status w request_id ∷ w.sent })

  -- MediaManager::postPlayerStatus
  unfoldable pub post_player_status : Player D → ℤ → String → Do D
  unfolding refreshed send_status
  post_player_status p request_id status w =
      if w.attached then send_status request_id (refreshed p status w) else ok tt w

  -- the callbacks of the player
  unfoldable pub on_loaded : Player D → Do D
  unfolding post_player_status
  on_loaded p = do
    w ← get
    post_player_status p w.request_load "PLAYING"
    (λ u. ok tt (record u { request_load = pos 0 }))

  unfoldable pub on_playing : Player D → Do D
  unfolding post_player_status
  on_playing p = do
    w ← get
    post_player_status p w.request_play "PLAYING"
    (λ u. ok tt (record u { request_play = pos 0 }))

  unfoldable pub on_paused : Player D → Do D
  unfolding post_player_status
  on_paused p = do
    w ← get
    post_player_status p w.request_pause "PAUSED"
    (λ u. ok tt (record u { request_pause = pos 0 }))

  unfoldable pub on_seeked : Player D → Do D
  unfolding post_player_status
  on_seeked p = do
    w ← get
    post_player_status p w.request_seek "PLAYING"
    (λ u. ok tt (record u { request_seek = pos 0 }))

  unfoldable pub on_volume_changed : Player D → Do D
  unfolding post_player_status
  on_volume_changed p = do
    w ← get
    post_player_status p w.request_set_volume "PAUSED"
    (λ u. ok tt (record u { request_set_volume = pos 0 }))

  -- onBuffering, and onIdle, onEnded and onError
  unfoldable pub on_buffering : Player D → Do D
  unfolding post_player_status
  on_buffering p = post_player_status p (pos 0) "BUFFERING"

  unfoldable pub on_idle : Player D → Do D
  unfolding post_player_status
  on_idle p = post_player_status p (pos 0) "IDLE"

  -- the player, if there is one, gets a command, for which `note` keeps the request
  unfoldable pub command : (Manager D → Manager D) → Command D → Do D
  command note c w =
      if w.attached
      then (let u = note w in ok tt (record u { commands = c ∷ u.commands }))
      else ok tt w

  unfoldable pub do_play : ℤ → Do D
  unfolding command
  do_play request_id = command (λ w. record w { request_play = request_id }) play

  unfoldable pub do_pause : ℤ → Do D
  unfolding command
  do_pause request_id = command (λ w. record w { request_pause = request_id }) pause

  unfoldable pub do_seek : D → ℤ → Do D
  unfolding command
  do_seek position request_id =
      command (λ w. record w { request_seek = request_id }) (seek position)

  unfoldable pub do_set_volume : D → ℤ → Do D
  unfolding command
  do_set_volume volume request_id =
      command (λ w. record w { request_set_volume = request_id }) (set_volume volume)

  unfoldable pub load_info : Option MediaInfo → Json D → ℤ → Do D
  unfolding command get_string
  load_info none value request_id = do get_string value; skip
  load_info (some i) value request_id = do
    (λ w. ok tt (record w { media = some i }))
    command (λ w. record w { request_load = request_id }) (load i.content_id)

  -- MediaManager::doLoad; the log reads the text of the value, which is no text
  unfoldable pub do_load : Json D → ℤ → Do D
  unfolding create_info load_info
  do_load value request_id = do i ← create_info value; load_info i value request_id

  unfoldable pub set_current_time : Json D → Do D
  set_current_time (double x) w = ok tt (record w { current_time = x })
  set_current_time v w = ok tt w

  unfoldable pub seek_to : Json D → ℤ → Do D
  unfolding do_seek
  seek_to (double x) request_id = do_seek x request_id
  seek_to v request_id = skip

  module _ (le : D → D → Bool) (zero_ one : D) where
    unfoldable pub set_level : Json D → ℤ → Do D
    unfolding do_set_volume
    set_level (double x) request_id =
        if le zero_ x && le x one then do_set_volume x request_id else skip
    set_level v request_id = skip

    unfoldable pub set_volume_of : Json D → ℤ → Do D
    unfolding at set_level
    set_volume_of (object ms) request_id = do
      level ← at "level" (object ms)
      set_level level request_id
    set_volume_of v request_id = skip

    -- the type of a message
    unfoldable pub dispatch : Player D → Json D → ℤ → String → Do D
    unfolding do_load do_play do_pause set_volume_of seek_to set_current_time post_player_status at
    dispatch p d request_id type_ =
        if str_eq type_ "LOAD"
        then (do v ← at "currentTime" d; set_current_time v; m ← at "media" d; do_load m request_id)
        else if str_eq type_ "PAUSE"
        then do_pause request_id
        else if str_eq type_ "PLAY"
        then do_play request_id
        else if str_eq type_ "SET_VOLUME"
        then (do v ← at "volume" d; set_volume_of v request_id)
        else if str_eq type_ "SEEK"
        then (do v ← at "currentTime" d; seek_to v request_id)
        else if str_eq type_ "GET_STATUS"
        then post_player_status p request_id ""
        else skip

    -- MediaManager::onMessage, for a text that was parsed
    unfoldable pub on_message : Player D → Json D → Do D
    unfolding at get_int get_string dispatch
    on_message p null = skip
    on_message p d = do
      r ← at "requestId" d
      request_id ← get_int r
      t ← at "type" d
      type_ ← get_string t
      dispatch p d request_id type_
