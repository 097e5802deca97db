-- ===== src/Media/Writer.antt =====
-- What MediaManager::postPlayerStatus of sdk/receiver/src/media/MediaManager.cpp tells the writer.
use flingd_cc.Base.{String, List, [], ◌∷◌, Option, none, some, str_eq, if◌then◌else◌}
use flingd_cc.Base.Int.{ℤ}
use flingd_cc.Media.Json.{
  Token, start_object, end_object, start_array, end_array, a_string, an_int, a_double, a_bool,
}
use flingd_cc.Media.Info.{Image, Metadata, MediaInfo}
use flingd_cc.Media.Store.{Manager}

module _ {D : Type 0} where
  -- a member that is written if its text is not empty, and then `rest`
  unfoldable pub write_text : String → String → List (Token D) → List (Token D)
  write_text name t rest = if str_eq t "" then rest else a_string name ∷ a_string t ∷ rest

  unfoldable pub write_image : Option Image → List (Token D) → List (Token D)
  write_image none rest = rest
  write_image (some i) rest =
      if str_eq i.url ""
      then rest
      else start_object
        ∷ a_string "height"
        ∷ an_int i.height
        ∷ a_string "width"
        ∷ an_int i.width
        ∷ a_string "url"
        ∷ a_string i.url
        ∷ end_object
        ∷ rest

  unfoldable pub write_images : List (Option Image) → List (Token D) → List (Token D)
  unfolding write_image
  write_images [] rest = rest
  write_images (i ∷ is) rest = write_image i (write_images is rest)

  unfoldable pub write_gallery : List (Option Image) → List (Token D) → List (Token D)
  unfolding write_images
  write_gallery [] rest = rest
  write_gallery (i ∷ is) rest =
      a_string "images" ∷ start_array ∷ write_images (i ∷ is) (end_array ∷ rest)

  unfoldable pub write_metadata : Option Metadata → List (Token D) → List (Token D)
  unfolding write_text write_gallery
  write_metadata none rest = rest
  write_metadata (some m) rest = write_text "title" m.title (
      write_text "subtitle" m.subtitle
        (write_gallery m.images (a_string "metadataType" ∷ an_int m.metadata_type ∷ rest)))

  unfoldable pub write_media : D → Option MediaInfo → List (Token D) → List (Token D)
  unfolding write_text write_metadata
  write_media duration none rest = rest
  write_media duration (some i) rest =
      a_string "media"
      ∷ start_object
      ∷ write_text "streamType" i.stream_type (
          a_string "duration"
          ∷ a_double duration
          ∷ write_text "contentType" i.content_type (
              write_text "contentId" i.content_id (
                write_metadata i.metadata
                  (a_string "metadata" ∷ start_object ∷ end_object ∷ end_object ∷ rest))))

  -- the text that postPlayerStatus sends
  unfoldable pub write_status : Manager D → ℤ → List (Token D)
  unfolding write_media
  write_status w request_id =
      start_object
      ∷ a_string "type"
      ∷ a_string "MEDIA_STATUS"
      ∷ a_string "status"
      ∷ start_array
      ∷ start_object
      ∷ a_string "mediaSessionId"
      ∷ an_int w.media_session_id
      ∷ a_string "playbackRate"
      ∷ an_int w.playback_rate
      ∷ a_string "supportedMediaCommands"
      ∷ an_int w.supported_media_commands
      ∷ a_string "currentTime"
      ∷ a_double w.current_time
      ∷ a_string "duration"
      ∷ a_double w.duration
      ∷ a_string "volume"
      ∷ start_object
      ∷ a_string "level"
      ∷ a_double w.volume
      ∷ a_string "muted"
      ∷ a_bool w.muted
      ∷ end_object
      ∷ a_string "playerState"
      ∷ a_string w.player_state
      ∷ write_media w.duration w.media
          (end_object ∷ end_array ∷ a_string "requestId" ∷ an_int request_id ∷ end_object ∷ [])
