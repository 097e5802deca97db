-- ===== src/Media/Status.antt =====
-- The text that MediaManager::postPlayerStatus of sdk/receiver/src/media/MediaManager.cpp sends.
use flingd_cc.Base.{
  String, List, [], ◌∷◌, Option, none, some, str_eq, if◌then◌else◌, ◌≡◌, refl, ap, ◌∙◌, Bool-cases,
  inl, inr,
}
use flingd_cc.Base.Int.{ℤ}
use flingd_cc.Media.Json.{
  Json, boolean, integer, double, texts, array, object, Items, done, item, Members, end, member,
  Token, end_object, end_array, start_array, a_string, an_int, render, render_items, render_members,
}
use flingd_cc.Media.Info.{Image, Metadata, MediaInfo}
use flingd_cc.Media.Store.{Manager}
use flingd_cc.Media.Writer.{
  write_text, write_image, write_images, write_gallery, write_metadata, write_media, write_status,
}

module _ {D : Type 0} where
  -- A member for a text, unless it is empty.
  abbrev text_member : String → String → Members D → Members D
  text_member name t ms = if str_eq t "" then ms else member name (texts t) ms

  abbrev image_item : Option Image → Items D → Items D
  image_item none is = is
  image_item (some i) is =
      if str_eq i.url ""
      then is
      else item
          (object (
            member "height" (integer i.height)
              (member "width" (integer i.width) (member "url" (texts i.url) end))))
          is

  abbrev image_items : List (Option Image) → Items D
  image_items [] = done
  image_items (i ∷ is) = image_item i (image_items is)

  abbrev gallery_member : List (Option Image) → Members D → Members D
  gallery_member [] ms = ms
  gallery_member (i ∷ is) ms = member "images" (array (image_items (i ∷ is))) ms

  abbrev metadata_members : Option Metadata → Members D → Members D
  metadata_members none ms = ms
  metadata_members (some m) ms = text_member "title" m.title (
      text_member "subtitle" m.subtitle
        (gallery_member m.images (member "metadataType" (integer m.metadata_type) ms)))

  abbrev media_member : D → Option MediaInfo → Members D → Members D
  media_member duration none ms = ms
  media_member duration (some i) ms =
      member "media"
        (object (
          text_member "streamType" i.stream_type (
            member "duration" (double duration) (
              text_member "contentType" i.content_type (
                text_member "contentId" i.content_id
                  (metadata_members i.metadata (member "metadata" (object end) end)))))))
        ms

  -- The status of a player: the one in the array.
  abbrev pub status_value : Manager D → Json D
  status_value w = object (
      member "mediaSessionId" (integer w.media_session_id) (
        member "playbackRate" (integer w.playback_rate) (
          member "supportedMediaCommands" (integer w.supported_media_commands) (
            member "currentTime" (double w.current_time) (
              member "duration" (double w.duration) (
                member "volume"
                  (object (member "level" (double w.volume) (member "muted" (boolean w.muted) end)))
                  (member "playerState" (texts w.player_state)
                    (media_member w.duration w.media end))))))))

  text_lem :
      (name t : String) (ms : Members D) (rest : List (Token D))
      → render_members (text_member name t ms) rest ≡ write_text name t (render_members ms rest)
  unfolding render write_text
  text_lem name t ms rest = elim (Bool-cases (str_eq t "")) [
    | inl e ↦ rw e refl
    | inr e ↦ rw e refl
  ]

  images_lem :
      (is : List (Option Image)) (rest : List (Token D))
      → render_items (image_items is) rest ≡ write_images is rest
  unfolding render write_images write_image
  images_lem [] rest = refl
  images_lem (none ∷ is) rest = images_lem is rest
  images_lem (some i ∷ is) rest = elim (Bool-cases (str_eq i.url "")) [
    | inl e ↦ rw e (images_lem is rest)
    | inr e ↦ rw (e, images_lem is rest) refl
  ]

  gallery_lem :
      (is : List (Option Image)) (ms : Members D) (rest : List (Token D))
      → render_members (gallery_member is ms) rest ≡ write_gallery is (render_members ms rest)
  unfolding render write_gallery
  gallery_lem [] ms rest = refl
  gallery_lem (i ∷ is) ms rest =
      ap (λ ts. a_string "images" ∷ start_array ∷ ts)
        (images_lem (i ∷ is) (end_array ∷ render_members ms rest))

  metadata_lem :
      (m : Option Metadata) (ms : Members D) (rest : List (Token D))
      → render_members (metadata_members m ms) rest ≡ write_metadata m (render_members ms rest)
  unfolding write_metadata render
  metadata_lem none ms rest = refl
  metadata_lem (some m) ms rest =
      let last = member "metadataType" (integer m.metadata_type) ms in
      let images = gallery_member m.images last in
      text_lem "title" m.title (text_member "subtitle" m.subtitle images) rest
      ∙ ap (write_text "title" m.title) (
          text_lem "subtitle" m.subtitle images rest
          ∙ ap (write_text "subtitle" m.subtitle) (gallery_lem m.images last rest))

  media_lem :
      (duration : D) (i : Option MediaInfo) (ms : Members D) (rest : List (Token D))
      → render_members (media_member duration i ms) rest
        ≡ write_media duration i (render_members ms rest)
  unfolding write_media render
  media_lem duration none ms rest = refl
  media_lem duration (some i) ms rest =
      let after = end_object ∷ render_members ms rest in
      let meta = metadata_members i.metadata (member "metadata" (object end) end) in
      let id = text_member "contentId" i.content_id meta in
      rw
        (
          text_lem "streamType" i.stream_type
              (member "duration" (double duration) (text_member "contentType" i.content_type id))
              after,
          text_lem "contentType" i.content_type id after,
          text_lem "contentId" i.content_id meta after,
          metadata_lem i.metadata (member "metadata" (object end) end) after,
        )
        refl

  -- What is written for a status is one value of JSON: an object with the type MEDIA_STATUS, an array
  -- of the one status, in which the texts that are empty, the images without an address and the media
  -- that was not loaded are left out, and the identifier of the request.
  pub status_rendered :
      (w : Manager D) (request_id : ℤ)
      → write_status w request_id
        ≡ render
            (object (
              member "type" (texts "MEDIA_STATUS") (
                member "status"
                  (array (item (status_value w) done))
                  (member "requestId" (integer request_id) end))))
            []
  unfolding write_status render
  status_rendered w request_id =
      rw
        (media_lem w.duration w.media end
          (end_object ∷ end_array ∷ a_string "requestId" ∷ an_int request_id ∷ end_object ∷ []))
        refl
