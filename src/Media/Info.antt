-- ===== src/Media/Info.antt =====
-- sdk/receiver/src/media/MediaInfo.cpp: Image, Metadata and MediaInfo, and how they are made of a JSON
-- value. The builds are Release ones, without the assertions of rapidjson: a member that is missing is read
-- as null. What is read of a value of another type is undefined, and here a fault.
use flingd_cc.Base.{String, Bool, true, false, List, [], ◌∷◌, Option, none, some, if◌then◌else◌}
use flingd_cc.Base.Int.{ℤ}
use flingd_cc.Base.Machine.{Cmd, ok, crash, ◌>>=◌}
use flingd_cc.Media.Json.{Json, null, integer, texts, array, object, Items, done, item, find_member}

pub record Image : Type 0 where
  pub height : ℤ
  pub width : ℤ
  pub url : String

-- an image is NULL if it could not be made
pub record Metadata : Type 0 where
  pub studio : String
  pub title : String
  pub subtitle : String
  pub metadata_type : ℤ
  pub images : List (Option Image)

pub record MediaInfo : Type 0 where
  pub stream_type : String
  pub duration : ℤ
  pub content_type : String
  pub content_id : String
  pub metadata : Option Metadata

abbrev pub is_null : {D : Type 0} → Json D → Bool
is_null null = true
is_null v = false

module _ {D S : Type 0} where
  abbrev pub value_or_null : Option (Json D) → Cmd S (Json D)
  value_or_null none = ok null
  value_or_null (some v) = ok v

  -- `value[name]`
  unfoldable pub at : String → Json D → Cmd S (Json D)
  unfolding find_member
  at name (object ms) = value_or_null (find_member name ms)
  at name v = crash

  -- GetInt and GetString
  unfoldable pub get_int : Json D → Cmd S ℤ
  get_int (integer n) = ok n
  get_int v = crash

  unfoldable pub get_string : Json D → Cmd S String
  get_string (texts t) = ok t
  get_string v = crash

  unfoldable pub int_at : String → Json D → Cmd S ℤ
  unfolding at get_int
  int_at name value = do v ← at name value; get_int v

  unfoldable pub string_at : String → Json D → Cmd S String
  unfolding at get_string
  string_at name value = do v ← at name value; get_string v

  -- whether one of the members is null, up to the first that is
  unfoldable pub any_null : List String → Json D → Cmd S Bool
  unfolding at
  any_null [] value = ok false
  any_null (name ∷ names) value =
      let rest = any_null names value in (do v ← at name value; if is_null v then ok true else rest)

  -- the value is null or one of the members is
  unfoldable pub is_incomplete : List String → Json D → Cmd S Bool
  unfolding any_null
  is_incomplete names null = ok true
  is_incomplete names value = any_null names value

  -- Image::create
  unfoldable pub create_image : Json D → Cmd S (Option Image)
  unfolding is_incomplete int_at string_at
  create_image value = do
    b ← is_incomplete ("url" ∷ "height" ∷ "width" ∷ []) value
    if b then ok none else (do
      height ← int_at "height" value
      width ← int_at "width" value
      url ← string_at "url" value
      ok (some (record { height = height; width = width; url = url })))

  unfoldable pub create_images : Items D → Cmd S (List (Option Image))
  unfolding create_image
  create_images done = ok []
  create_images (item v is) = do
    image ← create_image v
    images ← create_images is
    ok (image ∷ images)

  unfoldable pub images_of : Json D → Cmd S (List (Option Image))
  unfolding create_images
  images_of (array is) = create_images is
  images_of v = ok []

  -- Metadata::create
  unfoldable pub create_metadata : Json D → Cmd S (Option Metadata)
  unfolding is_incomplete int_at string_at images_of at
  create_metadata value = do
    b ← is_incomplete ("studio" ∷ "title" ∷ "subtitle" ∷ "metadataType" ∷ "images" ∷ []) value
    if b then ok none else (do
      studio ← string_at "studio" value
      title ← string_at "title" value
      subtitle ← string_at "subtitle" value
      metadata_type ← int_at "metadataType" value
      v ← at "images" value
      images ← images_of v
      ok (
          some (record {
            studio = studio;
            title = title;
            subtitle = subtitle;
            metadata_type = metadata_type;
            images = images;
          })))

  -- MediaInfo::create
  unfoldable pub create_info : Json D → Cmd S (Option MediaInfo)
  unfolding is_incomplete int_at string_at create_metadata at
  create_info value = do
    b ←
        is_incomplete ("streamType" ∷ "duration" ∷ "contentType" ∷ "contentId" ∷ "metadata" ∷ [])
          value
    if b then ok none else (do
      stream_type ← string_at "streamType" value
      duration ← int_at "duration" value
      content_type ← string_at "contentType" value
      content_id ← string_at "contentId" value
      v ← at "metadata" value
      metadata ← create_metadata v
      ok (
          some (record {
            stream_type = stream_type;
            duration = duration;
            content_type = content_type;
            content_id = content_id;
            metadata = metadata;
          })))
