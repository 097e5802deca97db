-- ===== src/Media/Keeps.antt =====
-- Commands of sdk/receiver/src/media that keep a property of the state, as far as they end.
use flingd_cc.Base.{String, Bool, true, false, List, [], ◌∷◌, Option, none, some, if◌then◌else◌}
use flingd_cc.Base.Machine.{Run, ok, fault, Cmd, crash, ◌>>=◌, and_then}
use flingd_cc.Media.Json.{
  Json, null, boolean, integer, double, texts, array, object, Items, done, item, find_member,
}
use flingd_cc.Media.Info.{
  value_or_null, is_null, at, get_int, get_string, int_at, string_at, any_null, is_incomplete,
  create_image, create_images, images_of, create_metadata, create_info,
}

module _ {S : Type 0} (P : S → Type 0) where
  abbrev pub Holds : {A : Type 0} → Run S A → Type 0
  Holds (ok a w) = P w
  Holds fault = Unit {0}

  -- Where the property holds before, it holds after.
  pub record Keeps {A : Type 0} (m : Cmd S A) : Type 0 where
    pub holds : (w : S) → P w → Holds (m w)

  pub ok-Keeps : {A : Type 0} → (a : A) → Keeps (ok a)
  ok-Keeps a = record { holds = λ w h. h }

  pub crash-Keeps : {A : Type 0} → Keeps (crash {A = A})
  crash-Keeps = record { holds = λ w h. tt }

  and_then-Holds :
      {A B : Type 0}
      → (r : Run S A) (k : A → Cmd S B) → Holds r
      → ((a : A) → Keeps (k a))
      → Holds (and_then r k)
  and_then-Holds (ok a w) k h f = (f a).holds w h
  and_then-Holds fault k h f = tt

  pub bind-Keeps :
      {A B : Type 0}
      → (m : Cmd S A) (k : A → Cmd S B) → Keeps m
      → ((a : A) → Keeps (k a))
      → Keeps (m >>= k)
  bind-Keeps m k f g = record { holds = λ w h. and_then-Holds (m w) k (f.holds w h) (λ a. g a) }

  pub if-Keeps :
      {A : Type 0} → (b : Bool) (m n : Cmd S A) → Keeps m → Keeps n → Keeps (if b then m else n)
  if-Keeps true m n f g = f
  if-Keeps false m n f g = g

  module _ {D : Type 0} where
    value-Keeps : (o : Option (Json D)) → Keeps (value_or_null o)
    value-Keeps none = ok-Keeps _
    value-Keeps (some v) = ok-Keeps _

    pub at-Keeps : (name : String) (v : Json D) → Keeps (at name v)
    unfolding at
    at-Keeps name (object ms) = value-Keeps (find_member name ms)
    at-Keeps name null = crash-Keeps
    at-Keeps name (boolean b) = crash-Keeps
    at-Keeps name (integer n) = crash-Keeps
    at-Keeps name (double x) = crash-Keeps
    at-Keeps name (texts t) = crash-Keeps
    at-Keeps name (array is) = crash-Keeps

    pub get_int-Keeps : (v : Json D) → Keeps (get_int v)
    unfolding get_int
    get_int-Keeps (object ms) = crash-Keeps
    get_int-Keeps null = crash-Keeps
    get_int-Keeps (boolean b) = crash-Keeps
    get_int-Keeps (integer n) = ok-Keeps _
    get_int-Keeps (double x) = crash-Keeps
    get_int-Keeps (texts t) = crash-Keeps
    get_int-Keeps (array is) = crash-Keeps

    pub get_string-Keeps : (v : Json D) → Keeps (get_string v)
    unfolding get_string
    get_string-Keeps (object ms) = crash-Keeps
    get_string-Keeps null = crash-Keeps
    get_string-Keeps (boolean b) = crash-Keeps
    get_string-Keeps (integer n) = crash-Keeps
    get_string-Keeps (double x) = crash-Keeps
    get_string-Keeps (texts t) = ok-Keeps _
    get_string-Keeps (array is) = crash-Keeps

    int_at-Keeps : (name : String) (v : Json D) → Keeps (int_at name v)
    unfolding int_at
    int_at-Keeps name v = bind-Keeps (at name v) get_int (at-Keeps name v) get_int-Keeps

    string_at-Keeps : (name : String) (v : Json D) → Keeps (string_at name v)
    unfolding string_at
    string_at-Keeps name v = bind-Keeps (at name v) get_string (at-Keeps name v) get_string-Keeps

    any_null-Keeps : (names : List String) (v : Json D) → Keeps (any_null names v)
    unfolding any_null
    any_null-Keeps [] v = ok-Keeps _
    any_null-Keeps (name ∷ names) v =
        bind-Keeps (at name v) _ (at-Keeps name v)
          (λ u. if-Keeps (is_null u) _ _ (ok-Keeps _) (any_null-Keeps names v))

    is_incomplete-Keeps : (names : List String) (v : Json D) → Keeps (is_incomplete names v)
    unfolding is_incomplete
    is_incomplete-Keeps names (object ms) = any_null-Keeps names (object ms)
    is_incomplete-Keeps names null = ok-Keeps _
    is_incomplete-Keeps names (boolean b) = any_null-Keeps names (boolean b)
    is_incomplete-Keeps names (integer n) = any_null-Keeps names (integer n)
    is_incomplete-Keeps names (double x) = any_null-Keeps names (double x)
    is_incomplete-Keeps names (texts t) = any_null-Keeps names (texts t)
    is_incomplete-Keeps names (array is) = any_null-Keeps names (array is)

    create_image-Keeps : (v : Json D) → Keeps (create_image v)
    unfolding create_image
    create_image-Keeps v =
        bind-Keeps _ _ (is_incomplete-Keeps ("url" ∷ "height" ∷ "width" ∷ []) v) (λ b.
          if-Keeps b _ _ (ok-Keeps none) (
            bind-Keeps _ _ (int_at-Keeps "height" v) (λ x.
              bind-Keeps _ _ (int_at-Keeps "width" v) (λ y.
                bind-Keeps _ _ (string_at-Keeps "url" v)
                  (λ z. ok-Keeps (some (record { height = x; width = y; url = z })))))))

    create_images-Keeps : (is : Items D) → Keeps (create_images is)
    unfolding create_images
    create_images-Keeps done = ok-Keeps _
    create_images-Keeps (item v is) =
        bind-Keeps _ _ (create_image-Keeps v)
          (λ i. bind-Keeps _ _ (create_images-Keeps is) (λ l. ok-Keeps (i ∷ l)))

    images-Keeps : (v : Json D) → Keeps (images_of v)
    unfolding images_of
    images-Keeps (object ms) = ok-Keeps _
    images-Keeps null = ok-Keeps _
    images-Keeps (boolean b) = ok-Keeps _
    images-Keeps (integer n) = ok-Keeps _
    images-Keeps (double x) = ok-Keeps _
    images-Keeps (texts t) = ok-Keeps _
    images-Keeps (array is) = create_images-Keeps is

    create_metadata-Keeps : (v : Json D) → Keeps (create_metadata v)
    unfolding create_metadata
    create_metadata-Keeps v =
        bind-Keeps _ _
          (is_incomplete-Keeps ("studio" ∷ "title" ∷ "subtitle" ∷ "metadataType" ∷ "images" ∷ []) v)
          (λ b. if-Keeps b _ _ (ok-Keeps none) (
            bind-Keeps _ _ (string_at-Keeps "studio" v) (λ x.
              bind-Keeps _ _ (string_at-Keeps "title" v) (λ y.
                bind-Keeps _ _ (string_at-Keeps "subtitle" v) (λ z.
                  bind-Keeps _ _ (int_at-Keeps "metadataType" v) (λ n.
                    bind-Keeps _ _ (at-Keeps "images" v) (λ u. bind-Keeps _ _ (images-Keeps u) (λ l.
                      ok-Keeps (
                        some (record {
                          studio = x;
                          title = y;
                          subtitle = z;
                          metadata_type = n;
                          images = l;
                        }))))))))))

    pub create_info-Keeps : (v : Json D) → Keeps (create_info v)
    unfolding create_info
    create_info-Keeps v =
        bind-Keeps _ _
          (is_incomplete-Keeps
            ("streamType" ∷ "duration" ∷ "contentType" ∷ "contentId" ∷ "metadata" ∷ []) v)
          (λ b. if-Keeps b _ _ (ok-Keeps none) (
            bind-Keeps _ _ (string_at-Keeps "streamType" v) (λ x.
              bind-Keeps _ _ (int_at-Keeps "duration" v) (λ y.
                bind-Keeps _ _ (string_at-Keeps "contentType" v) (λ z.
                  bind-Keeps _ _ (string_at-Keeps "contentId" v) (λ n.
                    bind-Keeps _ _ (at-Keeps "metadata" v) (λ u.
                      bind-Keeps _ _ (create_metadata-Keeps u) (λ l. ok-Keeps (
                        some (record {
                          stream_type = x;
                          duration = y;
                          content_type = z;
                          content_id = n;
                          metadata = l;
                        }))))))))))
