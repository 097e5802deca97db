-- ===== src/Media/Messages.antt =====
-- What a message to MediaManager of sdk/receiver/src/media/MediaManager.cpp keeps.
use flingd_cc.Base.{
  ◌&&◌, String, Bool, true, false, Option, none, some, str_eq, if◌then◌else◌, ◌≡◌, refl, Bool-cases,
  inl, inr,
}
use flingd_cc.Base.Int.{ℤ}
use flingd_cc.Base.Machine.{ok, skip, ◌>>=◌}
use flingd_cc.Media.Json.{Json, null, boolean, integer, double, texts, array, object, find_member}
use flingd_cc.Media.Info.{MediaInfo, value_or_null, at, get_int, get_string, create_info}
use flingd_cc.Media.Store.{Player, load, Manager, Do}
use flingd_cc.Media.Keeps.{
  Keeps, ok-Keeps, crash-Keeps, bind-Keeps, at-Keeps, get_int-Keeps, get_string-Keeps,
  create_info-Keeps,
}
use flingd_cc.Media.Manager.{
  post_player_status, command, do_play, do_pause, do_seek, do_set_volume, load_info, do_load,
  set_current_time, seek_to, set_level, set_volume_of, dispatch, on_message,
}

-- The text of the type of a message.
abbrev text_or_empty : {D : Type 0} → Option (Json D) → String
text_or_empty (some (texts t)) = t
text_or_empty v = ""

abbrev pub type_of : {D : Type 0} → Json D → String
type_of (object ms) = text_or_empty (find_member "type" ms)
type_of v = ""

module _ {D : Type 0} (le : D → D → Bool) (zero_ one : D) (P : Manager D → Type 0) where
  -- What a message of a type does keeps the property.
  pub record Kept (type_ : String) (p : Player D) : Type 0 where
    pub media : (i : Option MediaInfo) → Keeps P (λ (w : Manager D). ok tt (record w { media = i }))
    pub time : (v : Json D) → Keeps P (set_current_time v)
    pub post : (n : ℤ) → Keeps P (post_player_status p n "")
    pub loads :
        str_eq type_ "LOAD" ≡ true
        → (n : ℤ) (id : String) → Keeps P (command (λ w. record w { request_load = n }) (load id))
    pub pauses : str_eq type_ "PAUSE" ≡ true → (n : ℤ) → Keeps P (do_pause n)
    pub plays : str_eq type_ "PLAY" ≡ true → (n : ℤ) → Keeps P (do_play n)
    pub seeks : str_eq type_ "SEEK" ≡ true → (n : ℤ) (x : D) → Keeps P (do_seek x n)
    pub sets_volume :
        str_eq type_ "SET_VOLUME" ≡ true
        → (n : ℤ) (x : D) → (le zero_ x && le x one) ≡ true
        → Keeps P (do_set_volume x n)

  module _ (type_ : String) (p : Player D) (k : Kept type_ p) (n : ℤ) where
    info-Keeps :
        str_eq type_ "LOAD" ≡ true → (o : Option MediaInfo) (v : Json D) → Keeps P (load_info o v n)
    unfolding load_info
    info-Keeps e none v =
        bind-Keeps P (get_string v) (λ t. skip) (get_string-Keeps P v) (λ t. ok-Keeps P tt)
    info-Keeps e (some i) v = bind-Keeps P _ _ (k.media (some i)) (λ u. k.loads e n i.content_id)

    seek-Keeps : str_eq type_ "SEEK" ≡ true → (v : Json D) → Keeps P (seek_to v n)
    unfolding seek_to
    seek-Keeps e (double x) = k.seeks e n x
    seek-Keeps e null = ok-Keeps P tt
    seek-Keeps e (boolean b) = ok-Keeps P tt
    seek-Keeps e (integer m) = ok-Keeps P tt
    seek-Keeps e (texts t) = ok-Keeps P tt
    seek-Keeps e (array is) = ok-Keeps P tt
    seek-Keeps e (object ms) = ok-Keeps P tt

    level-Keeps :
        str_eq type_ "SET_VOLUME" ≡ true → (v : Json D) → Keeps P (set_level le zero_ one v n)
    unfolding set_level
    level-Keeps e (double x) = elim (Bool-cases (le zero_ x && le x one)) [
      | inl b ↦ rw b (k.sets_volume e n x b)
      | inr b ↦ rw b (ok-Keeps P tt)
    ]
    level-Keeps e null = ok-Keeps P tt
    level-Keeps e (boolean b) = ok-Keeps P tt
    level-Keeps e (integer m) = ok-Keeps P tt
    level-Keeps e (texts t) = ok-Keeps P tt
    level-Keeps e (array is) = ok-Keeps P tt
    level-Keeps e (object ms) = ok-Keeps P tt

    volume-Keeps :
        str_eq type_ "SET_VOLUME" ≡ true → (v : Json D) → Keeps P (set_volume_of le zero_ one v n)
    unfolding set_volume_of
    volume-Keeps e (object ms) =
        bind-Keeps P (at "level" (object ms)) _ (at-Keeps P "level" (object ms)) (level-Keeps e)
    volume-Keeps e null = ok-Keeps P tt
    volume-Keeps e (boolean b) = ok-Keeps P tt
    volume-Keeps e (integer m) = ok-Keeps P tt
    volume-Keeps e (double x) = ok-Keeps P tt
    volume-Keeps e (texts t) = ok-Keeps P tt
    volume-Keeps e (array is) = ok-Keeps P tt

    load-Keeps : str_eq type_ "LOAD" ≡ true → (v : Json D) → Keeps P (do_load v n)
    unfolding do_load
    load-Keeps e v = bind-Keeps P (create_info v) _ (create_info-Keeps P v) (λ i. info-Keeps e i v)

    case-Keeps :
        (b : Bool) (f g : Do D) → (b ≡ true → Keeps P f) → Keeps P g → Keeps P (if b then f else g)
    case-Keeps true f g x y = x refl
    case-Keeps false f g x y = y

    pub dispatch-Keeps : (d : Json D) → Keeps P (dispatch le zero_ one p d n type_)
    unfolding dispatch
    dispatch-Keeps d =
        case-Keeps (str_eq type_ "LOAD") _ _
          (λ e. bind-Keeps P (at "currentTime" d) _ (at-Keeps P "currentTime" d) (λ v.
            bind-Keeps P (set_current_time v) _ (k.time v)
              (λ u. bind-Keeps P (at "media" d) _ (at-Keeps P "media" d) (load-Keeps e))))
          (case-Keeps (str_eq type_ "PAUSE") _ _ (λ e. k.pauses e n)
            (case-Keeps (str_eq type_ "PLAY") _ _ (λ e. k.plays e n)
              (case-Keeps (str_eq type_ "SET_VOLUME") _ _
                (λ e. bind-Keeps P (at "volume" d) _ (at-Keeps P "volume" d) (volume-Keeps e))
                (case-Keeps (str_eq type_ "SEEK") _ _
                  (λ e.
                    bind-Keeps P (at "currentTime" d) _ (at-Keeps P "currentTime" d) (seek-Keeps e))
                  (case-Keeps (str_eq type_ "GET_STATUS") _ _ (λ e. k.post n) (ok-Keeps P tt))))))

  typed-Keeps :
      (p : Player D) (d : Json D) (n : ℤ) (o : Option (Json D))
      → Kept (text_or_empty o) p
      → Keeps P
          (value_or_null o >>= (λ t. get_string t >>= (λ type_. dispatch le zero_ one p d n type_)))
  unfolding get_string
  typed-Keeps p d n none k = crash-Keeps P
  typed-Keeps p d n (some null) k = crash-Keeps P
  typed-Keeps p d n (some (boolean b)) k = crash-Keeps P
  typed-Keeps p d n (some (integer m)) k = crash-Keeps P
  typed-Keeps p d n (some (double x)) k = crash-Keeps P
  typed-Keeps p d n (some (texts t)) k = dispatch-Keeps t p k n d
  typed-Keeps p d n (some (array is)) k = crash-Keeps P
  typed-Keeps p d n (some (object ms)) k = crash-Keeps P

  -- a message whose type does nothing that does not keep the property
  pub on_message-Keeps :
      (p : Player D) (d : Json D) → Kept (type_of d) p → Keeps P (on_message le zero_ one p d)
  unfolding on_message at
  on_message-Keeps p null k = ok-Keeps P tt
  on_message-Keeps p (boolean b) k = crash-Keeps P
  on_message-Keeps p (integer m) k = crash-Keeps P
  on_message-Keeps p (double x) k = crash-Keeps P
  on_message-Keeps p (texts t) k = crash-Keeps P
  on_message-Keeps p (array is) k = crash-Keeps P
  on_message-Keeps p (object ms) k =
      let d : Json D = object ms in
      bind-Keeps P (at "requestId" d) _ (at-Keeps P "requestId" d) (λ r.
        bind-Keeps P (get_int r) _ (get_int-Keeps P r)
          (λ n. typed-Keeps p d n (find_member "type" ms) k))
