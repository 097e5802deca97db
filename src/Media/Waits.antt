-- ===== src/Media/Waits.antt =====
-- What keeps the number of a request in sdk/receiver/src/media/MediaManager.cpp.
use flingd_cc.Base.{
  String, Bool, true, false, not, List, [], ◌∷◌, str_eq, if◌then◌else◌, ◌≡◌, refl, All, arith, ◌∙◌,
  eq_iff,
}
use flingd_cc.Base.Int.{ℤ, pos}
use flingd_cc.Base.Machine.{Run, ok, ◌>>◌}
use flingd_cc.Media.Json.{Json, null, boolean, integer, double, texts, array, object}
use flingd_cc.Media.Store.{Player, Command, load, play, pause, seek, set_volume, Manager}
use flingd_cc.Media.Keeps.{Holds, Keeps, ok-Keeps, bind-Keeps}
use flingd_cc.Media.Messages.{type_of, Kept, on_message-Keeps}
use flingd_cc.Media.Requests.{
  attaches, Request, loads, plays, pauses, seeks, sets_volume, name_of, is_same, request_of,
  on_done, Event, message, finished, buffers, rests, step,
}
use flingd_cc.Media.Manager.{
  set_media_player, refreshed, send_status, post_player_status, command, do_play, do_pause, do_seek,
  do_set_volume, set_current_time, on_loaded, on_playing, on_paused, on_seeked, on_volume_changed,
  on_buffering, on_idle,
}

module _ {D : Type 0} (le : D → D → Bool) (zero_ one : D) where
  -- A message of the request's type, the callback for the request, or the loss of the player.
  abbrev pub is_about : Request → Event le zero_ one → Bool
  is_about k (message p d) = str_eq (type_of d) (name_of k)
  is_about k (finished j p) = is_same j k
  is_about k (buffers p) = false
  is_about k (rests p) = false
  is_about k (attaches b) = not b

  abbrev set_request : Request → ℤ → Manager D → Manager D
  set_request loads n w = record w { request_load = n }
  set_request plays n w = record w { request_play = n }
  set_request pauses n w = record w { request_pause = n }
  set_request seeks n w = record w { request_seek = n }
  set_request sets_volume n w = record w { request_set_volume = n }

  request-set :
      (k j : Request) (n : ℤ) (w : Manager D)
      → is_same j k ≡ false
      → request_of le zero_ one k (set_request j n w) ≡ request_of le zero_ one k w
  request-set loads loads n w e = absurd (ground arith)
  request-set loads plays n w e = refl
  request-set loads pauses n w e = refl
  request-set loads seeks n w e = refl
  request-set loads sets_volume n w e = refl
  request-set plays loads n w e = refl
  request-set plays plays n w e = absurd (ground arith)
  request-set plays pauses n w e = refl
  request-set plays seeks n w e = refl
  request-set plays sets_volume n w e = refl
  request-set pauses loads n w e = refl
  request-set pauses plays n w e = refl
  request-set pauses pauses n w e = absurd (ground arith)
  request-set pauses seeks n w e = refl
  request-set pauses sets_volume n w e = refl
  request-set seeks loads n w e = refl
  request-set seeks plays n w e = refl
  request-set seeks pauses n w e = refl
  request-set seeks seeks n w e = absurd (ground arith)
  request-set seeks sets_volume n w e = refl
  request-set sets_volume loads n w e = refl
  request-set sets_volume plays n w e = refl
  request-set sets_volume pauses n w e = refl
  request-set sets_volume seeks n w e = refl
  request-set sets_volume sets_volume n w e = absurd (ground arith)

  attached-set : (j : Request) (n : ℤ) (w : Manager D) → (set_request j n w).attached ≡ w.attached
  attached-set loads n w = refl
  attached-set plays n w = refl
  attached-set pauses n w = refl
  attached-set seeks n w = refl
  attached-set sets_volume n w = refl

  -- The number that is kept for the request, while there is a player.
  abbrev pub Waits : Request → ℤ → Manager D → Type 0
  Waits k n w = (request_of le zero_ one k w ≡ n) × (w.attached ≡ true)

  if-Holds :
      (P : Manager D → Type 0) (b : Bool) (r s : Run (Manager D) (Unit {0}))
      → Holds P r
      → Holds P s
      → Holds P (if b then r else s)
  if-Holds P true r s x y = x
  if-Holds P false r s x y = y

  Waits-commands :
      (k : Request) (n : ℤ) (w : Manager D) (m : List (Command D))
      → Waits k n w
      → Waits k n (record w { commands = m })
  Waits-commands k n w m h = (ground arith, h.1)

  Waits-posted :
      (k : Request) (n : ℤ) (w : Manager D) (p : Player D) (s : String) (m : List _)
      → Waits k n w
      → Waits k n (record (refreshed p s w) { sent = m })
  unfolding refreshed
  Waits-posted k n w p s m h = (ground arith, h.1)

  Waits-set :
      (k j : Request) (n m : ℤ) (w : Manager D)
      → is_same j k ≡ false
      → Waits k n w
      → Waits k n (set_request j m w)
  Waits-set k j n m w e h = (request-set k j m w e ∙ h.0, attached-set j m w ∙ h.1)

  module _ (k : Request) (n : ℤ) where
    post-Waits : (p : Player D) (m : ℤ) (s : String) → Keeps (Waits k n) (post_player_status p m s)
    unfolding post_player_status send_status
    post-Waits p m s = record {
      holds = λ w h. if-Holds (Waits k n) w.attached _ _ (Waits-posted k n w p s _ h) h;
    }

    command-Waits :
        (j : Request) (m : ℤ) (c : Command D)
        → is_same j k ≡ false
        → Keeps (Waits k n) (command (set_request j m) c)
    unfolding command
    command-Waits j m c e = record {
      holds = λ w h.
          let u = set_request j m w in
          if-Holds (Waits k n) w.attached _ _
            (Waits-commands k n u (c ∷ u.commands) (Waits-set k j n m w e h)) h;
    }

    time-Waits : (v : Json D) → Keeps (Waits k n) (set_current_time v)
    unfolding set_current_time
    time-Waits null = ok-Keeps _ tt
    time-Waits (boolean b) = ok-Keeps _ tt
    time-Waits (integer m) = ok-Keeps _ tt
    time-Waits (double x) = record { holds = λ w h. (ground (arith, h), h.1) }
    time-Waits (texts t) = ok-Keeps _ tt
    time-Waits (array is) = ok-Keeps _ tt
    time-Waits (object ms) = ok-Keeps _ tt

    other :
        (type_ : String) (j : Request)
        → str_eq type_ (name_of k) ≡ false
        → str_eq type_ (name_of j) ≡ true
        → is_same j k ≡ false
    other type_ j e f = ground (arith, eq_iff type_ (name_of j))

    kept :
        (type_ : String) (p : Player D)
        → str_eq type_ (name_of k) ≡ false
        → Kept le zero_ one (Waits k n) type_ p
    unfolding do_play do_pause do_seek do_set_volume
    kept type_ p e = record {
      media = λ i. record { holds = λ w h. (ground (arith, h), h.1) };
      time = time-Waits;
      post = λ m. post-Waits p m "";
      loads = λ f m id. command-Waits loads m (load id) (other type_ loads e f);
      pauses = λ f m. command-Waits pauses m pause (other type_ pauses e f);
      plays = λ f m. command-Waits plays m play (other type_ plays e f);
      seeks = λ f m x. command-Waits seeks m (seek x) (other type_ seeks e f);
      sets_volume =
          λ f m x b. command-Waits sets_volume m (set_volume x) (other type_ sets_volume e f);
    }

    callback-Waits :
        (j : Request) (p : Player D) (m : ℤ) (s : String)
        → is_same j k ≡ false
        → Keeps (Waits k n) (post_player_status p m s >> (λ u. ok tt (set_request j (pos 0) u)))
    callback-Waits j p m s e =
        bind-Keeps (Waits k n) (post_player_status p m s) _ (post-Waits p m s)
          (λ u. record { holds = λ w h. Waits-set k j n (pos 0) w e h })

    done-Waits :
        (j : Request) (p : Player D)
        → is_same j k ≡ false
        → Keeps (Waits k n) (on_done le zero_ one j p)
    unfolding on_done on_loaded on_playing on_paused on_seeked on_volume_changed
    done-Waits loads p e = record {
      holds = λ w h. (callback-Waits loads p w.request_load "PLAYING" e).holds w h;
    }
    done-Waits plays p e = record {
      holds = λ w h. (callback-Waits plays p w.request_play "PLAYING" e).holds w h;
    }
    done-Waits pauses p e = record {
      holds = λ w h. (callback-Waits pauses p w.request_pause "PAUSED" e).holds w h;
    }
    done-Waits seeks p e = record {
      holds = λ w h. (callback-Waits seeks p w.request_seek "PLAYING" e).holds w h;
    }
    done-Waits sets_volume p e = record {
      holds = λ w h. (callback-Waits sets_volume p w.request_set_volume "PAUSED" e).holds w h;
    }

    step-Waits :
        (e : Event le zero_ one) → is_about k e ≡ false → Keeps (Waits k n) (step le zero_ one e)
    unfolding step on_buffering on_idle set_media_player
    step-Waits (message p d) e =
        on_message-Keeps le zero_ one (Waits k n) p d (kept (type_of d) p e)
    step-Waits (finished j p) e = done-Waits j p e
    step-Waits (buffers p) e = post-Waits p (pos 0) "BUFFERING"
    step-Waits (rests p) e = post-Waits p (pos 0) "IDLE"
    step-Waits (attaches b) e = record { holds = λ w h. (ground (arith, h), ground arith) }

    pub all_steps-Waits :
        (es : List (Event le zero_ one))
        → All (λ e. is_about k e ≡ false) es
        → All (λ e. Keeps (Waits k n) (step le zero_ one e)) es
    all_steps-Waits [] a = tt
    all_steps-Waits (e ∷ es) a = (step-Waits e a.0, all_steps-Waits es a.1)
