-- ===== src/Media/Requests.antt =====
-- The requests that MediaManager of sdk/receiver/src/media/MediaManager.cpp answers, and what it tells
-- the player.
use flingd_cc.Base.{
  arith, String, Bool, true, List, [], ◌∷◌, str_eq, ◌≡◌, refl, sym, subst, All, Bool-cases, inl,
  inr,
}
use flingd_cc.Base.Int.{ℤ, pos}
use flingd_cc.Base.Machine.{ok, skip, ◌>>◌}
use flingd_cc.Media.Json.{Json, null, boolean, integer, double, texts, array, object}
use flingd_cc.Media.Store.{Player, Command, load, play, pause, seek, set_volume, Manager, Do}
use flingd_cc.Media.Keeps.{Holds, Keeps, ok-Keeps, bind-Keeps}
use flingd_cc.Media.Messages.{type_of, Kept, on_message-Keeps}
use flingd_cc.Media.Manager.{
  set_media_player, refreshed, send_status, post_player_status, command, do_play, do_pause, do_seek,
  do_set_volume, set_current_time, on_message, on_loaded, on_playing, on_paused, on_seeked,
  on_volume_changed, on_buffering, on_idle,
}

-- The commands whose request is answered when the player calls back.
pub data Request : Type 0 where
  loads : Request
  plays : Request
  pauses : Request
  seeks : Request
  sets_volume : Request

abbrev pub name_of : Request → String
name_of loads = "LOAD"
name_of plays = "PLAY"
name_of pauses = "PAUSE"
name_of seeks = "SEEK"
name_of sets_volume = "SET_VOLUME"

abbrev pub is_same : Request → Request → Bool
is_same k j = str_eq (name_of k) (name_of j)

module _ {D : Type 0} (le : D → D → Bool) (zero_ one : D) where
  -- the number that is kept for the request
  abbrev pub request_of : Request → Manager D → ℤ
  request_of loads w = w.request_load
  request_of plays w = w.request_play
  request_of pauses w = w.request_pause
  request_of seeks w = w.request_seek
  request_of sets_volume w = w.request_set_volume

  -- the callback for a request that was carried out, and the state that it posts
  unfoldable pub on_done : Request → Player D → Do D
  unfolding on_loaded on_playing on_paused on_seeked on_volume_changed
  on_done loads p = on_loaded p
  on_done plays p = on_playing p
  on_done pauses p = on_paused p
  on_done seeks p = on_seeked p
  on_done sets_volume p = on_volume_changed p

  abbrev pub posted : Request → String
  posted loads = "PLAYING"
  posted plays = "PLAYING"
  posted pauses = "PAUSED"
  posted seeks = "PLAYING"
  posted sets_volume = "PAUSED"

  pub data Event : Type 0 where
    message : Player D → Json D → Event
    finished : Request → Player D → Event
    buffers : Player D → Event
    rests : Player D → Event
    attaches : Bool → Event

  unfoldable pub step : Event → Do D
  unfolding on_message on_done on_buffering on_idle set_media_player
  step (message p d) = on_message le zero_ one p d
  step (finished k p) = on_done k p
  step (buffers p) = on_buffering p
  step (rests p) = on_idle p
  step (attaches b) = set_media_player b

  unfoldable pub run : List Event → Do D
  unfolding step
  run [] = skip
  run (e ∷ es) = do step e; run es

  -- A volume that the player is given is between 0 and 1.
  abbrev pub IsAllowed : Command D → Type 0
  IsAllowed (load id) = Unit {0}
  IsAllowed play = Unit {0}
  IsAllowed pause = Unit {0}
  IsAllowed (seek x) = Unit {0}
  IsAllowed (set_volume x) = (le zero_ x ≡ true) × (le x one ≡ true)

  abbrev pub AllAllowed : Manager D → Type 0
  AllAllowed w = All IsAllowed w.commands

  post-AllAllowed :
      (p : Player D) (n : ℤ) (s : String) → Keeps AllAllowed (post_player_status p n s)
  unfolding post_player_status send_status refreshed
  post-AllAllowed p n s = record {
    holds = λ w h. elim (Bool-cases w.attached) [
      | inl e ↦ rw (post_player_status, e) h
      | inr e ↦ rw (post_player_status, e) h
    ];
  }

  command-AllAllowed :
      (note : Manager D → Manager D) (c : Command D)
      → ((w : Manager D) → (note w).commands ≡ w.commands)
      → IsAllowed c
      → Keeps AllAllowed (command note c)
  unfolding command
  command-AllAllowed note c same a = record {
    holds = λ w h. elim (Bool-cases w.attached) [
      | inl e ↦ let moved = subst (All IsAllowed) (sym (same w)) h in simp e (a, moved)
      | inr e ↦ rw (command, e) h
    ];
  }

  time-AllAllowed : (v : Json D) → Keeps AllAllowed (set_current_time v)
  unfolding set_current_time
  time-AllAllowed null = ok-Keeps _ tt
  time-AllAllowed (boolean b) = ok-Keeps _ tt
  time-AllAllowed (integer m) = ok-Keeps _ tt
  time-AllAllowed (double x) = record { holds = λ w h. h }
  time-AllAllowed (texts t) = ok-Keeps _ tt
  time-AllAllowed (array is) = ok-Keeps _ tt
  time-AllAllowed (object ms) = ok-Keeps _ tt

  kept : (type_ : String) (p : Player D) → Kept le zero_ one AllAllowed type_ p
  unfolding do_play do_pause do_seek do_set_volume
  kept type_ p = record {
    media = λ i. record { holds = λ w h. h };
    time = time-AllAllowed;
    post = λ n. post-AllAllowed p n "";
    loads = λ e n id. command-AllAllowed _ (load id) (λ w. refl) tt;
    pauses = λ e n. command-AllAllowed _ pause (λ w. refl) tt;
    plays = λ e n. command-AllAllowed _ play (λ w. refl) tt;
    seeks = λ e n x. command-AllAllowed _ (seek x) (λ w. refl) tt;
    sets_volume = λ e n x b. command-AllAllowed _ (set_volume x) (λ w. refl) (ground (arith, b));
  }

  callback-AllAllowed :
      (p : Player D) (n : ℤ) (s : String) (reset : Manager D → Manager D)
      → ((w : Manager D) → (reset w).commands ≡ w.commands)
      → Keeps AllAllowed (post_player_status p n s >> (λ u. ok tt (reset u)))
  callback-AllAllowed p n s reset same =
      bind-Keeps AllAllowed (post_player_status p n s) _ (post-AllAllowed p n s)
        (λ u. record { holds = λ w h. subst (All IsAllowed) (sym (same w)) h })

  done-AllAllowed : (k : Request) (p : Player D) → Keeps AllAllowed (on_done k p)
  unfolding on_done
  done-AllAllowed loads p = record {
    holds = λ w h. (callback-AllAllowed p w.request_load "PLAYING" _ (λ u. refl)).holds w h;
  }
  done-AllAllowed plays p = record {
    holds = λ w h. (callback-AllAllowed p w.request_play "PLAYING" _ (λ u. refl)).holds w h;
  }
  done-AllAllowed pauses p = record {
    holds = λ w h. (callback-AllAllowed p w.request_pause "PAUSED" _ (λ u. refl)).holds w h;
  }
  done-AllAllowed seeks p = record {
    holds = λ w h. (callback-AllAllowed p w.request_seek "PLAYING" _ (λ u. refl)).holds w h;
  }
  done-AllAllowed sets_volume p = record {
    holds = λ w h. (callback-AllAllowed p w.request_set_volume "PAUSED" _ (λ u. refl)).holds w h;
  }

  step-AllAllowed : (e : Event) → Keeps AllAllowed (step e)
  unfolding step on_buffering on_idle set_media_player
  step-AllAllowed (message p d) = on_message-Keeps le zero_ one AllAllowed p d (kept (type_of d) p)
  step-AllAllowed (finished k p) = done-AllAllowed k p
  step-AllAllowed (buffers p) = post-AllAllowed p (pos 0) "BUFFERING"
  step-AllAllowed (rests p) = post-AllAllowed p (pos 0) "IDLE"
  step-AllAllowed (attaches b) = record { holds = λ w h. h }

  pub run-Keeps :
      (P : Manager D → Type 0) (es : List Event) → All (λ e. Keeps P (step e)) es → Keeps P (run es)
  unfolding run
  run-Keeps P [] a = ok-Keeps P tt
  run-Keeps P (e ∷ es) a = bind-Keeps P (step e) _ a.0 (λ u. run-Keeps P es a.1)

  all_steps-AllAllowed : (es : List Event) → All (λ e. Keeps AllAllowed (step e)) es
  all_steps-AllAllowed [] = tt
  all_steps-AllAllowed (e ∷ es) = (step-AllAllowed e, all_steps-AllAllowed es)

  -- After any events, as long as the program does not fail, every volume that the player was given is
  -- at least 0 and at most 1, if that is so before.
  pub volumes_in_unit :
      (es : List Event) (w x : Manager D)
      → All IsAllowed w.commands
      → run es w ≡ ok tt x
      → All IsAllowed x.commands
  volumes_in_unit es w x h e =
      let k = (run-Keeps AllAllowed es (all_steps-AllAllowed es)).holds w h in
      subst (Holds AllAllowed) e k
