-- ===== src/Media/Answers.antt =====
-- Which requests MediaManager of sdk/receiver/src/media/MediaManager.cpp answers.
use flingd_cc.Base.{Bool, true, false, List, ◌∷◌, ◌≡◌, refl, subst, All}
use flingd_cc.Base.Int.{pos}
use flingd_cc.Base.Machine.{ok}
use flingd_cc.Media.Store.{Player, Manager}
use flingd_cc.Media.Writer.{write_status}
use flingd_cc.Media.Keeps.{Holds}
use flingd_cc.Media.Requests.{
  Request, loads, plays, pauses, seeks, sets_volume, request_of, on_done, posted, Event, run,
  run-Keeps,
}
use flingd_cc.Media.Manager.{
  refreshed, send_status, post_player_status, on_loaded, on_playing, on_paused, on_seeked,
  on_volume_changed,
}
use flingd_cc.Media.Waits.{is_about, Waits, all_steps-Waits}

module _ {D : Type 0} (le : D → D → Bool) (zero_ one : D) where
  answer :
      (k : Request) (x : Manager D) (p : Player D)
      → x.attached ≡ true
      → (y : Manager D) × (on_done le zero_ one k p x ≡ ok tt y)
        × (y.sent
            ≡ write_status (refreshed p (posted le zero_ one k) x) (request_of le zero_ one k x)
              ∷ x.sent)
        × (request_of le zero_ one k y ≡ pos 0)
  unfolding on_done post_player_status send_status refreshed on_loaded on_playing on_paused
      on_seeked on_volume_changed
  answer loads x p e = (
    record (refreshed p "PLAYING" x) {
      sent = write_status (refreshed p "PLAYING" x) x.request_load ∷ x.sent;
      request_load = pos 0;
    },
    simp e,
    refl,
    refl,
  )
  answer plays x p e = (
    record (refreshed p "PLAYING" x) {
      sent = write_status (refreshed p "PLAYING" x) x.request_play ∷ x.sent;
      request_play = pos 0;
    },
    simp e,
    refl,
    refl,
  )
  answer pauses x p e = (
    record (refreshed p "PAUSED" x) {
      sent = write_status (refreshed p "PAUSED" x) x.request_pause ∷ x.sent;
      request_pause = pos 0;
    },
    simp e,
    refl,
    refl,
  )
  answer seeks x p e = (
    record (refreshed p "PLAYING" x) {
      sent = write_status (refreshed p "PLAYING" x) x.request_seek ∷ x.sent;
      request_seek = pos 0;
    },
    simp e,
    refl,
    refl,
  )
  answer sets_volume x p e = (
    record (refreshed p "PAUSED" x) {
      sent = write_status (refreshed p "PAUSED" x) x.request_set_volume ∷ x.sent;
      request_set_volume = pos 0;
    },
    simp e,
    refl,
    refl,
  )

  -- A number that is kept for a request, while there is a player, is the one of the status that is sent
  -- when the player calls back for it, whatever other messages and callbacks come before, as long as
  -- the player is not taken away; the number is then 0.
  pub request_answered :
      (k : Request) (es : List (Event le zero_ one)) (w x : Manager D) (p : Player D)
      → w.attached ≡ true
      → All (λ e. is_about le zero_ one k e ≡ false) es
      → run le zero_ one es w ≡ ok tt x
      → (y : Manager D) × (on_done le zero_ one k p x ≡ ok tt y)
        × (y.sent
            ≡ write_status (refreshed p (posted le zero_ one k) x) (request_of le zero_ one k w)
              ∷ x.sent)
        × (request_of le zero_ one k y ≡ pos 0)
  request_answered k es w x p on others e =
      let n = request_of le zero_ one k w in
      let all = all_steps-Waits le zero_ one k n es others in
      let held =
        subst (Holds (Waits le zero_ one k n)) e
          ((run-Keeps le zero_ one (Waits le zero_ one k n) es all).holds w (refl, on)) in
      let (y, done, said, none_left) = answer k x p held.1 in
      (
        y,
        done,
        subst (λ m. y.sent ≡ write_status (refreshed p (posted le zero_ one k) x) m ∷ x.sent) held.0
            said,
        none_left,
      )
