-- ===== src/Sessions/Lifetimes.antt =====
-- When sessions end.
use flingd_cc.Base.{
  ℕ, ◌+◌, ◌≡◌, ◌≢◌, refl, ◌∙◌, String, Bool, false, none, some, List, [], ◌∷◌, arith, str_eq,
  eq_iff, leb,
}
use flingd_cc.StdMap.{find, find-erase}
use flingd_cc.Sessions.Manager.{
  Session, SessionManager, trigger_timer, is_expired, get_sender, check_sender, touch_sender,
  create_receiver, disconnect_receiver, disconnect_sender, on_receiver_timeout,
}
use flingd_cc.Sessions.Laws.{
  find-update, IsValid, Operation, creates_sender, touches_sender, disconnects_sender,
  times_out_sender, creates_receiver, touches_receiver, disconnects_receiver, times_out_receiver,
  sets_listener, apply, apply-IsValid, find-apply,
}
use flingd_cc.Sessions.View.{run}

expires :
    (now later : ℕ) (s : Session) → is_expired later (trigger_timer now s) ≡ leb (now + 10) later
unfolding is_expired trigger_timer
expires now later s = refl

-- A touch succeeds exactly for a connected sender, and then its session expires ten seconds after
-- the touch, however it stood before.
pub touch-expires :
    (now later : ℕ) (token : String) (m : SessionManager)
    → ((touch_sender now token m).1 ≡ check_sender token m)
      × ((s : Session)
          → get_sender token m ≡ some s
          → (r : Session) × (get_sender token (touch_sender now token m).0 ≡ some r)
            × (is_expired later r ≡ leb (now + 10) later))
unfolding touch_sender check_sender get_sender
touch-expires now later token m = (
  ground arith,
  λ s e. (
    trigger_timer now s,
    ground (arith, eq_iff token token, find-update token token (trigger_timer now) m.senders),
    expires now later s,
  ),
)

disconnect_unknown :
    (token : String) (m : SessionManager)
    → find token m.senders ≡ none
    → disconnect_sender token m ≡ (m, false)
unfolding disconnect_sender
disconnect_unknown token m e = rw e

pub disconnected :
    (token : String) (m : SessionManager)
    → IsValid m
    → find token (disconnect_sender token m).0.senders ≡ none
unfolding disconnect_sender
disconnected token m v =
    ground (arith, eq_iff token token, find-erase token token m.senders v.distinct)

disconnect-IsValid :
    (token : String) (m : SessionManager) → IsValid m → IsValid (disconnect_sender token m).0
unfolding disconnect_sender apply
disconnect-IsValid token m v = apply-IsValid (disconnects_sender token) m v

-- whether an operation creates a session with the token
abbrev pub makes : String → Operation → Bool
makes t (creates_sender now token app_id) = str_eq token t
makes t o = false

abbrev pub MakesNone : String → List Operation → Type 0
MakesNone t [] = Unit {0}
MakesNone t (o ∷ os) = (makes t o ≡ false) × MakesNone t os

apply-unknown :
    (o : Operation) (t : String) (m : SessionManager)
    → IsValid m
    → makes t o ≡ false
    → get_sender t m ≡ none
    → get_sender t (apply o m) ≡ none
unfolding get_sender
apply-unknown (creates_sender now token app_id) t m v n h =
    find-apply (creates_sender now token app_id) t m v ∙ rw (n) h
apply-unknown (touches_sender now token) t m v n h =
    find-apply (touches_sender now token) t m v ∙ ground (arith)
apply-unknown (disconnects_sender token) t m v n h =
    find-apply (disconnects_sender token) t m v ∙ ground (arith)
apply-unknown (times_out_sender token) t m v n h =
    find-apply (times_out_sender token) t m v ∙ ground (arith)
apply-unknown (creates_receiver now token app_id) t m v n h =
    find-apply (creates_receiver now token app_id) t m v ∙ h
apply-unknown (touches_receiver now app_id) t m v n h =
    find-apply (touches_receiver now app_id) t m v ∙ h
apply-unknown (disconnects_receiver app_id) t m v n h =
    find-apply (disconnects_receiver app_id) t m v ∙ h
apply-unknown (times_out_receiver token) t m v n h = find-apply (times_out_receiver token) t m v ∙ h
apply-unknown (sets_listener present) t m v n h = find-apply (sets_listener present) t m v ∙ h

run-unknown :
    (os : List Operation) (t : String) (m : SessionManager)
    → IsValid m
    → MakesNone t os
    → get_sender t m ≡ none
    → check_sender t (run os m) ≡ false
unfolding run check_sender get_sender
run-unknown [] t m v n h = rw h refl
run-unknown (o ∷ os) t m v n h =
    run-unknown os t (apply o m) (apply-IsValid o m v) n.1 (apply-unknown o t m v n.0 h)

-- A sender that was disconnected stays unknown through all operations that create no session with
-- its token.
pub disconnect-stays :
    (os : List Operation) (token : String) (m : SessionManager)
    → IsValid m
    → MakesNone token os
    → check_sender token (run os (disconnect_sender token m).0) ≡ false
unfolding get_sender
disconnect-stays os token m v n =
    run-unknown os token (disconnect_sender token m).0 (disconnect-IsValid token m v) n
      (disconnected token m v)

-- A sender that was disconnected is unknown, and disconnecting it again fails and changes nothing.
pub disconnect_twice :
    (token : String) (m : SessionManager)
    → IsValid m
    → (check_sender token (disconnect_sender token m).0 ≡ false)
      × (disconnect_sender token (disconnect_sender token m).0
          ≡ ((disconnect_sender token m).0, false))
unfolding check_sender
disconnect_twice token m v =
    let e = disconnected token m v in
    (rw e, disconnect_unknown token (disconnect_sender token m).0 e)

-- A receiver's session that was disconnected still has a timer. When it expires, the session of a
-- receiver that has registered since, under another token, stays.
pub stale_receiver_timeout :
    (now now' : ℕ) (token token' app app' : String) (m : SessionManager)
    → m.receiver ≡ none
    → token ≢ token'
    → on_receiver_timeout token
        (create_receiver now' token' app'
          (disconnect_receiver app (create_receiver now token app m).0).0).0
      ≡ (create_receiver now' token' app' m).0
unfolding on_receiver_timeout create_receiver disconnect_receiver trigger_timer
stale_receiver_timeout now now' token token' app app' m e d =
    ground (arith, eq_iff app app, eq_iff token token')
