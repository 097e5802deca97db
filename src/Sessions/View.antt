-- ===== src/Sessions/View.antt =====
-- What the listener knows of the senders, from what it has been told.
use flingd_cc.Base.{
  ◌≡◌, refl, subst, String, Bool, true, false, Option, none, some, List, [], ◌∷◌, arith, str_eq,
  eq_iff, is_some, if◌then◌else◌,
}
use flingd_cc.StdMap.{find, find-insert, find-erase}
use flingd_cc.Sessions.Manager.{
  Session, SessionManager, Notice, sender_connected, sender_disconnected, receiver_disconnected,
  greetings, get_sender, disconnect_sender, trigger_timer, new_session,
}
use flingd_cc.Sessions.Laws.{
  Operation, creates_sender, touches_sender, disconnects_sender, times_out_sender, creates_receiver,
  touches_receiver, disconnects_receiver, times_out_receiver, sets_listener, apply, Keyed, IsValid,
  find-update, apply-IsValid,
}

-- The latest notice about a sender decides.
unfoldable pub known : String → List Notice → Bool
known t [] = false
known t (sender_connected k ∷ ns) = if str_eq k t then true else known t ns
known t (sender_disconnected k ∷ ns) = if str_eq k t then false else known t ns
known t (receiver_disconnected a ∷ ns) = known t ns

known-greetings :
    (t : String) (m : List (String × Session)) (ns : List Notice)
    → Keyed m
    → known t (greetings m ns) ≡ (if is_some (find t m) then true else known t ns)
unfolding known greetings find
known-greetings t [] ns h = refl
known-greetings t ((k, s) ∷ m) ns h =
    ground (arith, known-greetings t m (sender_connected s.token ∷ ns) h.3, eq_iff k t)

-- The listener, if there is one, knows exactly the senders that are connected.
abbrev pub Agrees : String → SessionManager → Option (List Notice) → Type 0
Agrees t m none = Unit {0}
Agrees t m (some ns) = known t ns ≡ is_some (get_sender t m)

unfoldable pub run : List Operation → SessionManager → SessionManager
unfolding apply
run [] m = m
run (o ∷ os) m = run os (apply o m)

disconnect-Agrees :
    (token t : String) (m : SessionManager)
    → IsValid m
    → Agrees t m m.listener
    → Agrees t (disconnect_sender token m).0 (disconnect_sender token m).0.listener
unfolding disconnect_sender get_sender known
disconnect-Agrees token t m v a =
    ground (arith, eq_iff token t, find-erase token t m.senders v.distinct)

apply-Agrees :
    (o : Operation) (t : String) (m : SessionManager)
    → IsValid m
    → Agrees t m m.listener
    → Agrees t (apply o m) (apply o m).listener
unfolding apply get_sender known
apply-Agrees (creates_sender now token app_id) t m v a = ground (
  arith,
  eq_iff token t,
  find-insert token t (trigger_timer now (new_session token app_id)) m.senders,
)
apply-Agrees (touches_sender now token) t m v a =
    ground (arith, eq_iff token t, find-update token t (trigger_timer now) m.senders)
apply-Agrees (disconnects_sender token) t m v a = disconnect-Agrees token t m v a
apply-Agrees (times_out_sender token) t m v a = disconnect-Agrees token t m v a
apply-Agrees (creates_receiver now token app_id) t m v a = ground arith
apply-Agrees (touches_receiver now app_id) t m v a = ground arith
apply-Agrees (disconnects_receiver app_id) t m v a = ground arith
apply-Agrees (times_out_receiver token) t m v a = ground arith
apply-Agrees (sets_listener present) t m v a =
    ground (arith, known-greetings t m.senders [] v.keyed)

run-IsValid : (os : List Operation) (m : SessionManager) → IsValid m → IsValid (run os m)
unfolding run
run-IsValid [] m v = v
run-IsValid (o ∷ os) m v = run-IsValid os (apply o m) (apply-IsValid o m v)

run-Agrees :
    (os : List Operation) (t : String) (m : SessionManager)
    → IsValid m
    → Agrees t m m.listener
    → Agrees t (run os m) (run os m).listener
unfolding run
run-Agrees [] t m v a = a
run-Agrees (o ∷ os) t m v a =
    run-Agrees os t (apply o m) (apply-IsValid o m v) (apply-Agrees o t m v a)

abbrev pub no_sessions : SessionManager
no_sessions = record { senders = []; receiver = none; listener = none }

-- After any operations from the start, a listener that is set knows from what it has been told
-- exactly the senders that are connected, whenever it was set.
pub run-knows :
    (os : List Operation) (t : String) (ns : List Notice)
    → (run os no_sessions).listener ≡ some ns
    → known t ns ≡ is_some (get_sender t (run os no_sessions))
run-knows os t ns e =
    subst (Agrees t (run os no_sessions)) e
      (run-Agrees os t no_sessions (record { distinct = tt; keyed = tt }) tt)
