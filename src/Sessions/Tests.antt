-- ===== src/Sessions/Tests.antt =====
-- The theorems about sessions at concrete inputs, and runs of the code.
use flingd_cc.Base.{
  ◌≡◌, ◌≢◌, refl, String, true, false, none, some, List, [], ◌∷◌, arith, eq_iff, is_some,
}
use flingd_cc.Sessions.Manager.{SessionManager, sender_connected, sender_disconnected, get_sender}
use flingd_cc.Sessions.Laws.{
  Operation, creates_sender, touches_sender, disconnects_sender, sets_listener, apply, IsValid,
  apply-IsValid, find-apply, session_after,
}
use flingd_cc.Sessions.View.{known, run, no_sessions, run-knows}

abbrev one_sender : SessionManager
one_sender = record {
  senders = ("t1", record { token = "t1"; app_id = "~a"; deadline = some 10; closed = false }) ∷ [];
  receiver = none;
  listener = none;
}

one_sender-IsValid : IsValid one_sender
one_sender-IsValid = record { distinct = (tt, tt); keyed = (refl, refl, refl, tt) }

two_senders : (apply (creates_sender 0 "t1" "~a") no_sessions).senders ≡ one_sender.senders
unfolding apply
two_senders = refl

apply-IsValid_example : IsValid (apply (creates_sender 3 "t0" "~a") one_sender)
apply-IsValid_example = apply-IsValid (creates_sender 3 "t0" "~a") one_sender one_sender-IsValid

find-apply_example :
    get_sender "t1" (apply (touches_sender 7 "t1") one_sender)
    ≡ session_after (touches_sender 7 "t1") "t1" one_sender
find-apply_example = find-apply (touches_sender 7 "t1") "t1" one_sender one_sender-IsValid

abbrev history : List Operation
history =
    creates_sender 0 "t1" "~a"
    ∷ sets_listener true
    ∷ creates_sender 1 "t2" "~a"
    ∷ disconnects_sender "t1"
    ∷ []

run-knows_example :
    known "t1" (sender_disconnected "t1" ∷ sender_connected "t2" ∷ sender_connected "t1" ∷ [])
    ≡ is_some (get_sender "t1" (run history no_sessions))
run-knows_example = run-knows history "t1" _ (unfold run in refl)

t1_not_t2 : ◌≢◌ {A = String} "t1" "t2"
t1_not_t2 = ground (arith, eq_iff "t1" "t2")
