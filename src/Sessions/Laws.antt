-- ===== src/Sessions/Laws.antt =====
-- The map of senders: its invariant, and what each operation does to the lookup of every token.
use flingd_cc.Base.{
  ℕ, ◌+◌, ◌≡◌, String, Bool, true, false, Option, none, some, List, [], ◌∷◌, arith, str_eq, eq_iff,
  is_some, if◌then◌else◌,
}
use mathlib.Core.Option
use flingd_cc.StdMap.{
  find, insert, place, erase, Lacks, Distinct, find-insert, find-erase, Distinct-insert,
  Distinct-erase,
}
use flingd_cc.Sessions.Manager.{
  Session, new_session, SessionManager, trigger_timer, get_sender, create_sender, touch_sender,
  disconnect_sender, on_sender_timeout, create_receiver, touch_receiver, disconnect_receiver,
  on_receiver_timeout, set_session_listener, update,
}

-- Each session stands under its token, open and with its timer armed.
abbrev pub Keyed : List (String × Session) → Type 0
Keyed [] = Unit {0}
Keyed ((k, s) ∷ m) = (s.token ≡ k) × (s.closed ≡ false) × (is_some s.deadline ≡ true) × Keyed m

pub record IsValid (m : SessionManager) : Type 0 where
  pub distinct : Distinct m.senders
  pub keyed : Keyed m.senders

Keyed-erase : (k : String) (m : List (String × Session)) → Keyed m → Keyed (erase k m)
unfolding erase
Keyed-erase k [] h = tt
Keyed-erase k ((j, s) ∷ m) h = ground (arith, Keyed-erase k m)

Lacks-update :
    (i k : String) (f : Session → Session) (m : List (String × Session))
    → Lacks i m
    → Lacks i (update k f m)
unfolding update
Lacks-update i k f [] l = tt
Lacks-update i k f ((j, s) ∷ m) l = ground (arith, Lacks-update i k f m l.1)

Distinct-update :
    (k : String) (f : Session → Session) (m : List (String × Session))
    → Distinct m
    → Distinct (update k f m)
unfolding update
Distinct-update k f [] d = tt
Distinct-update k f ((j, s) ∷ m) d =
    ground (arith, Lacks-update j k f m d.0, Distinct-update k f m d.1)

pub find-update :
    (k j : String) (f : Session → Session) (m : List (String × Session))
    → find j (update k f m) ≡ (if str_eq k j then Option.map f (find j m) else find j m)
unfolding find update
find-update k j f [] = ground arith
find-update k j f ((i, s) ∷ m) =
    ground (arith, eq_iff k j, eq_iff i k, eq_iff i j, find-update k j f m)

Keyed-place :
    (k : String) (s : Session) (m : List (String × Session))
    → s.token ≡ k
    → s.closed ≡ false
    → is_some s.deadline ≡ true
    → Keyed m
    → Keyed (place k s m)
unfolding place
Keyed-place k s [] a b c h = (a, b, c, tt)
Keyed-place k s ((j, r) ∷ m) a b c h = ground (arith, Keyed-place k s m)

Keyed-update :
    (k : String) (now : ℕ) (m : List (String × Session))
    → Keyed m
    → Keyed (update k (trigger_timer now) m)
unfolding update trigger_timer
Keyed-update k now [] h = tt
Keyed-update k now ((j, r) ∷ m) h = ground (arith, Keyed-update k now m)

-- The operations, each with the time and the token that it needs.
pub data Operation : Type 0 where
  creates_sender : (now : ℕ) (token app_id : String) → Operation
  touches_sender : (now : ℕ) (token : String) → Operation
  disconnects_sender : (token : String) → Operation
  times_out_sender : (token : String) → Operation
  creates_receiver : (now : ℕ) (token app_id : String) → Operation
  touches_receiver : (now : ℕ) (app_id : String) → Operation
  disconnects_receiver : (app_id : String) → Operation
  times_out_receiver : (token : String) → Operation
  sets_listener : Bool → Operation

unfoldable pub apply : Operation → SessionManager → SessionManager
unfolding create_sender touch_sender disconnect_sender on_sender_timeout create_receiver
    touch_receiver disconnect_receiver on_receiver_timeout set_session_listener
apply (creates_sender now token app_id) m = (create_sender now token app_id m).0
apply (touches_sender now token) m = (touch_sender now token m).0
apply (disconnects_sender token) m = (disconnect_sender token m).0
apply (times_out_sender token) m = on_sender_timeout token m
apply (creates_receiver now token app_id) m = (create_receiver now token app_id m).0
apply (touches_receiver now app_id) m = (touch_receiver now app_id m).0
apply (disconnects_receiver app_id) m = (disconnect_receiver app_id m).0
apply (times_out_receiver token) m = on_receiver_timeout token m
apply (sets_listener present) m = set_session_listener present m

create-IsValid :
    (now : ℕ) (token app_id : String) (m : SessionManager)
    → IsValid m
    → IsValid (create_sender now token app_id m).0
unfolding create_sender insert
create-IsValid now token app_id m v =
    let s = trigger_timer now (new_session token app_id) in
    ground (arith, Distinct-insert token s m.senders v.distinct, Keyed-place token s m.senders)

-- Every operation keeps the senders under distinct tokens, each under its own, open and with its
-- timer armed.
pub apply-IsValid : (o : Operation) (m : SessionManager) → IsValid m → IsValid (apply o m)
unfolding apply
apply-IsValid (creates_sender now token app_id) m v = create-IsValid now token app_id m v
apply-IsValid (touches_sender now token) m v = ground (
  arith,
  Distinct-update token (trigger_timer now) m.senders v.distinct,
  Keyed-update token now m.senders v.keyed,
)
apply-IsValid (disconnects_sender token) m v =
    ground (arith, Distinct-erase token m.senders v.distinct, Keyed-erase token m.senders v.keyed)
apply-IsValid (times_out_sender token) m v =
    ground (arith, Distinct-erase token m.senders v.distinct, Keyed-erase token m.senders v.keyed)
apply-IsValid (creates_receiver now token app_id) m v = ground arith
apply-IsValid (touches_receiver now app_id) m v = ground arith
apply-IsValid (disconnects_receiver app_id) m v = ground arith
apply-IsValid (times_out_receiver token) m v = ground arith
apply-IsValid (sets_listener present) m v = ground arith

-- The session of a token after an operation: a new token has a new session with ten seconds to
-- live, a touched one has ten seconds again, a disconnected or timed out one has none, and every
-- other token is as it was.
abbrev pub session_after : Operation → String → SessionManager → Option Session
session_after (creates_sender now token app_id) t m =
    if str_eq token t
    then (if is_some (find token m.senders)
        then find token m.senders
        else some
            (record { token = token; app_id = app_id; deadline = some (now + 10); closed = false }))
    else find t m.senders
session_after (touches_sender now token) t m =
    if str_eq token t
    then Option.map {A = Session} {B = Session} (λ s. record s { deadline = some (now + 10) })
        (find t m.senders)
    else find t m.senders
session_after (disconnects_sender token) t m = if str_eq token t then none else find t m.senders
session_after (times_out_sender token) t m = if str_eq token t then none else find t m.senders
session_after o t m = find t m.senders

find-disconnect :
    (token t : String) (m : SessionManager)
    → IsValid m
    → find t (disconnect_sender token m).0.senders
      ≡ (if str_eq token t then none else find t m.senders)
unfolding disconnect_sender
find-disconnect token t m v =
    ground (arith, eq_iff token t, find-erase token t m.senders v.distinct)

pub find-apply :
    (o : Operation) (t : String) (m : SessionManager)
    → IsValid m
    → get_sender t (apply o m) ≡ session_after o t m
unfolding apply get_sender trigger_timer
find-apply (creates_sender now token app_id) t m v = ground (
  arith,
  eq_iff token t,
  find-insert token t (trigger_timer now (new_session token app_id)) m.senders,
)
find-apply (touches_sender now token) t m v =
    ground (arith, eq_iff token t, find-update token t (trigger_timer now) m.senders)
find-apply (disconnects_sender token) t m v = find-disconnect token t m v
find-apply (times_out_sender token) t m v = find-disconnect token t m v
find-apply (creates_receiver now token app_id) t m v = ground arith
find-apply (touches_receiver now app_id) t m v = ground arith
find-apply (disconnects_receiver app_id) t m v = ground arith
find-apply (times_out_receiver token) t m v = ground arith
find-apply (sets_listener present) t m v = ground arith
