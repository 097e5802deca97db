-- ===== src/Sessions/Manager.antt =====
-- Session.cpp, SenderSession.cpp, ReceiverSession.cpp and SessionManager.cpp of
-- flint/src/flint/session. Time is an argument, in seconds. The listener (a
-- ReceiverApplicationHandler) is the list of what it has been told, newest first. Tokens come from
-- the UUID generator, as arguments.
use flingd_cc.Base.{
  ℕ, ◌+◌, String, Bool, true, false, Option, none, some, List, [], ◌∷◌, str_eq, leb, is_some,
  length, if◌then◌else◌,
}
use flingd_cc.StdMap.{find, insert, erase}

pub record Session : Type 0 where
  pub token : String
  pub app_id : String
  -- when the timer expires, if it is armed
  pub deadline : Option ℕ
  pub closed : Bool

abbrev pub new_session : String → String → Session
new_session token app_id = record {
  token = token;
  app_id = app_id;
  deadline = none;
  closed = false;
}

pub data Notice : Type 0 where
  sender_connected sender_disconnected receiver_disconnected : String → Notice

pub record SessionManager : Type 0 where
  pub senders : List (String × Session)
  pub receiver : Option Session
  pub listener : Option (List Notice)

-- Session::triggerTimer
unfoldable pub trigger_timer : ℕ → Session → Session
trigger_timer now s = record s { deadline = some (now + 10) }

-- Session::clearTimer
unfoldable pub clear_timer : Session → Session
clear_timer s = record s { deadline = none }

-- The timer expires with no error: the session is closed, and deleted after its Timeout signal.
unfoldable pub is_expired : ℕ → Session → Bool
is_expired now s = elim s.deadline [ none ↦ false | some d ↦ leb d now ]

abbrev pub tell : Notice → Option (List Notice) → Option (List Notice)
tell n none = none
tell n (some ns) = some (n ∷ ns)

unfoldable pub check_sender : String → SessionManager → Bool
unfolding find
check_sender token m = is_some (find token m.senders)

unfoldable pub get_sender : String → SessionManager → Option Session
unfolding find
get_sender token m = find token m.senders

unfoldable pub add_sender : String → Session → SessionManager → SessionManager × Bool
unfolding check_sender insert
add_sender token s m =
    if check_sender token m
    then (m, false)
    else (record m { senders = insert token s m.senders }, true)

unfoldable pub remove_sender : String → SessionManager → SessionManager × Bool
unfolding find erase
remove_sender token m =
    if is_some (find token m.senders)
    then (record m { senders = erase token m.senders }, true)
    else (m, false)

unfoldable pub count_senders : SessionManager → ℕ
count_senders m = length m.senders

-- Another session in the place of the one with the token; the map holds pointers.
unfoldable pub update :
    String → (Session → Session) → List (String × Session) → List (String × Session)
update token f [] = []
update token f ((k, s) ∷ m) = if str_eq k token then (k, f s) ∷ m else (k, s) ∷ update token f m

-- The timer is set on the new session, which is in the map if it was added.
unfoldable pub create_sender : ℕ → String → String → SessionManager → SessionManager × Session
unfolding add_sender trigger_timer
create_sender now token app_id m =
    let s = trigger_timer now (new_session token app_id) in
    let (m', added) = add_sender token s m in
    (record m' { listener = tell (sender_connected token) m'.listener }, s)

unfoldable pub touch_sender : ℕ → String → SessionManager → SessionManager × Bool
unfolding get_sender update trigger_timer
touch_sender now token m =
    if is_some (get_sender token m)
    then (record m { senders = update token (trigger_timer now) m.senders }, true)
    else (m, false)

unfoldable pub disconnect_sender : String → SessionManager → SessionManager × Bool
unfolding remove_sender
disconnect_sender token m =
    let (m', res) = remove_sender token m in
    if res
    then (record m' { listener = tell (sender_disconnected token) m'.listener }, true)
    else (m', false)

unfoldable pub on_sender_timeout : String → SessionManager → SessionManager
unfolding disconnect_sender
on_sender_timeout token m = (disconnect_sender token m).0

unfoldable pub create_receiver : ℕ → String → String → SessionManager → SessionManager × Bool
unfolding trigger_timer
create_receiver now token app_id m =
    if is_some m.receiver
    then (m, false)
    else (record m { receiver = some (trigger_timer now (new_session token app_id)) }, true)

unfoldable pub touch_receiver : ℕ → String → SessionManager → SessionManager × Bool
unfolding trigger_timer
touch_receiver now app_id m = elim m.receiver [
  | none ↦ (m, false)
  | some r ↦ (record m { receiver = some (trigger_timer now r) }, true)
]

unfoldable pub disconnect_receiver : String → SessionManager → SessionManager × Bool
disconnect_receiver app_id m = elim m.receiver [
  | none ↦ (m, false)
  | some r ↦ if str_eq app_id r.app_id then (record m { receiver = none }, true) else (m, false)
]

unfoldable pub on_receiver_timeout : String → SessionManager → SessionManager
on_receiver_timeout token m = elim m.receiver [
  | none ↦ m
  | some r ↦
      if str_eq token r.token
      then record m { receiver = none; listener = tell (receiver_disconnected r.app_id) m.listener }
      else m
]

-- What a new listener is told: the senders that are connected, in the order of their tokens.
unfoldable pub greetings : List (String × Session) → List Notice → List Notice
greetings [] ns = ns
greetings ((k, s) ∷ m) ns = greetings m (sender_connected s.token ∷ ns)

-- SessionManager::setSessionListender, with a new listener or with NULL
unfoldable pub set_session_listener : Bool → SessionManager → SessionManager
unfolding greetings
set_session_listener present m =
    if present
    then record m { listener = some (greetings m.senders []) }
    else record m { listener = none }
