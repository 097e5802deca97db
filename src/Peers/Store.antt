-- ===== src/Peers/Store.antt =====
-- The state of flint/src/peer/PeerServer.h. A Peer object lives at the number of the session for which
-- it was created. `slots` has the peer that is connected to the signals of a session: it stays connected
-- when the peer is deleted. A message is deleted when it was sent, so it is a value.
use flingd_cc.Base.{ℕ, String, Option, none, some, List, [], ◌∷◌, ◌==◌, if◌then◌else◌}
use flingd_cc.Base.Machine.{Cmd, ok, fault}

abbrev pub Ptr : Type 0
Ptr = ℕ

pub record PeerMessage : Type 0 where
  pub type_ : String
  pub src : String
  pub dst : String
  pub content : String

-- `slots` is how often PeerServer is connected to the signals of the peer. The session is never NULL.
pub record Peer : Type 0 where
  pub id : String
  pub token : String
  pub session : Ptr
  pub slots : ℕ

pub data Output : Type 0 where
  text : String → Output
  closing : Output

-- `locked` has the keys of `outstandings` whose vectors cannot grow: an iterator stands in them, or they
-- were deleted. `sent` has what was handed to each session, newest first.
pub record Hub : Type 0 where
  pub objects : Ptr → Option Peer
  pub slots : Ptr → Option Ptr
  pub peers : List (String × Ptr)
  pub outstandings : List (String × List PeerMessage)
  pub locked : List String
  pub sent : List (Ptr × Output)

abbrev pub empty_hub : Hub
empty_hub = record {
  objects = λ p. none;
  slots = λ p. none;
  peers = [];
  outstandings = [];
  locked = [];
  sent = [];
}

unfoldable pub write : {V : Type 0} → (Ptr → Option V) → Ptr → Option V → Ptr → Option V
write h p c q = if q == p then c else h q

abbrev pub Do : Type 0
Do = Cmd Hub (Unit {0})

abbrev pub set_object : Ptr → Option Peer → Do
set_object p c w = ok tt (record w { objects = write w.objects p c })

-- Peer::init_session
abbrev pub init_session : Ptr → Ptr → Do
init_session session p w = ok tt (record w { slots = write w.slots session (some p) })

abbrev pub set_peers : List (String × Ptr) → Do
set_peers m w = ok tt (record w { peers = m })

abbrev pub set_outstandings : List (String × List PeerMessage) → Do
set_outstandings m w = ok tt (record w { outstandings = m })

abbrev pub set_locked : List String → Do
set_locked m w = ok tt (record w { locked = m })

-- WebsocketSession::send, which lets no exception out, and WebsocketSession::close
-- what the server asks of a session; the close of the library may throw, and here it does not
abbrev pub output : Ptr → Output → Do
output p o w = ok tt (record w { sent = (p, o) ∷ w.sent })

abbrev pub peer_or_fault : Option Peer → Cmd Hub Peer
peer_or_fault none w = fault
peer_or_fault (some a) w = ok a w

unfoldable pub load : Ptr → Cmd Hub Peer
load p w = peer_or_fault (w.objects p) w
