-- ===== src/Peers/Reading.antt =====
-- What PeerServer::onPeerMessage of flint/src/peer/PeerServer.cpp reads in a message.
use flingd_cc.Base.{String, Bool, ◌||◌, if◌then◌else◌}

-- A member of the object that a message is. The builds are Release ones, without assertions: a member
-- that is missing is read as a null. The text of another value is undefined.
pub data Member : Type 0 where
  missing : Member
  null : Member
  texts : String → Member
  other : Member

-- the members that PeerServer::onPeerMessage reads; those of a message that is no object are undefined,
-- as the text of `other` is
pub record Fields : Type 0 where
  pub type_ : Member
  pub dst : Member
  pub payload : Member

-- what it finds: a value that is read as the text it is not, nothing to do, or a message of a type and for a destination
pub data Reading : Type 0 where
  broken : Reading
  ignored : Reading
  message : String → String → Reading

module _ (iequals : String → String → Bool) where
  unfoldable pub addressed : String → Member → Member → Reading
  addressed type_ missing payload = ignored
  addressed type_ null payload = ignored
  addressed type_ dst missing = ignored
  addressed type_ dst null = ignored
  addressed type_ (texts dst) payload = message type_ dst
  addressed type_ other payload = broken

  unfoldable pub read_typed : Member → Member → Member → Reading
  unfolding addressed
  read_typed missing dst payload = ignored
  read_typed null dst payload = ignored
  read_typed other dst payload = broken
  read_typed (texts type_) dst payload =
      if iequals type_ "LEAVE"
        || (iequals type_ "CANDIDATE" || (iequals type_ "OFFER" || iequals type_ "ANSWER"))
      then addressed type_ dst payload
      else ignored

  unfoldable pub message_of : Fields → Reading
  unfolding read_typed
  message_of f = read_typed f.type_ f.dst f.payload
