-- ===== src/Relay/Sound.antt =====
-- The invariant of the server of flint/src/ws/WebsocketServer.cpp: its map and the maps of its receivers
-- are in agreement with the channel objects that live.
use flingd_cc.Base.{String, ◌≡◌, Option, none, some, List, [], arith, eq_iff}
use flingd_cc.StdMap.{find, insert, Distinct, find-insert, Distinct-insert}
use flingd_cc.Relay.Store.{
  Ptr, Channel, sender_channel, receiver_channel, Server, empty_server, write,
}

abbrev pub channel_id_of : Option Channel → Option String
channel_id_of none = none
channel_id_of (some (sender_channel s)) = none
channel_id_of (some (receiver_channel r)) = some r.channel_id

abbrev pub senders_of : Option Channel → List (String × Ptr)
senders_of none = []
senders_of (some (sender_channel s)) = []
senders_of (some (receiver_channel r)) = r.senders

-- a sender `k` of the receiver at `p`
abbrev pub sender_of : String → Ptr → Option Channel
sender_of k p = some (sender_channel (record { sender_id = k; channel = some p }))

pub record IsSound (w : Server) : Type 0 where
  pub listed :
      (id : String) (p : Ptr)
      → find id w.receivers ≡ some p
      → channel_id_of (w.channels p) ≡ some id
  pub registered :
      (id : String) (p : Ptr)
      → channel_id_of (w.channels p) ≡ some id
      → find id w.receivers ≡ some p
  pub joined :
      (p : Ptr) (k : String) (q : Ptr)
      → find k (senders_of (w.channels p)) ≡ some q
      → w.channels q ≡ sender_of k p
  pub member :
      (p : Ptr) (k : String) (q : Ptr)
      → w.channels q ≡ sender_of k p
      → find k (senders_of (w.channels p)) ≡ some q
  pub distinct : Distinct w.receivers
  pub distinct_senders : (p : Ptr) → Distinct (senders_of (w.channels p))

pub empty_server-IsSound : IsSound empty_server
unfolding find
empty_server-IsSound = record {
  listed = λ id p e. ground arith;
  registered = λ id p e. ground arith;
  joined = λ p k q e. ground arith;
  member = λ p k q e. ground arith;
  distinct = tt;
  distinct_senders = λ p. tt;
}

-- a receiver that connects, under a new identifier
pub receiver-IsSound :
    (w : Server) (id : String) (p : Ptr)
    → IsSound w
    → w.channels p ≡ none
    → find id w.receivers ≡ none
    → IsSound (record w {
      channels =
          write w.channels p (some (receiver_channel (record { channel_id = id; senders = [] })));
      receivers = insert id p w.receivers;
    })
unfolding write find
receiver-IsSound w id p v fresh new = record {
  listed = λ j x e. ground (arith, eq_iff id j, find-insert id j p w.receivers, v.listed j x);
  registered =
      λ j x e. ground (arith, eq_iff id j, find-insert id j p w.receivers, v.registered j x);
  joined = λ x k q e. ground (arith, v.joined x k q);
  member = λ x k q e. ground (arith, v.member x k q);
  distinct = Distinct-insert id p w.receivers v.distinct;
  distinct_senders = λ x. ground (arith, v.distinct_senders x);
}
