-- ===== src/Relay/Moves.antt =====
-- The changes that senders and closing receivers of flint/src/ws/WebsocketServer.cpp make keep the
-- invariant.
use flingd_cc.Base.{String, ◌≡◌, none, some, arith, eq_iff}
use flingd_cc.StdMap.{find, insert, erase, find-insert, find-erase, Distinct-insert, Distinct-erase}
use flingd_cc.Relay.Store.{Ptr, Receiver, sender_channel, receiver_channel, Server, write}
use flingd_cc.Relay.Sound.{IsSound, sender_of}

module _ (w : Server) (v : IsSound w) where
  -- a sender that joins the receiver at `p`, under a new identifier
  pub sender-IsSound :
      (p : Ptr) (r : Receiver) (id : String) (q : Ptr)
      → w.channels p ≡ some (receiver_channel r)
      → w.channels q ≡ none
      → find id r.senders ≡ none
      → IsSound (record w {
        channels =
            write
              (write w.channels q (sender_of id p))
              p
              (some (receiver_channel (record r { senders = insert id q r.senders })));
      })
  unfolding write
  sender-IsSound p r id q e fresh new = record {
    listed = λ j x h. ground (arith, v.listed j x);
    registered = λ j x h. ground (arith, v.registered j x);
    joined = λ x k y h. ground (arith, eq_iff id k, find-insert id k q r.senders, v.joined x k y);
    member = λ x k y h. ground (arith, eq_iff id k, find-insert id k q r.senders, v.member x k y);
    distinct = v.distinct;
    distinct_senders = λ x. ground (arith, v.distinct_senders x, Distinct-insert id q r.senders);
  }

  -- a sender that leaves its receiver
  pub leave-IsSound :
      (p : Ptr) (r : Receiver) (id : String) (q : Ptr)
      → w.channels p ≡ some (receiver_channel r)
      → w.channels q ≡ sender_of id p
      → IsSound (record w {
        channels =
            write
              (write w.channels p
                (some (receiver_channel (record r { senders = erase id r.senders }))))
              q
              none;
      })
  unfolding write
  leave-IsSound p r id q e s = record {
    listed = λ j x h. ground (arith, v.listed j x);
    registered = λ j x h. ground (arith, v.registered j x);
    joined = λ x k y h. ground (
      arith,
      eq_iff id k,
      find-erase id k r.senders,
      v.distinct_senders p,
      v.joined x k y,
      v.member p id q,
    );
    member = λ x k y h. ground (
      arith,
      eq_iff id k,
      find-erase id k r.senders,
      v.distinct_senders p,
      v.member x k y,
      v.member p id q,
    );
    distinct = v.distinct;
    distinct_senders = λ x. ground (arith, v.distinct_senders x, Distinct-erase id r.senders);
  }

  -- a sender without a receiver that goes
  pub orphan-IsSound :
      (q : Ptr) (id : String)
      → w.channels q ≡ some (sender_channel (record { sender_id = id; channel = none }))
      → IsSound (record w { channels = write w.channels q none })
  unfolding write
  orphan-IsSound q id e = record {
    listed = λ j x h. ground (arith, v.listed j x);
    registered = λ j x h. ground (arith, v.registered j x);
    joined = λ x k y h. ground (arith, v.joined x k y);
    member = λ x k y h. ground (arith, v.member x k y);
    distinct = v.distinct;
    distinct_senders = λ x. ground (arith, v.distinct_senders x);
  }
