-- ===== src/Peers/Queue.antt =====
-- What PeerServer::processOutstanding of flint/src/peer/PeerServer.cpp does for a peer that is there.
use flingd_cc.Base.{
  ◌≡◌, refl, String, Bool, true, Option, none, some, List, [], ◌∷◌, arith, All, Option-cases, inl,
  inr,
}
use flingd_cc.Base.Machine.{ok}
use flingd_cc.Peers.Store.{Ptr, PeerMessage, Peer, Output, text, Hub, load}
use flingd_cc.Peers.Tables.{IsEquality, lookup, remove}
use flingd_cc.Peers.Laws.{lookup-cong, All-lookup}
use flingd_cc.Peers.Sound.{IsAddressed, IsSound}
use flingd_cc.Peers.Server.{
  transmit_to, handle_transmission, transmit_all, process_messages, process_outstanding,
  remove_peer_messages,
}

-- The messages, sent one after the other.
abbrev pub delivered : Ptr → List PeerMessage → List (Ptr × Output) → List (Ptr × Output)
delivered session [] sent = sent
delivered session (pm ∷ pms) sent = delivered session pms ((session, text pm.content) ∷ sent)

abbrev pub queue : Option (List PeerMessage) → List PeerMessage
queue none = []
queue (some pms) = pms

module _ (iequals : String → String → Bool) (eq : IsEquality iequals) where
  remove-none :
      {V : Type 0}
      → (id : String) (m : List (String × V)) → lookup iequals id m ≡ none
      → remove iequals id m ≡ m
  unfolding lookup remove
  remove-none id [] e = refl
  remove-none id ((k, v) ∷ m) e = ground (arith, remove-none id m)

  transmit_all_lem :
      (id : String) (p : Ptr) (a : Peer) (pms : List PeerMessage) (w : Hub)
      → lookup iequals id w.peers ≡ some p
      → w.objects p ≡ some a
      → All (λ (pm : PeerMessage). iequals pm.dst id ≡ true) pms
      → transmit_all iequals pms w ≡ ok tt (record w { sent = delivered a.session pms w.sent })
  unfolding transmit_all handle_transmission transmit_to load
  transmit_all_lem id p a [] w f o e = refl
  transmit_all_lem id p a (pm ∷ pms) w f o e =
      let same = lookup-cong iequals eq pm.dst id w.peers e.0 in
      rw (transmit_all, handle_transmission, same, f, transmit_to, load, o)
        (transmit_all_lem id p a pms (record w { sent = (a.session, text pm.content) ∷ w.sent }) f o
          e.1)

  readdressed :
      (k id : String) (pms : List PeerMessage)
      → iequals id k ≡ true
      → IsAddressed iequals eq (k, pms)
      → All (λ (pm : PeerMessage). iequals pm.dst id ≡ true) pms
  readdressed k id [] t a = tt
  readdressed k id (pm ∷ pms) t a =
      (eq.transitive pm.dst k id a.0 (eq.symmetric id k t), readdressed k id pms t a.1)

  -- the messages are sent, in the order in which they were kept, and removed
  pub process_outstanding_lem :
      (w : Hub) (id : String) (p : Ptr) (a : Peer)
      → IsSound iequals eq w
      → lookup iequals id w.peers ≡ some p
      → w.objects p ≡ some a
      → process_outstanding iequals id w
        ≡ ok tt (record w {
          outstandings = remove iequals id w.outstandings;
          sent = delivered a.session (queue (lookup iequals id w.outstandings)) w.sent;
        })
  unfolding process_outstanding process_messages remove_peer_messages
  process_outstanding_lem w id p a v f o = elim (Option-cases (lookup iequals id w.outstandings)) [
    | inl e ↦ rw (process_outstanding, e, process_messages, remove-none id w.outstandings e) refl
    | inr (pms, e) ↦
        let (k, addressed, t, g) =
          All-lookup iequals eq (IsAddressed iequals eq) id pms w.outstandings v.addressed e in
        rw
          (
            process_outstanding,
            e,
            g,
            process_messages,
            transmit_all_lem id p a pms (record w { locked = k ∷ w.locked }) f o
                (readdressed k id pms t addressed),
            remove_peer_messages,
          )
          refl
  ]
