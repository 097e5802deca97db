-- ===== src/Peers/Ends.antt =====
-- The operations of flint/src/peer/PeerServer.cpp end, and keep the invariant of the server.
use flingd_cc.Base.{
  ◌≡◌, refl, String, Bool, true, not, ◌&&◌, none, List, [], ◌∷◌, ◌++◌, All-append, Option-cases,
  Bool-cases, inl, inr,
}
use flingd_cc.Base.Machine.{Run, ok, and_then}
use flingd_cc.StdMap.{insert}
use flingd_cc.Peers.Store.{PeerMessage, Hub, text, Do, write, load}
use flingd_cc.Peers.Tables.{IsEquality, lookup, remove, alter}
use flingd_cc.Peers.Laws.{All-lookup, All-insert, Apart-insert, All-alter, Apart-alter}
use flingd_cc.Peers.Sound.{IsAddressed, IsSound, lookup_live, remove-Sound}
use flingd_cc.Peers.Server.{
  remove_if, remove_peer, push_back, add_peer_messages, transmit_to, handle_transmission,
}

module _ (iequals : String → String → Bool) (eq : IsEquality iequals) where
  -- A run that ends in a sound state.
  abbrev pub Returns : Run Hub (Unit {0}) → Type 0
  Returns r = (w : Hub) × (r ≡ ok tt w) × IsSound iequals eq w

  pub then-Returns :
      (r : Run Hub (Unit {0})) (k : Unit {0} → Do)
      → Returns r
      → ((w : Hub) → IsSound iequals eq w → Returns (k tt w))
      → Returns (and_then r k)
  then-Returns r k h f = let (w, e, v) = h in rw e (f w v)

  module _ (w : Hub) (v : IsSound iequals eq w) where
    pub remove_peer-Returns : (id : String) → Returns (remove_peer iequals id w)
    unfolding remove_peer remove_if load
    remove_peer-Returns id = elim (Option-cases (lookup iequals id w.peers)) [
      | inl e ↦ rw (remove_peer, e, remove_if) (w, refl, v)
      | inr (p, e) ↦
          let (a, g, t) = lookup_live iequals eq w id p v e in
          (
            record w { objects = write w.objects p none; peers = remove iequals id w.peers },
            rw (remove_peer, e, remove_if, load, g) refl,
            remove-Sound iequals eq w id p v e,
          )
    ]

    pub add_peer_messages-Returns :
        (pm : PeerMessage) → Returns (add_peer_messages iequals pm.dst pm w)
    unfolding add_peer_messages push_back
    add_peer_messages-Returns pm = elim (Option-cases (lookup iequals pm.dst w.outstandings)) [
      | inl e ↦ (
        record w { outstandings = insert pm.dst [] w.outstandings },
        rw (add_peer_messages, e) refl,
        record {
          owned = v.owned;
          apart = v.apart;
          addressed =
              All-insert iequals eq (IsAddressed iequals eq) pm.dst [] w.outstandings tt
                v.addressed;
          apart_out = Apart-insert iequals eq pm.dst [] w.outstandings e v.apart_out;
          unlocked = v.unlocked;
          bounded = v.bounded;
        },
      )
      | inr (pms, e) ↦
          let (k, a, t, g) =
            All-lookup iequals eq (IsAddressed iequals eq) pm.dst pms w.outstandings v.addressed
              e in
          let more : List PeerMessage → List PeerMessage = (λ qs. qs ++ pm ∷ []) in
          (
            record w { outstandings = alter iequals pm.dst more w.outstandings },
            rw (add_peer_messages, e, g, push_back, v.unlocked) refl,
            record {
              owned = v.owned;
              apart = v.apart;
              addressed =
                  All-alter iequals eq (IsAddressed iequals eq) pm.dst more w.outstandings
                    (λ j qs s b.
                      All-append (λ (qm : PeerMessage). iequals qm.dst j ≡ true) qs (pm ∷ []) b
                        (s, tt))
                    v.addressed;
              apart_out = Apart-alter iequals eq pm.dst more w.outstandings v.apart_out;
              unlocked = v.unlocked;
              bounded = v.bounded;
            },
          )
    ]

    absent-Returns : (pm : PeerMessage) → Returns (transmit_to iequals none pm w)
    unfolding transmit_to
    absent-Returns pm =
        elim (Bool-cases (
          not (iequals pm.type_ "LEAVE")
          && (not (iequals pm.type_ "EXPIRE") && not (iequals pm.dst "")))) [
            | inl b ↦ rw (transmit_to, b) (add_peer_messages-Returns pm)
            | inr b ↦ elim (Bool-cases (iequals pm.type_ "LEAVE" && iequals pm.dst "")) [
              | inl c ↦ rw (transmit_to, b, c) (remove_peer-Returns pm.src)
              | inr c ↦ rw (transmit_to, b, c) (w, refl, v)
            ]
          ]

    pub handle_transmission-Returns :
        (pm : PeerMessage) → Returns (handle_transmission iequals pm w)
    unfolding handle_transmission transmit_to load
    handle_transmission-Returns pm = elim (Option-cases (lookup iequals pm.dst w.peers)) [
      | inl e ↦ rw (handle_transmission, e) (absent-Returns pm)
      | inr (p, e) ↦
          let (a, g, t) = lookup_live iequals eq w pm.dst p v e in
          (
            record w { sent = (a.session, text pm.content) ∷ w.sent },
            rw (handle_transmission, e, transmit_to, load, g) refl,
            v,
          )
    ]
