-- ===== src/Peers/Sound.antt =====
-- The invariant of the server of flint/src/peer/PeerServer.cpp, and what keeps it.
use flingd_cc.Base.{
  ◌≤◌, ◌≡◌, refl, subst, String, Bool, true, false, Option, none, some, List, [], ◌∷◌, arith, All,
  All-imp, ◌==◌, length, Bool-cases, inl, inr,
}
use flingd_cc.StdMap.{insert}
use flingd_cc.Peers.Store.{Ptr, PeerMessage, Peer, Hub, write}
use flingd_cc.Peers.Tables.{IsEquality, lookup, remove}
use flingd_cc.Peers.Laws.{
  IsApart, Apart, All-lookup, Apart-remove, All-insert, Apart-insert, length-remove, length-insert,
}

abbrev pub id_of : Option Peer → Option String
id_of none = none
id_of (some a) = some a.id

-- The entry's pointer is to a peer with the entry's key for an identifier.
abbrev pub IsOwned : (Ptr → Option Peer) → String × Ptr → Type 0
IsOwned objects e = id_of (objects e.1) ≡ some e.0

live : (o : Option Peer) (k : String) → id_of o ≡ some k → (a : Peer) × (o ≡ some a) × (a.id ≡ k)
live none k e = absurd (ground arith)
live (some a) k e = (a, refl, ground arith)

still-IsOwned :
    (w : Hub) (p : Ptr) (a b : Peer)
    → w.objects p ≡ some a
    → b.id ≡ a.id
    → (x : String × Ptr) → IsOwned w.objects x
    → IsOwned (write w.objects p (some b)) x
unfolding write
still-IsOwned w p a b e same x h = elim (Bool-cases (x.1 == p)) [
  | inl t ↦
      let at : x.1 ≡ p = ground arith in
      let here : id_of (w.objects p) ≡ some x.0 =
        subst (λ q. id_of (w.objects q) ≡ some x.0) at h in
      let there : id_of (some a) ≡ some x.0 = subst (λ o. id_of o ≡ some x.0) e here in
      rw (write, t) ground (arith, there, same)
  | inr t ↦ rw (write, t) h
]

other-IsOwned :
    (w : Hub) (p : Ptr) (c : Option Peer)
    → w.objects p ≡ none
    → (x : String × Ptr) → IsOwned w.objects x
    → IsOwned (write w.objects p c) x
unfolding write
other-IsOwned w p c e x h = elim (Bool-cases (x.1 == p)) [
  | inl t ↦
      let at : x.1 ≡ p = ground arith in
      let here : id_of (w.objects p) ≡ some x.0 =
        subst (λ q. id_of (w.objects q) ≡ some x.0) at h in
      let there : id_of none ≡ some x.0 = subst (λ o. id_of o ≡ some x.0) e here in
      absurd (ground (arith, there))
  | inr t ↦ rw (write, t) h
]

pub write_at : (objects : Ptr → Option Peer) (p : Ptr) (c : Option Peer) → write objects p c p ≡ c
unfolding write
write_at objects p c = ground arith

module _ (iequals : String → String → Bool) (eq : IsEquality iequals) where
  abbrev pub IsAddressed : String × List PeerMessage → Type 0
  IsAddressed e = All (λ (pm : PeerMessage). iequals pm.dst e.0 ≡ true) e.1

  pub record Sound (objects : Ptr → Option Peer) (peers : List (String × Ptr))
      (outstandings : List (String × List PeerMessage)) (locked : List String) : Type 0 where
    pub owned : All (IsOwned objects) peers
    pub apart : Apart iequals eq peers
    pub addressed : All IsAddressed outstandings
    pub apart_out : Apart iequals eq outstandings
    pub unlocked : locked ≡ []
    pub bounded : length peers ≤ 5001

  abbrev pub IsSound : Hub → Type 0
  IsSound w = Sound w.objects w.peers w.outstandings w.locked

  -- a peer that is found lives, under an equal identifier
  pub lookup_live :
      (w : Hub) (id : String) (p : Ptr)
      → IsSound w
      → lookup iequals id w.peers ≡ some p
      → (a : Peer) × (w.objects p ≡ some a) × (iequals id a.id ≡ true)
  lookup_live w id p v e =
      let (k, o, t, f) = All-lookup iequals eq (IsOwned w.objects) id p w.peers v.owned e in
      let (a, g, same) = live (w.objects p) k o in (a, g, rw same t)

  -- another state of a peer, under the same identifier
  pub set-Sound :
      (w : Hub) (p : Ptr) (a b : Peer)
      → IsSound w
      → w.objects p ≡ some a
      → b.id ≡ a.id
      → Sound (write w.objects p (some b)) w.peers w.outstandings w.locked
  unfolding write
  set-Sound w p a b v e same = record {
    owned =
        All-imp (IsOwned w.objects) (IsOwned (write w.objects p (some b))) w.peers
          (λ x h. still-IsOwned w p a b e same x h) v.owned;
    apart = v.apart;
    addressed = v.addressed;
    apart_out = v.apart_out;
    unlocked = v.unlocked;
    bounded = v.bounded;
  }

  -- a new peer
  pub open-Sound :
      (w : Hub) (id : String) (p : Ptr) (a : Peer)
      → IsSound w
      → w.objects p ≡ none
      → a.id ≡ id
      → lookup iequals id w.peers ≡ none
      → length w.peers ≤ 5000
      → Sound (write w.objects p (some a)) (insert id p w.peers) w.outstandings w.locked
  unfolding write
  open-Sound w id p a v fresh same new room = record {
    owned =
        All-insert iequals eq (IsOwned (write w.objects p (some a))) id p w.peers
          (rw (write_at w.objects p (some a)) ground (arith, same))
          (All-imp (IsOwned w.objects) (IsOwned (write w.objects p (some a))) w.peers
            (λ x h. other-IsOwned w p (some a) fresh x h) v.owned);
    apart = Apart-insert iequals eq id p w.peers new v.apart;
    addressed = v.addressed;
    apart_out = v.apart_out;
    unlocked = v.unlocked;
    bounded = omega (arith, room, length-insert iequals eq id p w.peers);
  }

  -- an entry of another peer
  gone-IsOwned :
      (objects : Ptr → Option Peer) (p : Ptr) (k : String) (x : String × Ptr)
      → IsOwned objects (k, p)
      → iequals k x.0 ≡ false
      → IsOwned objects x
      → IsOwned (write objects p none) x
  unfolding write
  gone-IsOwned objects p k x o d h = elim (Bool-cases (x.1 == p)) [
    | inl t ↦
        let at : x.1 ≡ p = ground arith in
        let here : id_of (objects p) ≡ some x.0 = subst (λ q. id_of (objects q) ≡ some x.0) at h in
        let same : k ≡ x.0 = ground (arith, here, o) in
        absurd (ground (arith, same, d, subst (λ y. iequals k y ≡ true) same (eq.reflexive k)))
    | inr t ↦ rw (write, t) h
  ]

  all_gone-IsOwned :
      (objects : Ptr → Option Peer) (p : Ptr) (k : String) (m : List (String × Ptr))
      → IsOwned objects (k, p)
      → IsApart iequals eq k m
      → All (IsOwned objects) m
      → All (IsOwned (write objects p none)) m
  all_gone-IsOwned objects p k [] o d a = tt
  all_gone-IsOwned objects p k (x ∷ m) o d a =
      (gone-IsOwned objects p k x o d.0 a.0, all_gone-IsOwned objects p k m o d.1 a.1)

  IsOwned-remove :
      (objects : Ptr → Option Peer) (id : String) (p : Ptr) (m : List (String × Ptr))
      → All (IsOwned objects) m
      → Apart iequals eq m
      → lookup iequals id m ≡ some p
      → All (IsOwned (write objects p none)) (remove iequals id m)
  unfolding write lookup remove
  IsOwned-remove objects id p [] o d e = tt
  IsOwned-remove objects id p ((k, q) ∷ m) o d e = elim (Bool-cases (iequals id k)) [
    | inl t ↦
        let at : q ≡ p = ground arith in
        let own : IsOwned objects (k, p) = subst (λ x. IsOwned objects (k, x)) at o.0 in
        rw (remove, t) (all_gone-IsOwned objects p k m own d.0 o.1)
    | inr t ↦
        let f : lookup iequals id m ≡ some p = ground arith in
        let (j, own, s, g) = All-lookup iequals eq (IsOwned objects) id p m o.1 f in
        let apart : iequals j k ≡ false = ground (arith, eq.transitive id j k) in
        rw (remove, t)
          (gone-IsOwned objects p j (k, q) own apart o.0, IsOwned-remove objects id p m o.1 d.1 f)
  ]

  -- a peer that is removed
  pub remove-Sound :
      (w : Hub) (id : String) (p : Ptr)
      → IsSound w
      → lookup iequals id w.peers ≡ some p
      → Sound (write w.objects p none) (remove iequals id w.peers) w.outstandings w.locked
  remove-Sound w id p v e = record {
    owned = IsOwned-remove w.objects id p w.peers v.owned v.apart e;
    apart = Apart-remove iequals eq id w.peers v.apart;
    addressed = v.addressed;
    apart_out = v.apart_out;
    unlocked = v.unlocked;
    bounded = omega (arith, v.bounded, length-remove iequals eq id w.peers);
  }
