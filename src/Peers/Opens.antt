-- ===== src/Peers/Opens.antt =====
-- A connection under an identifier that no peer of flint/src/peer/PeerServer.cpp has, and the messages
-- that the server keeps for it.
use flingd_cc.Base.{
  ◌≤◌, ◌≡◌, refl, ap, subst, String, Bool, true, false, ltb, Option, none, some, List, [], ◌∷◌,
  ◌++◌, arith, All, length, Option-cases, Bool-cases, inl, inr,
}
use mathlib.Core.List.{append_assoc}
use flingd_cc.Base.Machine.{ok}
use flingd_cc.StdMap.{insert}
use flingd_cc.Peers.Store.{Ptr, PeerMessage, Peer, Hub, text, write, load}
use flingd_cc.Peers.Tables.{IsEquality, lookup, remove, alter}
use flingd_cc.Peers.Laws.{All-lookup, lookup-cong, lookup-insert}
use flingd_cc.Peers.Sound.{IsAddressed, IsSound, open-Sound, write_at}
use flingd_cc.Peers.Queue.{delivered, queue, process_outstanding_lem}
use flingd_cc.Peers.Ends.{handle_transmission-Returns}
use flingd_cc.Peers.Server.{
  add_peer, configure, configure_ws, open_peer, connect, on_connection, check_key,
  add_peer_messages, push_back, transmit_to, handle_transmission, transmit_all,
}

-- What is kept of messages to a peer that is absent: the first one makes the queue, and is not in it.
abbrev pub kept : Option (List PeerMessage) → List PeerMessage → Option (List PeerMessage)
kept o [] = o
kept none (pm ∷ pms) = some pms
kept (some qs) (pm ∷ pms) = some (qs ++ pm ∷ pms)

module _ (iequals : String → String → Bool) (eq : IsEquality iequals) where
  alter-cong :
      {V : Type 0}
      → (a b : String) (f : V → V) (m : List (String × V)) → iequals a b ≡ true
      → alter iequals a f m ≡ alter iequals b f m
  unfolding alter
  alter-cong a b f [] e = refl
  alter-cong a b f ((k, v) ∷ m) e =
      ground
        (arith, alter-cong a b f m e, eq.transitive a b k, eq.transitive b a k, eq.symmetric a b)

  lookup-alter :
      {V : Type 0}
      → (id : String) (f : V → V) (v : V) (m : List (String × V)) → lookup iequals id m ≡ some v
      → lookup iequals id (alter iequals id f m) ≡ some (f v)
  unfolding lookup alter
  lookup-alter id f v [] e = absurd (ground arith)
  lookup-alter id f v ((k, u) ∷ m) e = elim (Bool-cases (iequals id k)) [
    | inl t ↦ let same : u ≡ v = ground arith in rw (alter, t, lookup, t, same) refl
    | inr t ↦
        let rest : lookup iequals id m ≡ some v = ground arith in
        rw (alter, t, lookup, t) (lookup-alter id f v m rest)
  ]

  -- A message for the peer that is not one of those that are dropped.
  abbrev pub IsKept : String → PeerMessage → Type 0
  IsKept id pm =
      (iequals pm.dst id ≡ true)
      × (iequals pm.type_ "LEAVE" ≡ false)
      × (iequals pm.type_ "EXPIRE" ≡ false)

  module _ (id : String) (named : iequals id "" ≡ false) where
    absent_lem :
        (pm : PeerMessage) (w : Hub)
        → IsKept id pm
        → lookup iequals id w.peers ≡ none
        → handle_transmission iequals pm w ≡ add_peer_messages iequals pm.dst pm w
    unfolding handle_transmission transmit_to
    absent_lem pm w k e =
        let absent = lookup-cong iequals eq pm.dst id w.peers k.0 in
        let other : iequals pm.dst "" ≡ false =
          ground (arith, eq.transitive id pm.dst "", eq.symmetric pm.dst id) in
        rw (handle_transmission, absent, e, transmit_to, k.1, k.2, other) refl

    keep_lem :
        (pm : PeerMessage) (w : Hub)
        → IsSound iequals eq w
        → IsKept id pm
        → lookup iequals id w.peers ≡ none
        → (m : List (String × List PeerMessage)) × (handle_transmission iequals pm w
            ≡ ok tt (record w { outstandings = m }))
          × (lookup iequals id m ≡ kept (lookup iequals id w.outstandings) (pm ∷ []))
    unfolding add_peer_messages push_back
    keep_lem pm w v k e =
        let same = lookup-cong iequals eq pm.dst id w.outstandings k.0 in
        elim (Option-cases (lookup iequals pm.dst w.outstandings)) [
          | inl f ↦
              let new : lookup iequals id w.outstandings ≡ none = ground (arith, same, f) in
              (
                insert pm.dst [] w.outstandings,
                rw (absent_lem pm w k e, add_peer_messages, f) refl,
                rw
                    (
                      new,
                      lookup-insert iequals eq id pm.dst [] w.outstandings f,
                      eq.symmetric pm.dst id k.0,
                    )
                    refl,
              )
          | inr (pms, f) ↦
              let old : lookup iequals id w.outstandings ≡ some pms = ground (arith, same, f) in
              let (j, a, t, g) =
                All-lookup iequals eq (IsAddressed iequals eq) pm.dst pms w.outstandings v.addressed
                  f in
              let more : List PeerMessage → List PeerMessage = (λ qs. qs ++ pm ∷ []) in
              (
                alter iequals pm.dst more w.outstandings,
                rw (absent_lem pm w k e, add_peer_messages, f, g, push_back, v.unlocked) refl,
                rw (old, alter-cong pm.dst id more w.outstandings k.0)
                    (lookup-alter id more pms w.outstandings old),
              )
        ]

    kept-kept :
        (o : Option (List PeerMessage)) (pm : PeerMessage) (pms : List PeerMessage)
        → kept (kept o (pm ∷ [])) pms ≡ kept o (pm ∷ pms)
    kept-kept none pm [] = refl
    kept-kept none pm (qm ∷ pms) = refl
    kept-kept (some qs) pm [] = refl
    kept-kept (some qs) pm (qm ∷ pms) = ap some (append_assoc qs (pm ∷ []) (qm ∷ pms))

    -- messages to an absent peer
    pub all_kept_lem :
        (pms : List PeerMessage) (w : Hub)
        → IsSound iequals eq w
        → All (IsKept id) pms
        → lookup iequals id w.peers ≡ none
        → (m : List (String × List PeerMessage)) × (transmit_all iequals pms w
            ≡ ok tt (record w { outstandings = m }))
          × (lookup iequals id m ≡ kept (lookup iequals id w.outstandings) pms)
          × IsSound iequals eq (record w { outstandings = m })
    unfolding transmit_all
    all_kept_lem [] w v k e = (w.outstandings, refl, refl, v)
    all_kept_lem (pm ∷ pms) w v k e =
        let (m, run, f) = keep_lem pm w v k.0 e in
        let (x, ended, sound) = handle_transmission-Returns iequals eq w v pm in
        let same : x ≡ record w { outstandings = m } = cc in
        let (n, rest, g, u) =
          all_kept_lem pms (record w { outstandings = m }) (subst (IsSound iequals eq) same sound)
            k.1 e in
        (
          n,
          rw (transmit_all, run) rest,
          rw (g, f) (kept-kept (lookup iequals id w.outstandings) pm pms),
          u,
        )

  module _ (type_json : String → String) (error_json : String → String → String) where
    -- The peer of a new connection, and the server after it.
    abbrev pub opened_peer : Ptr → String → String → Peer
    opened_peer session id token = record { id = id; token = token; session = session; slots = 1 }

    -- A connection with a valid key, under an identifier that no peer has, while there are at most 5000
    -- peers, makes a peer with one connection to its signals and sends it OPEN and then, in their
    -- order, the messages that are kept for its identifier, which are then removed.
    pub open_lem :
        (w : Hub) (session : Ptr) (key id token : String)
        → IsSound iequals eq w
        → iequals "peerjs" key ≡ true
        → iequals key "" ≡ false
        → iequals id "" ≡ false
        → iequals token "" ≡ false
        → w.objects session ≡ none
        → lookup iequals id w.peers ≡ none
        → length w.peers ≤ 5000
        → on_connection iequals type_json error_json session key id token w
          ≡ ok tt (record w {
            objects =
                write
                  (write w.objects session
                    (some (record { id = id; token = token; session = session; slots = 0 })))
                  session
                  (some (record { id = id; token = token; session = session; slots = 1 }));
            slots = write w.slots session (some session);
            peers = insert id session w.peers;
            outstandings = remove iequals id w.outstandings;
            sent =
                delivered session
                  (queue (lookup iequals id w.outstandings))
                  ((session, text (type_json "OPEN")) ∷ w.sent);
          })
    unfolding on_connection connect check_key open_peer add_peer configure_ws configure load
    open_lem w session key id token v good k i t fresh new room =
        let few : ltb 5000 (length w.peers) ≡ false = ground arith in
        let made : Peer = record { id = id; token = token; session = session; slots = 0 } in
        let added : Hub = record w {
          objects = write w.objects session (some made);
          slots = write w.slots session (some session);
          peers = insert id session w.peers;
          sent = (session, text (type_json "OPEN")) ∷ w.sent;
        } in
        let there : lookup iequals id (insert id session w.peers) ≡ some session =
          rw (lookup-insert iequals eq id id session w.peers new, eq.reflexive id) refl in
        let at : write w.objects session (some made) session ≡ some made =
          write_at w.objects session (some made) in
        let sound : IsSound iequals eq added =
          open-Sound iequals eq w id session made v fresh refl new room in
        simp (
          good,
          k,
          i,
          t,
          new,
          few,
          there,
          at,
          eq.reflexive token,
          process_outstanding_lem iequals eq added id session made sound there at,
        )
