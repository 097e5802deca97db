-- ===== src/Relay/Routes.antt =====
-- Who gets what in flint/src/ws/WebsocketServer.cpp, and what holds in every state that it can reach.
use flingd_cc.Base.{
  String, ◌≡◌, refl, sym, subst, Bool, true, Option, none, some, List, [], ◌∷◌, if◌then◌else◌,
  arith, str_eq, All, Bool-cases, Option-cases, inl, inr,
}
use flingd_cc.Base.Machine.{ok}
use flingd_cc.StdMap.{find, All-find}
use flingd_cc.Relay.Store.{
  Ptr, Receiver, Output, text, receiver_channel, Server, empty_server, load_sender, load_receiver,
}
use flingd_cc.Relay.Server.{
  send_all, send_to, on_sender_message, on_receiver_message, message_to, forward, deliver,
}
use flingd_cc.Relay.Sound.{IsSound, sender_of, senders_of, empty_server-IsSound}
use flingd_cc.Relay.Closing.{is_sender, senders-Distinct, senders_live}
use flingd_cc.Relay.Steps.{Event, sends, step, is_fatal, IsPossible, step-Returns_iff}
use flingd_cc.Relay.Ends.{members_in, sender_in}

abbrev pub pointers : List (String × Ptr) → List Ptr
pointers [] = []
pointers ((k, p) ∷ m) = p ∷ pointers m

abbrev pub found : Option Ptr → List Ptr
found none = []
found (some p) = p ∷ []

-- the sessions to which a receiver with these senders sends what is meant for `id`
abbrev pub addressees : String → List (String × Ptr) → List Ptr
addressees id m = if str_eq id "*:*" then pointers m else found (find id m)

abbrev pub told : String → List Ptr → List (Ptr × Output) → List (Ptr × Output)
told msg [] sent = sent
told msg (p ∷ ps) sent = told msg ps ((p, text msg) ∷ sent)

-- `q` is a sender of the receiver at `p`.
abbrev pub IsSenderOf : Server → Ptr → Ptr → Type 0
IsSenderOf w p q = (k : String) × (w.channels q ≡ sender_of k p)

send_all_lem :
    (msg : String) (m : List (String × Ptr)) (w : Server)
    → All (λ e. is_sender (w.channels e.1) ≡ true) m
    → send_all (some msg) m w ≡ ok tt (record w { sent = told msg (pointers m) w.sent })
unfolding send_all load_sender
send_all_lem msg [] w a = refl
send_all_lem msg ((k, p) ∷ m) w a =
    let (s, g) = sender_in (w.channels p) a.0 in
    rw (send_all, load_sender, g)
      (send_all_lem msg m (record w { sent = (p, text msg) ∷ w.sent }) a.1)

All-pointers :
    (P : Ptr → Type 0) (m : List (String × Ptr)) → All (λ e. P e.1) m → All P (pointers m)
All-pointers P [] a = tt
All-pointers P ((k, p) ∷ m) a = (a.0, All-pointers P m a.1)

module _ (json : List (String × String) → String) (parse : String → Option (String × Option String))
    (starts_with : String → String → Bool) (sender_regex : String → Option (String × String))
    (receiver_regex : String → Option String) where
  module _ (w : Server) (v : IsSound w) where
    -- What a sender of a receiver sends reaches this receiver alone, once, with the sender's
    -- identifier, and nothing else changes.
    pub sender_message_routed :
        (p q : Ptr) (k msg : String)
        → w.channels q ≡ sender_of k p
        → step json parse starts_with sender_regex receiver_regex (sends q msg) w
          ≡ ok tt (record w {
            sent =
                (p, text (json (("type", "message") ∷ ("senderId", k) ∷ ("data", msg) ∷ [])))
                ∷ w.sent;
          })
    unfolding step message_to on_sender_message forward load_sender load_receiver
    sender_message_routed p q k msg e =
        let (r, g, f) = members_in (w.channels p) k q (v.member p k q e) in simp (e, g)

    find-IsSenderOf :
        (p : Ptr) (r : Receiver) (k : String) (q : Ptr)
        → w.channels p ≡ some (receiver_channel r)
        → find k r.senders ≡ some q
        → IsSenderOf w p q
    find-IsSenderOf p r k q e f =
        (k, v.joined p k q (subst (λ c. find k (senders_of c) ≡ some q) (sym e) f))

    -- What a receiver sends reaches, once each, the session of its sender with the identifier that
    -- it names, if there is one, or for "*:*" the sessions of all its senders; these are sessions of
    -- its own senders, and nothing else changes.
    pub receiver_message_routed :
        (p : Ptr) (r : Receiver) (msg id text_ : String)
        → w.channels p ≡ some (receiver_channel r)
        → parse msg ≡ some (id, some text_)
        → (step json parse starts_with sender_regex receiver_regex (sends p msg) w
            ≡ ok tt (record w { sent = told text_ (addressees id r.senders) w.sent }))
          × All (IsSenderOf w p) (addressees id r.senders)
    unfolding step message_to on_receiver_message load_receiver deliver send_to load_sender
    receiver_message_routed p r msg id text_ e h = elim (Bool-cases (str_eq id "*:*")) [
      | inl b ↦ (
        rw (step, message_to, e, on_receiver_message, load_receiver, e, h, deliver, b)
            (send_all_lem text_ r.senders w (senders_live w v p r e)),
        rw b (
            All-pointers (IsSenderOf w p) r.senders (
              All-find (λ s. IsSenderOf w p s.1) r.senders (senders-Distinct w v p r e)
                (λ k q f. find-IsSenderOf p r k q e f))),
      )
      | inr b ↦ elim (Option-cases (find id r.senders)) [
        | inl f ↦ (
          rw (step, message_to, e, on_receiver_message, load_receiver, e, h, deliver, b, f) refl,
          rw (b, f) tt,
        )
        | inr (q, f) ↦
            let g = find-IsSenderOf p r id q e f in
            (
              rw
                  (
                    step, message_to, e, on_receiver_message, load_receiver, e, h, deliver, b, f,
                    send_to, load_sender, g.1,
                  )
                  refl,
              rw (b, f) (g, tt),
            )
      ]
    ]

  -- the states that possible events lead to
  pub data Reachable : Server → Type 0 where
    start : Reachable empty_server
    next :
        {w w' : Server} (e : Event)
        → Reachable w
        → IsPossible json parse starts_with sender_regex receiver_regex e w
        → step json parse starts_with sender_regex receiver_regex e w ≡ ok tt w'
        → Reachable w'

  -- Every state that events lead to from the start is sound.
  pub Reachable-IsSound : (w : Server) → Reachable w → IsSound w
  Reachable-IsSound w start = empty_server-IsSound
  Reachable-IsSound w (next {w = u} e r k h) =
      let (fatal, fine) =
        step-Returns_iff json parse starts_with sender_regex receiver_regex u
          (Reachable-IsSound u r) e k in
      elim (Bool-cases (is_fatal json parse starts_with sender_regex receiver_regex e u)) [
        | inl f ↦ let crashed = fatal f in absurd (ground arith)
        | inr f ↦
            let (x, ended, sound) = fine f in let same : x ≡ w = cc in subst IsSound same sound
      ]
