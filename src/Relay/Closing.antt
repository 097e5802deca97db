-- ===== src/Relay/Closing.antt =====
-- ReceiverChannel::onClose of flint/src/ws/WebsocketServer.cpp: its loop, and that the invariant is kept.
use mathlib.Core.Path.{fun_ext}
use flingd_cc.Base.{
  String, ◌≡◌, refl, subst, Bool, true, false, Option, none, some, List, [], ◌∷◌, ◌==◌,
  if◌then◌else◌, arith, eq_iff, All, All-imp, Bool-cases, inl, inr,
}
use flingd_cc.Base.Machine.{ok}
use flingd_cc.StdMap.{find, erase, Distinct, find-Lacks, find-erase, Distinct-erase, All-find}
use flingd_cc.Relay.Store.{
  Ptr, Receiver, Channel, Output, closing, sender_channel, receiver_channel, Server, write,
  load_sender,
}
use flingd_cc.Relay.Server.{close_sender, close_senders}
use flingd_cc.Relay.Sound.{IsSound, senders_of}

abbrev pub orphan : Option Channel → Option Channel
orphan none = none
orphan (some (sender_channel s)) = some (sender_channel (record s { channel = none }))
orphan (some (receiver_channel r)) = some (receiver_channel r)

abbrev pub is_sender : Option Channel → Bool
is_sender none = false
is_sender (some (sender_channel s)) = true
is_sender (some (receiver_channel r)) = false

unfoldable pub has_ptr : Ptr → List (String × Ptr) → Bool
has_ptr x [] = false
has_ptr x ((k, q) ∷ m) = if q == x then true else has_ptr x m

-- the objects after the senders of `m` have lost their receiver
unfoldable pub orphaned : (Ptr → Option Channel) → List (String × Ptr) → Ptr → Option Channel
unfolding has_ptr
orphaned h m x = if has_ptr x m then orphan (h x) else h x

abbrev pub closings : List (String × Ptr) → List (Ptr × Output) → List (Ptr × Output)
closings [] sent = sent
closings ((k, q) ∷ m) sent = closings m ((q, closing) ∷ sent)

orphaned-write :
    (h : Ptr → Option Channel) (k : String) (q : Ptr) (m : List (String × Ptr))
    → orphaned (write h q (orphan (h q))) m ≡ orphaned h ((k, q) ∷ m)
unfolding orphaned write
orphaned-write h k q m = fun_ext λ x. ground arith

close_one :
    (q : Ptr) (w : Server)
    → is_sender (w.channels q) ≡ true
    → close_sender q w
      ≡ ok tt (record w {
        channels = write w.channels q (orphan (w.channels q));
        sent = (q, closing) ∷ w.sent;
      })
unfolding close_sender load_sender
close_one q w e = ground arith

orphaned-nil : (h : Ptr → Option Channel) → orphaned h [] ≡ h
unfolding orphaned
orphaned-nil h = fun_ext λ x. refl

is_sender-write :
    (h : Ptr → Option Channel) (q x : Ptr)
    → is_sender (h x) ≡ true
    → is_sender (write h q (orphan (h q)) x) ≡ true
unfolding write
is_sender-write h q x e = ground arith

pub close_senders_lem :
    (m : List (String × Ptr)) (w : Server)
    → All (λ e. is_sender (w.channels e.1) ≡ true) m
    → close_senders m w
      ≡ ok tt (record w { channels = orphaned w.channels m; sent = closings m w.sent })
unfolding close_senders
close_senders_lem [] w a = rw (close_senders, orphaned-nil w.channels) refl
close_senders_lem ((k, q) ∷ m) w a =
    let w' : Server = record w {
      channels = write w.channels q (orphan (w.channels q));
      sent = (q, closing) ∷ w.sent;
    } in
    let kept =
      All-imp (λ e. is_sender (w.channels e.1) ≡ true) (λ e. is_sender (w'.channels e.1) ≡ true) m
        (λ e h. is_sender-write w.channels q (e.1) h) a.1 in
    rw
      (
        close_senders,
        close_one q w a.0,
        close_senders_lem m w' kept,
        orphaned-write w.channels k q m,
      )
      refl

find-has_ptr :
    (k : String) (q : Ptr) (m : List (String × Ptr)) → find k m ≡ some q → has_ptr q m ≡ true
unfolding find has_ptr
find-has_ptr k q [] e = ground arith
find-has_ptr k q ((j, x) ∷ m) e = ground (arith, find-has_ptr k q m)

has_ptr-find :
    (q : Ptr) (m : List (String × Ptr))
    → Distinct m
    → has_ptr q m ≡ true
    → (k : String) × (find k m ≡ some q)
unfolding find has_ptr
has_ptr-find q [] d e = absurd (ground arith)
has_ptr-find q ((j, x) ∷ m) d e = elim (Bool-cases (x == q)) [
  | inl t ↦ (j, ground (arith, eq_iff j j))
  | inr t ↦
      let (k, f) = has_ptr-find q m d.1 (ground arith) in
      (k, ground (arith, eq_iff j k, find-Lacks j m d.0))
]

module _ (w : Server) (v : IsSound w) where
  pub senders-Distinct :
      (p : Ptr) (r : Receiver) → w.channels p ≡ some (receiver_channel r) → Distinct r.senders
  senders-Distinct p r e = subst (λ c. Distinct (senders_of c)) e (v.distinct_senders p)

  -- the senders of a receiver live
  pub senders_live :
      (p : Ptr) (r : Receiver)
      → w.channels p ≡ some (receiver_channel r)
      → All (λ s. is_sender (w.channels s.1) ≡ true) r.senders
  senders_live p r e =
      All-find (λ s. is_sender (w.channels s.1) ≡ true) r.senders (senders-Distinct p r e)
        (λ k q f. ground (arith, v.joined p k q))

  -- a receiver that goes, when its senders have lost it
  pub close-IsSound :
      (p : Ptr) (r : Receiver)
      → w.channels p ≡ some (receiver_channel r)
      → IsSound (record w {
        channels =
            write
              (write
                (orphaned w.channels r.senders)
                p
                (some (receiver_channel (record r { senders = [] }))))
              p
              none;
        receivers = erase r.channel_id w.receivers;
      })
  unfolding write orphaned find
  close-IsSound p r e =
      let known = v.registered r.channel_id p (ground arith) in
      record {
        listed = λ j x h. ground (
          arith,
          eq_iff r.channel_id j,
          find-erase r.channel_id j w.receivers,
          v.distinct,
          v.listed j x,
        );
        registered = λ j x h. ground (
          arith,
          eq_iff r.channel_id j,
          find-erase r.channel_id j w.receivers,
          v.distinct,
          v.registered j x,
        );
        joined = λ x k q h. elim (Bool-cases (has_ptr q r.senders)) [
          | inl t ↦
              let (k', f) = has_ptr-find q r.senders (senders-Distinct p r e) t in
              ground (arith, v.joined x k q, v.joined p k' q)
          | inr t ↦ ground (arith, v.joined x k q)
        ];
        member = λ x k q h. ground (arith, v.member x k q, find-has_ptr k q r.senders);
        distinct = Distinct-erase r.channel_id w.receivers v.distinct;
        distinct_senders = λ x. ground (arith, v.distinct_senders x);
      }
