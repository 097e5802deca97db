-- ===== src/Peers/Tests.antt =====
-- The server of the peers at concrete states.
use flingd_cc.Base.{◌≡◌, refl, String, [], ◌∷◌, arith, eq_iff, str_eq, if◌then◌else◌}
use flingd_cc.Base.Machine.{Run, ok, fault}
use flingd_cc.Peers.Store.{PeerMessage, Hub, text, empty_hub, write}
use flingd_cc.Peers.Tables.{IsEquality, lookup}
use flingd_cc.Peers.Sound.{IsSound}
use flingd_cc.Peers.Reading.{texts, other, Fields, message_of}
use flingd_cc.Peers.Server.{on_connection, transmit_all}
use flingd_cc.Peers.Routes.{message_routed}
use flingd_cc.Peers.Faults.{first_message_lost, reconnect_crashes}
use flingd_cc.Peers.Reachable.{Reachable, start, next, hub-IsSound}
use flingd_cc.Peers.Steps.{Event, connects, sends, closes, step}

pub same-IsEquality : IsEquality str_eq
same-IsEquality = record {
  reflexive = λ s. ground (arith, eq_iff s s);
  symmetric = λ s t h. ground (arith, eq_iff s t, eq_iff t s, h);
  transitive = λ s t u h k. ground (arith, eq_iff s t, eq_iff t u, eq_iff s u, h, k);
}

abbrev type_text : String → String
type_text t = t

abbrev error_text : String → String → String
error_text t m = m

-- a text is an offer to "b", or for "bye" a LEAVE without a destination
abbrev fields : String → Fields
fields msg =
    if str_eq msg "bye"
    then record { type_ = texts "LEAVE"; dst = texts ""; payload = other }
    else record { type_ = texts "OFFER"; dst = texts "b"; payload = other }

abbrev signed : String → String → String
signed msg src = src

abbrev run : Event → Hub → Run Hub (Unit {0})
run e w = step str_eq same-IsEquality type_text error_text fields signed e w

abbrev after : Run Hub (Unit {0}) → Hub
after (ok u w) = w
after fault = empty_hub

-- a peer "a", and then also a peer "b"
abbrev one : Hub
one = after (run (connects 1 "peerjs" "a" "t") empty_hub)

abbrev two : Hub
two = after (run (connects 2 "peerjs" "b" "t") one)

one_connects : run (connects 1 "peerjs" "a" "t") empty_hub ≡ ok tt one
unfolding step write
one_connects = refl

two_connects : run (connects 2 "peerjs" "b" "t") one ≡ ok tt two
unfolding step write
two_connects = refl

one-Reachable : Reachable str_eq same-IsEquality type_text error_text fields signed one
one-Reachable = next (connects 1 "peerjs" "a" "t") start refl one_connects

two-Reachable : Reachable str_eq same-IsEquality type_text error_text fields signed two
unfolding step write
two-Reachable = next (connects 2 "peerjs" "b" "t") one-Reachable refl two_connects

hub-IsSound_example : IsSound str_eq same-IsEquality two
hub-IsSound_example =
    hub-IsSound str_eq same-IsEquality type_text error_text fields signed two two-Reachable

one-IsSound : IsSound str_eq same-IsEquality one
one-IsSound =
    hub-IsSound str_eq same-IsEquality type_text error_text fields signed one one-Reachable

empty-IsSound : IsSound str_eq same-IsEquality empty_hub
empty-IsSound =
    hub-IsSound str_eq same-IsEquality type_text error_text fields signed empty_hub start

message_routed_example :
    run (sends 1 "hello") two ≡ ok tt (record two { sent = (2, text "a") ∷ two.sent })
unfolding step write lookup message_of
message_routed_example =
    message_routed str_eq same-IsEquality type_text error_text fields signed two 1 1 2
      (record { id = "a"; token = "t"; session = 1; slots = 1 })
      (record { id = "b"; token = "t"; session = 2; slots = 1 }) "hello" "OFFER" "b" refl refl refl
      refl refl

-- two offers to "b"
abbrev offer : String → PeerMessage
offer msg = record { type_ = "OFFER"; src = "a"; dst = "b"; content = msg }

first_message_lost_example :
    (x : Hub) × (y : Hub) × (transmit_all str_eq (offer "1" ∷ offer "2" ∷ []) one ≡ ok tt x)
    × (on_connection str_eq type_text error_text 2 "peerjs" "b" "t" x ≡ ok tt y)
    × (y.sent ≡ (2, text "2") ∷ (2, text "OPEN") ∷ one.sent)
unfolding step write lookup
first_message_lost_example =
    first_message_lost str_eq same-IsEquality type_text error_text fields signed one 2 "peerjs" "b"
      "t" (offer "1") (offer "2" ∷ []) one-IsSound refl refl refl refl refl refl refl (ground arith)
      ((refl, refl, refl), ((refl, refl, refl), tt))

reconnect_crashes_example :
    (x : Hub) × (y : Hub) × (run (connects 3 "peerjs" "a" "t") one ≡ ok tt x)
    × (run (closes 1) x ≡ ok tt y)
    × (run (sends 3 "hello") y ≡ fault)
unfolding step write lookup
reconnect_crashes_example =
    reconnect_crashes str_eq same-IsEquality type_text error_text fields signed one 1 3 1
      (record { id = "a"; token = "t"; session = 1; slots = 1 }) "peerjs" "a" "t" "hello"
      one-IsSound refl refl refl refl refl refl refl (ground arith)
