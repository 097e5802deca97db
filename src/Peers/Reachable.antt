-- ===== src/Peers/Reachable.antt =====
-- The states that events of the server of flint/src/peer/PeerServer.cpp lead to.
use flingd_cc.Base.{◌≡◌, refl, subst, String, Bool, Bool-cases, inl, inr, arith}
use flingd_cc.Base.Machine.{ok}
use flingd_cc.Peers.Store.{Hub, empty_hub}
use flingd_cc.Peers.Tables.{IsEquality}
use flingd_cc.Peers.Sound.{IsSound}
use flingd_cc.Peers.Reading.{Fields}
use flingd_cc.Peers.Steps.{Event, step, is_fatal, IsPossible, event-Returns_iff}

module _ (iequals : String → String → Bool) (eq : IsEquality iequals) (type_json : String → String)
    (error_json : String → String → String) (parse : String → Fields)
    (with_src : String → String → String) where
  -- The states that events lead to from the start.
  pub data Reachable : Hub → Type 0 where
    start : Reachable empty_hub
    next :
        {w w' : Hub}
        → (e : Event) → Reachable w
        → IsPossible iequals eq type_json error_json parse with_src e w
        → step iequals eq type_json error_json parse with_src e w ≡ ok tt w'
        → Reachable w'

  -- Every state that events lead to from the start is sound.
  pub hub-IsSound : (w : Hub) → Reachable w → IsSound iequals eq w
  hub-IsSound w start = record {
    owned = tt;
    apart = tt;
    addressed = tt;
    apart_out = tt;
    unlocked = refl;
    bounded = ground arith;
  }
  hub-IsSound w (next {w = u} e r k h) =
      let (fatal, fine) =
        event-Returns_iff iequals eq type_json error_json parse with_src u (hub-IsSound u r) e k in
      elim (Bool-cases (is_fatal iequals eq type_json error_json parse with_src e u)) [
        | inl f ↦ let crashed = fatal f in absurd (ground arith)
        | inr f ↦
            let (x, ended, sound) = fine f in
            let same : x ≡ w = cc in subst (IsSound iequals eq) same sound
      ]
