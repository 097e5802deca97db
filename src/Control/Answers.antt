-- ===== src/Control/Answers.antt =====
-- What the answers of flint/src/flint/handler/ApplicationControlHandler.cpp have to do with the
-- sessions.
use Prim.Native.String.{◌++◌ as ◌&◌}
use flingd_cc.Base.{
  ℕ, ◌≡◌, ◌≢◌, refl, String, Bool, true, false, some, List, arith, str_eq, eq_iff, if◌then◌else◌,
  Bool-cases, inl, inr,
}
use flingd_cc.StdMap.{find-insert}
use flingd_cc.App.Store.{World, ok}
use flingd_cc.Sessions.Manager.{
  SessionManager, new_session, trigger_timer, check_sender, get_sender, touch_sender,
  disconnect_sender,
}
use flingd_cc.Sessions.Laws.{IsValid, Operation, find-update}
use flingd_cc.Sessions.View.{run}
use flingd_cc.Sessions.Lifetimes.{MakesNone, disconnect-stays}
use flingd_cc.App.Object.{Application}
use flingd_cc.Control.Handler.{bare, on_get, on_delete, post_session}

-- The token that a POST answers with is that of a connected sender, if the POST came without one;
-- a token that it came with is connected afterwards exactly if it was before.
pub post_session-check :
    (now : ℕ) (new_token token app_id : String) (m : SessionManager)
    → check_sender
        (post_session now new_token token app_id m).1
        (post_session now new_token token app_id m).0
      ≡ (if str_eq token "" then true else check_sender token m)
unfolding post_session check_sender touch_sender get_sender
post_session-check now new_token token app_id m = elim (Bool-cases (str_eq token "")) [
  | inl e ↦
      rw (post_session, e)
        (ground (
          arith,
          eq_iff new_token new_token,
          find-insert new_token new_token (trigger_timer now (new_session new_token app_id))
              m.senders,
        ))
  | inr e ↦
      rw (post_session, e)
        (ground (arith, eq_iff token token, find-update token token (trigger_timer now) m.senders))
]

module _ (launches : String → Bool) (n : ℕ) where
  -- A DELETE of an application, and not of its instance, with the token of a connected sender is
  -- answered with 200, leaves the applications as they are and disconnects the sender. After any
  -- operations on the sessions that create none with that token, whatever has become of the
  -- applications, a GET or a DELETE with that token, of any application, is answered with 400 and
  -- changes nothing.
  pub on_delete-refuses :
      (later : ℕ) (instance_ : Bool) (token app_id other_id : String) (m : SessionManager)
      (w u : World) (os : List Operation)
      → IsValid m
      → token ≢ ""
      → check_sender token m ≡ true
      → MakesNone token os
      → (on_delete launches n false token app_id m w
          ≡ ok ((disconnect_sender token m).0, some (bare 200)) w)
        × (let m' = run os (disconnect_sender token m).0 in
            (on_get later token other_id m' u ≡ ok (m', some (bare 400)) u)
            × (on_delete launches n instance_ token other_id m' u ≡ ok (m', some (bare 400)) u))
  unfolding on_delete on_get
  on_delete-refuses later instance_ token app_id other_id m w u os v h c n =
      let e : str_eq token "" ≡ false = ground (arith, eq_iff token "") in
      let gone = disconnect-stays os token m v n in
      (rw (on_delete, e, c) refl, (rw (on_get, e, gone) refl, rw (on_delete, e, gone) refl))

  -- what describes an application that is alive
  abbrev pub running_page : String → Application → String
  running_page app_id a =
      ("<?xml version='1.0' encoding='UTF-8'?>\n"
        & ("<service xmlns='urn:dial-multiscreen-org:schemas:dial'>\n"
            & ("  <name>" & (app_id & "</name>\n  <options allowStop='true'/>\n"))))
      & (("  <state>"
            & (a.app_state
                & ("</state>\n  <link rel=\"run\" href=\"run\"/>\n  <additionalData>"
                    & (a.additional_data & "</additionalData>\n"))))
          & "</service>\n")
