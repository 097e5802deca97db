-- ===== src/App/Refine/Dangling.antt =====
-- A launch that finds a deleted object in the manager's slots uses it, which is a fault.
use flingd_cc.Base.{ℕ, suc, ◌≡◌, ◌≢◌, String, Bool, none, some, inl, inr, arith, Option-cases}
use flingd_cc.App.Store.{Ptr, World, fault}
use flingd_cc.App.Manager.{launch}
use flingd_cc.App.Refine.Writes.{write-ne}

module _ (launches : String → Bool) (m : ℕ) (s q : Ptr) (w : World) where
  -- Nothing is launched beside a starting application that is deleted.
  pub launch-dangling_starting :
      w.starting ≡ some s → w.apps s ≡ none → launch launches (suc m) q w ≡ fault
  unfolding launch
  launch-dangling_starting held dead = elim (Option-cases (w.apps q)) [
    | inl e ↦ simp e
    | inr (b, e) ↦
        let apart : q ≢ s = λ i. ground arith in simp (e, held, write-ne (w.apps) q s _ apart, dead)
  ]

  -- Nor beside a running one.
  pub launch-dangling_top :
      w.starting ≡ none → w.top ≡ some s → w.apps s ≡ none → launch launches (suc m) q w ≡ fault
  unfolding launch
  launch-dangling_top free held dead = elim (Option-cases (w.apps q)) [
    | inl e ↦ simp e
    | inr (b, e) ↦
        let apart : q ≢ s = λ i. ground arith in
        simp (e, free, held, write-ne (w.apps) q s _ apart, dead)
  ]
