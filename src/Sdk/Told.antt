-- ===== src/Sdk/Told.antt =====
-- What the listeners of the buses of sdk/receiver/src/MessageBusManager.cpp are told.
use flingd_cc.Base.{
  subst, String, List, [], ◌∷◌, ◌++◌, Option, none, some, str_eq, eq_iff, ◌≡◌, refl, arith,
  if◌then◌else◌, Bool-cases, inl, inr,
}
use flingd_cc.Base.Machine.{ok}
use flingd_cc.StdMap.{find, Lacks, Distinct}
use flingd_cc.Media.Json.{Json, texts, object, end, member}
use flingd_cc.Sdk.Store.{receivers, Bus, BusManager, Channel, Sdk, Notice, message}
use flingd_cc.Sdk.Bus.{notices}
use flingd_cc.Sdk.Manager.{step, receives}

-- what a bus, if there is one, tells
abbrev pub told_by : Option Bus → Notice → List Notice
told_by none n = []
told_by (some b) n = if b.listened then n ∷ [] else []

notices-Lacks :
    (ns : String) (f : String → Notice) (m : List (String × Bus))
    → Lacks ns m
    → notices (λ k. str_eq k ns) f m ≡ []
unfolding notices
notices-Lacks ns f [] l = refl
notices-Lacks ns f ((k, b) ∷ m) l = ground (arith, eq_iff k ns, notices-Lacks ns f m l.1)

-- The loop over all buses tells the bus that is found.
notices-find :
    (ns : String) (f : String → Notice) (m : List (String × Bus))
    → Distinct m
    → notices (λ k. str_eq k ns) f m ≡ told_by (find ns m) (f ns)
unfolding notices find
notices-find ns f [] d = refl
notices-find ns f ((k, b) ∷ m) d =
    let rest = notices-find ns f m d.1 in
    elim (Bool-cases (str_eq k ns)) [
      | inl e ↦
          let same : k ≡ ns = ground (arith, eq_iff k ns) in
          rw (e, notices-Lacks ns f m (subst (λ j. Lacks j m) same d.0), same) refl
      | inr e ↦ rw (e) rest
    ]

module _ {D : Type 0} (print : Json D → String) (parse : String → Json D) (app_id : String) where
  -- the text of a message of a sender for a namespace
  abbrev pub payload : (ns m : String) → Json D
  payload ns m = object (member "namespace" (texts ns) (member "payload" (texts m) end))

  abbrev pub from_sender : (sender body : String) → Json D
  from_sender sender body = object (
      member "type" (texts "message")
        (member "senderId" (texts sender) (member "data" (texts body) end)))

  -- A message of a sender, where no two buses have the same namespace.
  pub message_told :
      (w : Sdk) (d : Channel) (b : BusManager) (ns m sender : String)
      → w.receiver_channel ≡ some d
      → w.bus_manager ≡ some b
      → Distinct b.buses
      → parse (print (payload ns m)) ≡ payload ns m
      → parse (print (from_sender sender (print (payload ns m))))
        ≡ from_sender sender (print (payload ns m))
      → step print parse app_id
          (receives receivers (print (from_sender sender (print (payload ns m)))))
          w
        ≡ ok tt (record w { told = told_by (find ns b.buses) (message ns m sender) ++ w.told })
  unfolding step
  message_told w d b ns m sender r k u i j =
      simp (r, k, i, j, notices-find ns (λ n. message n m sender) b.buses u)
