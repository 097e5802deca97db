-- ===== src/Peers/Tables.antt =====
-- The searches of flint/src/peer/PeerServer.cpp in its maps: the first entry, in the order of the keys,
-- whose key equals a text for boost::iequals.
use flingd_cc.Base.{◌≡◌, String, Bool, true, Option, none, some, List, [], ◌∷◌, if◌then◌else◌}

-- `iequals` is equality up to case.
pub record IsEquality (iequals : String → String → Bool) : Type 0 where
  pub reflexive : (s : String) → iequals s s ≡ true
  pub symmetric : (s t : String) → iequals s t ≡ true → iequals t s ≡ true
  pub transitive : (s t u : String) → iequals s t ≡ true → iequals t u ≡ true → iequals s u ≡ true

module _ (iequals : String → String → Bool) {V : Type 0} where
  unfoldable pub lookup : String → List (String × V) → Option V
  lookup id [] = none
  lookup id ((k, v) ∷ m) = if iequals id k then some v else lookup id m

  unfoldable pub remove : String → List (String × V) → List (String × V)
  remove id [] = []
  remove id ((k, v) ∷ m) = if iequals id k then m else (k, v) ∷ remove id m

  -- the key of the entry
  unfoldable pub key_of : String → List (String × V) → Option String
  key_of id [] = none
  key_of id ((k, v) ∷ m) = if iequals id k then some k else key_of id m

  unfoldable pub alter : String → (V → V) → List (String × V) → List (String × V)
  alter id f [] = []
  alter id f ((k, v) ∷ m) = if iequals id k then (k, f v) ∷ m else (k, v) ∷ alter id f m
