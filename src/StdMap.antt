-- ===== src/StdMap.antt =====
-- std::map with text keys: the entries in the order of their keys. `insert` does not overwrite.
use Prim.Native.String.{compare}
use Prim.Native.Nat.{Ordering}
use flingd_cc.Base.{
  ◌≡◌, ◌≢◌, refl, String, Option, none, some, List, [], ◌∷◌, arith, str_eq, eq_iff, is_some, All,
  if◌then◌else◌,
}

module _ {ℓ} {V : Type ℓ} where
  unfoldable pub find : String → List (String × V) → Option V
  find k [] = none
  find k ((j, v) ∷ m) = if str_eq j k then some v else find k m

  -- Before the first entry with a greater key.
  unfoldable pub place : String → V → List (String × V) → List (String × V)
  place k v [] = (k, v) ∷ []
  place k v ((j, w) ∷ m) =
      let rest = (j, w) ∷ place k v m in
      elim (compare k j) [ Ordering.lt ↦ (k, v) ∷ (j, w) ∷ m | _ ↦ rest ]

  unfoldable pub insert : String → V → List (String × V) → List (String × V)
  unfolding find place
  insert k v m = if is_some (find k m) then m else place k v m

  unfoldable pub erase : String → List (String × V) → List (String × V)
  erase k [] = []
  erase k ((j, v) ∷ m) = if str_eq j k then m else (j, v) ∷ erase k m

  -- No entry has the key.
  abbrev pub Lacks : String → List (String × V) → Type 0
  Lacks k [] = Unit {0}
  Lacks k ((j, v) ∷ m) = (j ≢ k) × Lacks k m

  abbrev pub Distinct : List (String × V) → Type 0
  Distinct [] = Unit {0}
  Distinct ((j, v) ∷ m) = Lacks j m × Distinct m

  pub find-Lacks : (k : String) (m : List (String × V)) → Lacks k m → find k m ≡ none
  unfolding find
  find-Lacks k [] l = refl
  find-Lacks k ((j, v) ∷ m) l = ground (arith, eq_iff j k, find-Lacks k m l.1)

  pub Lacks-find : (k : String) (m : List (String × V)) → find k m ≡ none → Lacks k m
  unfolding find
  Lacks-find k [] e = tt
  Lacks-find k ((j, v) ∷ m) e = ((λ h. ground (arith, eq_iff j k)), Lacks-find k m (ground arith))

  find-place :
      (k j : String) (v : V) (m : List (String × V))
      → find k m ≡ none
      → find j (place k v m) ≡ (if str_eq k j then some v else find j m)
  unfolding find place
  find-place k j v [] e = refl
  find-place k j v ((i, w) ∷ m) e =
      ground (arith, eq_iff k j, eq_iff i k, eq_iff i j, find-place k j v m)

  -- An entry that is there already is kept.
  pub find-insert :
      (k j : String) (v : V) (m : List (String × V))
      → find j (insert k v m)
        ≡ (if str_eq k j then (if is_some (find k m) then find k m else some v) else find j m)
  unfolding insert
  find-insert k j v m = ground (arith, eq_iff k j, find-place k j v m)

  Lacks-place :
      (i k : String) (v : V) (m : List (String × V)) → k ≢ i → Lacks i m → Lacks i (place k v m)
  unfolding place
  Lacks-place i k v [] d l = (d, tt)
  Lacks-place i k v ((j, w) ∷ m) d l = ground (arith, Lacks-place i k v m d l.1)

  Distinct-place :
      (k : String) (v : V) (m : List (String × V)) → Lacks k m → Distinct m → Distinct (place k v m)
  unfolding place
  Distinct-place k v [] l d = (tt, tt)
  Distinct-place k v ((j, w) ∷ m) l d =
      ground (arith, Lacks-place j k v m, Distinct-place k v m l.1 d.1)

  pub Distinct-insert :
      (k : String) (v : V) (m : List (String × V)) → Distinct m → Distinct (insert k v m)
  unfolding insert
  Distinct-insert k v m d = ground (arith, Lacks-find k m, Distinct-place k v m)

  Lacks-erase : (i k : String) (m : List (String × V)) → Lacks i m → Lacks i (erase k m)
  unfolding erase
  Lacks-erase i k [] l = tt
  Lacks-erase i k ((j, w) ∷ m) l = ground (arith, Lacks-erase i k m l.1)

  pub Distinct-erase : (k : String) (m : List (String × V)) → Distinct m → Distinct (erase k m)
  unfolding erase
  Distinct-erase k [] d = tt
  Distinct-erase k ((j, w) ∷ m) d = ground (arith, Lacks-erase j k m d.0, Distinct-erase k m d.1)

  pub find-erase :
      (k j : String) (m : List (String × V))
      → Distinct m
      → find j (erase k m) ≡ (if str_eq k j then none else find j m)
  unfolding find erase
  find-erase k j [] d = ground arith
  find-erase k j ((i, w) ∷ m) d =
      ground (arith, eq_iff k j, eq_iff i k, eq_iff i j, find-Lacks i m d.0, find-erase k j m d.1)

  -- What holds of all that is found holds of all entries.
  pub All-find {κ} :
      (P : String × V → Type κ) (m : List (String × V))
      → Distinct m
      → ((k : String) (v : V) → find k m ≡ some v → P (k, v))
      → All P m
  unfolding find
  All-find P [] d f = tt
  All-find P ((k, v) ∷ m) d f = (
    f k v (ground (arith, eq_iff k k)),
    All-find P m d.1 (λ j u e. f j u (ground (arith, eq_iff k j, find-Lacks k m d.0))),
  )
