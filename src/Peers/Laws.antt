-- ===== src/Peers/Laws.antt =====
-- Laws of the searches of flint/src/peer/PeerServer.cpp in maps whose keys differ for `iequals`.
use Prim.Native.String.{compare}
use Prim.Native.Nat.{Ordering}
use flingd_cc.Base.{
  suc, ◌≤◌, ◌≡◌, refl, eq_iff, String, Bool, true, false, none, some, List, [], ◌∷◌, arith, All,
  is_some, if◌then◌else◌, length, Bool-cases, inl, inr, subst,
}
use flingd_cc.StdMap.{find, insert, place}
use flingd_cc.Peers.Tables.{IsEquality, lookup, remove, key_of, alter}

module _ (iequals : String → String → Bool) (eq : IsEquality iequals) {V : Type 0} where
  abbrev pub IsApart : String → List (String × V) → Type 0
  IsApart k m = All (λ e. iequals k e.0 ≡ false) m

  abbrev pub Apart : List (String × V) → Type 0
  Apart [] = Unit {0}
  Apart ((k, v) ∷ m) = IsApart k m × Apart m

  pub lookup-cong :
      (a b : String) (m : List (String × V))
      → iequals a b ≡ true
      → lookup iequals a m ≡ lookup iequals b m
  unfolding lookup
  lookup-cong a b [] e = refl
  lookup-cong a b ((k, v) ∷ m) e =
      ground
        (arith, lookup-cong a b m e, eq.transitive a b k, eq.transitive b a k, eq.symmetric a b)

  pub All-lookup {κ} :
      (P : String × V → Type κ) (id : String) (v : V) (m : List (String × V))
      → All P m
      → lookup iequals id m ≡ some v
      → (k : String) × P (k, v) × (iequals id k ≡ true) × (key_of iequals id m ≡ some k)
  unfolding lookup key_of
  All-lookup P id v [] a e = absurd (ground arith)
  All-lookup P id v ((k, u) ∷ m) a e = elim (Bool-cases (iequals id k)) [
    | inl t ↦
        let same : u ≡ v = ground arith in (k, subst (λ x. P (k, x)) same a.0, t, ground arith)
    | inr t ↦ let (j, p, s, f) = All-lookup P id v m a.1 (ground arith) in (j, p, s, ground arith)
  ]

  pub All-remove {κ} :
      (P : String × V → Type κ) (id : String) (m : List (String × V))
      → All P m
      → All P (remove iequals id m)
  unfolding remove
  All-remove P id [] a = tt
  All-remove P id ((k, v) ∷ m) a = elim (Bool-cases (iequals id k)) [
    | inl t ↦ rw (remove, t) a.1
    | inr t ↦ rw (remove, t) (a.0, All-remove P id m a.1)
  ]

  pub Apart-remove : (id : String) (m : List (String × V)) → Apart m → Apart (remove iequals id m)
  unfolding remove
  Apart-remove id [] d = tt
  Apart-remove id ((k, v) ∷ m) d = elim (Bool-cases (iequals id k)) [
    | inl t ↦ rw (remove, t) d.1
    | inr t ↦
        rw (remove, t) (All-remove (λ e. iequals k e.0 ≡ false) id m d.0, Apart-remove id m d.1)
  ]

  lookup-IsApart : (k : String) (m : List (String × V)) → lookup iequals k m ≡ none → IsApart k m
  unfolding lookup
  lookup-IsApart k [] e = tt
  lookup-IsApart k ((j, v) ∷ m) e = (ground arith, lookup-IsApart k m (ground arith))

  All-place {κ} :
      (P : String × V → Type κ) (k : String) (v : V) (m : List (String × V))
      → P (k, v)
      → All P m
      → All P (place k v m)
  unfolding place
  All-place P k v [] p a = (p, tt)
  All-place P k v ((j, u) ∷ m) p a =
      let rest : All P ((j, u) ∷ place k v m) = (a.0, All-place P k v m p a.1) in
      elim (compare k j)
        as (λ o. All P (elim o [ Ordering.lt ↦ (k, v) ∷ (j, u) ∷ m | _ ↦ (j, u) ∷ place k v m ])) [
          | Ordering.lt ↦ (p, a)
          | Ordering.eq ↦ rest
          | Ordering.gt ↦ rest
        ]

  pub All-insert {κ} :
      (P : String × V → Type κ) (k : String) (v : V) (m : List (String × V))
      → P (k, v)
      → All P m
      → All P (insert k v m)
  unfolding insert
  All-insert P k v m p a = elim (Bool-cases (is_some (find k m))) [
    | inl t ↦ rw (insert, t) a
    | inr t ↦ rw (insert, t) (All-place P k v m p a)
  ]

  Apart-place :
      (k : String) (v : V) (m : List (String × V)) → IsApart k m → Apart m → Apart (place k v m)
  unfolding place
  Apart-place k v [] a d = (tt, tt)
  Apart-place k v ((j, u) ∷ m) a d =
      let apart : iequals j k ≡ false = ground (arith, eq.symmetric j k) in
      let rest : Apart ((j, u) ∷ place k v m) =
        (All-place (λ e. iequals j e.0 ≡ false) k v m apart d.0, Apart-place k v m a.1 d.1) in
      elim (compare k j)
        as (λ o. Apart (elim o [ Ordering.lt ↦ (k, v) ∷ (j, u) ∷ m | _ ↦ (j, u) ∷ place k v m ])) [
          | Ordering.lt ↦ (a, d)
          | Ordering.eq ↦ rest
          | Ordering.gt ↦ rest
        ]

  pub Apart-insert :
      (k : String) (v : V) (m : List (String × V))
      → lookup iequals k m ≡ none
      → Apart m
      → Apart (insert k v m)
  unfolding insert
  Apart-insert k v m e d = elim (Bool-cases (is_some (find k m))) [
    | inl t ↦ rw (insert, t) d
    | inr t ↦ rw (insert, t) (Apart-place k v m (lookup-IsApart k m e) d)
  ]

  pub All-alter {κ} :
      (P : String × V → Type κ) (id : String) (f : V → V) (m : List (String × V))
      → ((k : String) (v : V) → iequals id k ≡ true → P (k, v) → P (k, f v))
      → All P m
      → All P (alter iequals id f m)
  unfolding alter
  All-alter P id f [] h a = tt
  All-alter P id f ((k, v) ∷ m) h a = elim (Bool-cases (iequals id k)) [
    | inl t ↦ rw (alter, t) (h k v t a.0, a.1)
    | inr t ↦ rw (alter, t) (a.0, All-alter P id f m h a.1)
  ]

  pub Apart-alter :
      (id : String) (f : V → V) (m : List (String × V)) → Apart m → Apart (alter iequals id f m)
  unfolding alter
  Apart-alter id f [] d = tt
  Apart-alter id f ((k, v) ∷ m) d = elim (Bool-cases (iequals id k)) [
    | inl t ↦ rw (alter, t) d
    | inr t ↦
        rw (alter, t)
          (All-alter (λ e. iequals k e.0 ≡ false) id f m (λ j u s h. h) d.0, Apart-alter id f m d.1)
  ]

  find-none : (k : String) (m : List (String × V)) → lookup iequals k m ≡ none → find k m ≡ none
  unfolding lookup find
  find-none k [] e = refl
  find-none k ((j, v) ∷ m) e = ground (arith, eq_iff j k, eq.reflexive k, find-none k m)

  lookup-place :
      (id k : String) (v : V) (m : List (String × V))
      → IsApart k m
      → lookup iequals id (place k v m) ≡ (if iequals id k then some v else lookup iequals id m)
  unfolding lookup place
  lookup-place id k v [] a = ground arith
  lookup-place id k v ((j, u) ∷ m) a =
      ground (arith, lookup-place id k v m a.1, eq.symmetric id k, eq.transitive k id j)

  -- the entry that is inserted is found, and the others as before
  pub lookup-insert :
      (id k : String) (v : V) (m : List (String × V))
      → lookup iequals k m ≡ none
      → lookup iequals id (insert k v m) ≡ (if iequals id k then some v else lookup iequals id m)
  unfolding insert
  lookup-insert id k v m e =
      let fresh : find k m ≡ none = find-none k m e in
      rw (insert, fresh) (lookup-place id k v m (lookup-IsApart k m e))

  pub length-remove :
      (id : String) (m : List (String × V)) → length (remove iequals id m) ≤ length m
  unfolding remove
  length-remove id [] = omega arith
  length-remove id ((k, v) ∷ m) = ground (arith, length-remove id m)

  length-place :
      (k : String) (v : V) (m : List (String × V)) → length (place k v m) ≡ suc (length m)
  unfolding place
  length-place k v [] = omega arith
  length-place k v ((j, u) ∷ m) = ground (arith, length-place k v m)

  pub length-insert :
      (k : String) (v : V) (m : List (String × V)) → length (insert k v m) ≤ suc (length m)
  unfolding insert
  length-insert k v m = ground (arith, length-place k v m)
