-- ===== src/Base/Machine.antt =====
-- Commands on a state: they end with a result, or with a fault, which is a use of an object that was
-- deleted, of a null pointer, or of a value as what it is not.
pub data Run (S A : Type 0) : Type 0 where
  ok : A → S → Run S A
  fault : Run S A

abbrev pub Cmd : Type 0 → Type 0 → Type 0
Cmd S A = S → Run S A

module _ {S : Type 0} where
  abbrev pub skip : Cmd S (Unit {0})
  skip = ok tt

  abbrev pub get : Cmd S S
  get w = ok w w

  abbrev pub crash : {A : Type 0} → Cmd S A
  crash w = fault

module _ {S A B : Type 0} where
  abbrev pub and_then : Run S A → (A → Cmd S B) → Run S B
  and_then (ok a w) k = k a w
  and_then fault k = fault

  infixl 5 ◌>>=◌ ◌>>◌
  abbrev pub ◌>>=◌ : Cmd S A → (A → Cmd S B) → Cmd S B
  m >>= k = λ w. and_then (m w) k

  abbrev pub ◌>>◌ : Cmd S A → Cmd S B → Cmd S B
  m >> n = m >>= λ _. n
