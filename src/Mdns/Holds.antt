-- ===== src/Mdns/Holds.antt =====
-- Memory that holds given bytes, and what Reader.cpp of flint/src/discovery/mdns reads there.
use flingd_cc.Base.{
  ℕ, suc, ◌+◌, ◌*◌, ◌%◌, ◌<◌, ◌≤◌, ◌≡◌, refl, [], ◌∷◌, ◌++◌, arith, All, length, ltb, if_false, ◌∙◌,
  ap, subst,
}
use flingd_cc.Mdns.Buffer.{Buffer, Bytes}
use flingd_cc.Mdns.Reader.{Memory, get8, get16, get32, copy}

abbrev pub IsByte : ℕ → Type 0
IsByte c = c < 256

abbrev pub Holds : Bytes → Memory → ℕ → Type 0
Holds [] buf i = Unit {0}
Holds (c ∷ xs) buf i = (buf i ≡ c) × Holds xs buf (suc i)

pub Holds-append :
    (xs ys : Bytes) (buf : Memory) (i : ℕ)
    → Holds (xs ++ ys) buf i
    → Holds xs buf i × Holds ys buf (i + length xs)
Holds-append [] ys buf i h =
    let e : i ≡ i + 0 = omega arith in (tt, subst (λ j. Holds ys buf j) e h)
Holds-append (c ∷ xs) ys buf i h =
    let r = Holds-append xs ys buf (suc i) h.1 in
    let e : suc i + length xs ≡ i + suc (length xs) = omega arith in
    ((h.0, r.0), subst (λ j. Holds ys buf j) e r.1)

pub get8-lt : (buf : Memory) (data_len i : ℕ) → get8 buf data_len i < 256
unfolding get8
get8-lt buf data_len i = ground arith

pub get16-lt : (buf : Memory) (data_len i : ℕ) → get16 buf data_len i < 65536
unfolding get16
get16-lt buf data_len i =
    let a : get8 buf data_len i < 256 = get8-lt buf data_len i in
    let b : get8 buf data_len ((i + 1) % 65536) < 256 = get8-lt buf data_len ((i + 1) % 65536) in
    ground arith

pub get8-Holds :
    (c : ℕ) (buf : Memory) (data_len i : ℕ)
    → c < 256
    → buf i ≡ c
    → i < data_len
    → get8 buf data_len i ≡ c
unfolding get8
get8-Holds c buf data_len i l e k = ground arith

pub get16-Holds :
    (hi lo : ℕ) (buf : Memory) (data_len i : ℕ)
    → hi < 256
    → lo < 256
    → Holds (hi ∷ lo ∷ []) buf i
    → i + 2 ≤ data_len
    → data_len < 65536
    → get16 buf data_len i ≡ hi * 256 + lo
unfolding get16
get16-Holds hi lo buf data_len i h l e k m =
    let a = get8-Holds hi buf data_len i h e.0 (omega arith) in
    let j : (i + 1) % 65536 ≡ suc i = omega arith in
    let b = get8-Holds lo buf data_len (suc i) l e.1.0 (omega arith) in
    if_false {b = ltb data_len (i + 2)} _ _ (ground arith) ∙ rw (j, a, b)

pub get32-Holds :
    (a b c d : ℕ) (buf : Memory) (data_len i : ℕ)
    → All IsByte (a ∷ b ∷ c ∷ d ∷ [])
    → Holds (a ∷ b ∷ c ∷ d ∷ []) buf i
    → i + 4 ≤ data_len
    → data_len < 65536
    → get32 buf data_len i ≡ (a * 256 + b) * 65536 + (c * 256 + d)
unfolding get32
get32-Holds a b c d buf data_len i l e k m =
    let p = get16-Holds a b buf data_len i l.0 l.1.0 (e.0, (e.1.0, tt)) (omega arith) m in
    let j : (i + 2) % 65536 ≡ suc (suc i) = omega arith in
    let q = get16-Holds c d buf data_len (suc (suc i)) l.1.1.0 l.1.1.1.0 e.1.1 (omega arith) m in
    if_false {b = ltb data_len (i + 4)} _ _ (ground arith) ∙ rw (j, p, q)

module _ {B : Type 0} (buffer : Buffer B) where
  -- the bytes appended one by one
  abbrev pub put : Bytes → B → B
  put [] out = out
  put (c ∷ xs) out = put xs (buffer.append_raw (c ∷ []) 1 out)

  pub copy-Holds :
      (xs : Bytes) (buf : Memory) (data_len i : ℕ) (out : B)
      → All IsByte xs
      → Holds xs buf i
      → i + length xs < 65536
      → copy buffer buf data_len (length xs) i out ≡ put xs out
  unfolding copy
  copy-Holds [] buf data_len i out a h k = refl
  copy-Holds (c ∷ xs) buf data_len i out a h k =
      let j : (i + 1) % 65536 ≡ suc i = omega arith in
      let v : buf i % 256 ≡ c = ap (λ n. n % 256) h.0 ∙ omega arith in
      rw (
        copy,
        j,
        v,
        copy-Holds xs buf data_len (suc i) (buffer.append_raw (c ∷ []) 1 out) a.1 h.1 (omega arith),
      )
