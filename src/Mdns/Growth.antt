-- ===== src/Mdns/Growth.antt =====
-- The lengths that Writer.cpp and Composer.cpp of flint/src/discovery/mdns count are those of the
-- bytes that they append.
use flingd_cc.Base.{
  ℕ, suc, ◌+◌, ◌/◌, ◌%◌, ◌<◌, ◌≡◌, refl, sym, ◌∙◌, ap, List, [], ◌∷◌, ◌++◌, arith, All, length,
  String, Option-cases, inl, inr, length-append,
}
use mathlib.Core.List.{append_assoc}
use flingd_cc.StdMap.{find}
use flingd_cc.Mdns.Buffer.{Buffer, BufferLaws, Bytes, set_at}
use flingd_cc.Mdns.Writer.{
  Cache, cache_label, write8, write_raw, write16, write_elems, write_label, replace8, replace16,
}
use flingd_cc.Mdns.Composer.{Subject, add_record, add_answer_ptr}
use flingd_cc.Mdns.Written.{word, contents-write8, contents-write16}

set_at-length : (p : Bytes) (c x : ℕ) (r : Bytes) → set_at (length p) c (p ++ x ∷ r) ≡ p ++ c ∷ r
set_at-length [] c x r = refl
set_at-length (y ∷ p) c x r = ap (λ v. y ∷ v) (set_at-length p c x r)

module _ {B : Type 0} {buffer : Buffer B} (laws : BufferLaws buffer) where
  -- `n` bytes have been appended
  abbrev pub Grows : B → B → ℕ → Type 0
  Grows b b' n = (xs : Bytes) × (laws.contents b' ≡ laws.contents b ++ xs) × (length xs ≡ n)

  pub Grows-trans : (a b c : B) (m n : ℕ) → Grows a b m → Grows b c n → Grows a c (m + n)
  Grows-trans a b c m n g h = (
    g.0 ++ h.0,
    h.1 ∙ ap (λ v. v ++ h.0) g.1 ∙ append_assoc (laws.contents a) g.0 h.0,
    length-append g.0 h.0 ∙ rw (g.2, h.2) refl,
  )

  write8-Grows : (d : ℕ) (b : B) → Grows b (write8 buffer d b) 1
  write8-Grows d b = (d % 256 ∷ [], contents-write8 laws d b, refl)

  write16-Grows : (d : ℕ) (b : B) → Grows b (write16 buffer d b) 2
  write16-Grows d b = (word d, contents-write16 laws d b, refl)

  write_raw-Grows :
      (xs : Bytes) (b : B)
      → length xs < 256
      → Grows b (write_raw buffer xs (length xs) b) (length xs)
  unfolding write_raw
  write_raw-Grows xs b h =
      let e : length xs % 256 ≡ length xs = omega arith in
      (xs, rw (write_raw, e) (laws.contents-append_raw xs b), refl)

  module _ (c_str : String → Bytes) where
    -- what the one byte for the length has room for
    abbrev pub IsShort : String → Type 0
    IsShort s = length (c_str s) < 256

    pub part-Grows :
        (s : String) (b : B)
        → IsShort s
        → Grows b
            (write_raw buffer (c_str s) (length (c_str s)) (write8 buffer (length (c_str s)) b))
            (1 + length (c_str s))
    part-Grows s b h =
        Grows-trans b (write8 buffer (length (c_str s)) b)
          (write_raw buffer (c_str s) (length (c_str s)) (write8 buffer (length (c_str s)) b)) 1
          (length (c_str s)) (write8-Grows (length (c_str s)) b)
          (write_raw-Grows (c_str s) (write8 buffer (length (c_str s)) b) h)

    pub write_elems-Grows :
        (join : List String → String) (elems : List String) (label : String) (cache : Cache) (b : B)
        → All IsShort elems
        → Grows b
            (write_elems buffer c_str join elems label cache b).0.0
            (write_elems buffer c_str join elems label cache b).1
    unfolding write_elems
    write_elems-Grows join [] label cache b h = elim (Option-cases (find label cache)) [
      | inl e ↦ rw (write_elems, e) (write8-Grows 0 b)
      | inr (index, e) ↦ rw (write_elems, e) (write16-Grows (index % 16384 + 49152) b)
    ]
    write_elems-Grows join (s ∷ elems) label cache b h = elim (Option-cases (find label cache)) [
      | inl e ↦
          rw (write_elems, e)
            (Grows-trans b _ _ (1 + length (c_str s)) _ (part-Grows s b h.0) (
              write_elems-Grows join elems (join elems)
                (cache_label cache label (buffer.size b % 65536)) _ h.1))
      | inr (index, e) ↦ rw (write_elems, e) (write16-Grows (index % 16384 + 49152) b)
    ]

  replace8-at :
      (p : Bytes) (c x : ℕ) (r : Bytes) (i : ℕ) (b : B)
      → i ≡ length p
      → laws.contents b ≡ p ++ x ∷ r
      → laws.contents (replace8 buffer c i b) ≡ p ++ (c % 256) ∷ r
  unfolding replace8
  replace8-at p c x r i b h e =
      let size : buffer.size b ≡ length p + suc (length r) =
        sym (laws.length-contents b) ∙ ap length e ∙ length-append p (x ∷ r) in
      laws.contents-replace i (c % 256) b (omega arith) (omega (arith, size, h))
      ∙ rw (h, e) (set_at-length p (c % 256) x r)

  -- The two bytes that were kept free behind `a` get the number.
  pub replace16-length :
      (a b : B) (n : ℕ) (xs : Bytes)
      → laws.contents b ≡ laws.contents a ++ (0 ∷ 0 ∷ xs)
      → laws.contents (replace16 buffer (n % 65536) (buffer.size a) b)
        ≡ laws.contents a ++ (word n ++ xs)
  unfolding replace16
  replace16-length a b n xs e =
      let p = laws.contents a in
      let hi : n % 65536 / 256 % 256 % 256 ≡ n / 256 % 256 = omega arith in
      let lo : n % 65536 % 256 % 256 ≡ n % 256 = omega arith in
      let first =
        replace8-at p (n % 65536 / 256 % 256) 0 (0 ∷ xs) (buffer.size a) b
          (sym (laws.length-contents a)) e
        ∙ ap (λ c. p ++ c ∷ 0 ∷ xs) hi
        ∙ sym (append_assoc p (n / 256 % 256 ∷ []) (0 ∷ xs)) in
      let at : buffer.size a + 1 ≡ length (p ++ n / 256 % 256 ∷ []) =
        ap (λ k. k + 1) (sym (laws.length-contents a))
        ∙ sym (length-append p (n / 256 % 256 ∷ [])) in
      replace8-at (p ++ n / 256 % 256 ∷ []) (n % 65536 % 256) 0 xs (buffer.size a + 1)
        (replace8 buffer (n % 65536 / 256 % 256) (buffer.size a) b) at first
      ∙ ap (λ c. (p ++ n / 256 % 256 ∷ []) ++ c ∷ xs) lo
      ∙ append_assoc p (n / 256 % 256 ∷ []) (n % 256 ∷ xs)

  module _ (c_str : String → Bytes) (join : List String → String)
      (split : String → List String) where
    -- The bytes behind the record's start are the length of the data and the data.
    abbrev pub IsSection : B → B → Type 0
    IsSection a b = (xs : Bytes) × (laws.contents b ≡ laws.contents a ++ (word (length xs) ++ xs))

    -- A PTR record is the record's start, then the length of its data, as 16 bits, and that data,
    -- where no part of the name in it is of more than 255 bytes.
    pub add_answer_ptr-length :
        (s : Subject) (value : String) (b : B) (cache : Cache)
        → All (IsShort c_str) (split value)
        → IsSection
            (add_record buffer c_str join split s (b, cache)).0
            (add_answer_ptr buffer c_str join split s value (b, cache)).0
    unfolding add_answer_ptr write_label
    add_answer_ptr-length s value b cache h =
        let w = add_record buffer c_str join split s (b, cache) in
        let g = write_elems-Grows c_str join (split value) value w.1 (write16 buffer 0 w.0) h in
        let e =
          g.1
          ∙ ap (λ v. v ++ g.0) (contents-write16 laws 0 w.0)
          ∙ append_assoc (laws.contents w.0) (0 ∷ 0 ∷ []) g.0 in
        (g.0, rw g.2 (replace16-length w.0 _ _ g.0 e))
