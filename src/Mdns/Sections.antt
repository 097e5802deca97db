-- ===== src/Mdns/Sections.antt =====
-- The lengths in the SRV and TXT records that flint/src/discovery/mdns/Composer.cpp writes.
use flingd_cc.Base.{
  ◌+◌, ◌%◌, ◌<◌, ◌≡◌, refl, sym, ◌∙◌, ap, List, [], ◌∷◌, ◌++◌, arith, All, length, String,
  length-append,
}
use mathlib.Core.List.{append-nil, append_assoc}
use flingd_cc.Mdns.Buffer.{Buffer, BufferLaws, Bytes}
use flingd_cc.Mdns.Writer.{Cache, write8, write_raw, write16, write_vector, write_label}
use flingd_cc.Mdns.Composer.{Subject, add_record, add_additional_srv, add_additional_txt}
use flingd_cc.Mdns.Written.{word, contents-write8, contents-write16}
use flingd_cc.Mdns.Growth.{IsShort, write_elems-Grows, replace16-length, IsSection}

module _ {B : Type 0} {buffer : Buffer B} (laws : BufferLaws buffer) (c_str : String → Bytes) where
  -- the texts, each behind its length
  abbrev pub texts_data : List String → Bytes
  texts_data [] = []
  texts_data (s ∷ ss) = length (c_str s) ∷ (c_str s ++ texts_data ss)

  contents-write_raw :
      (xs : Bytes) (b : B)
      → length xs < 256
      → laws.contents (write_raw buffer xs (length xs) b) ≡ laws.contents b ++ xs
  unfolding write_raw
  contents-write_raw xs b h =
      let e : length xs % 256 ≡ length xs = omega arith in
      rw (write_raw, e) (laws.contents-append_raw xs b)

  contents-part :
      (s : String) (b : B)
      → IsShort laws c_str s
      → laws.contents
          (write_raw buffer (c_str s) (length (c_str s)) (write8 buffer (length (c_str s)) b))
        ≡ laws.contents b ++ (length (c_str s) ∷ c_str s)
  contents-part s b h =
      let n = length (c_str s) in
      let e : n % 256 ≡ n = omega arith in
      contents-write_raw (c_str s) (write8 buffer n b) h
      ∙ ap (λ v. v ++ c_str s) (contents-write8 laws n b ∙ ap (λ k. laws.contents b ++ k ∷ []) e)
      ∙ append_assoc (laws.contents b) (n ∷ []) (c_str s)

  contents-write_vector :
      (ss : List String) (b : B)
      → All (IsShort laws c_str) ss
      → (laws.contents (write_vector buffer c_str ss b).0 ≡ laws.contents b ++ texts_data ss)
        × ((write_vector buffer c_str ss b).1 ≡ length (texts_data ss))
  unfolding write_vector
  contents-write_vector [] b h = (sym (append-nil (laws.contents b)), refl)
  contents-write_vector (s ∷ ss) b h =
      let e : length (c_str s) % 256 ≡ length (c_str s) = omega (arith, h.0) in
      let part = contents-part s b h.0 in
      let rest = contents-write_vector ss _ h.1 in
      (
        rw (write_vector, e)
            (rest.0
              ∙ ap (λ v. v ++ texts_data ss) part
              ∙ append_assoc (laws.contents b) (length (c_str s) ∷ c_str s) (texts_data ss)),
        rw (write_vector, e) omega (arith, rest.1, length-append (c_str s) (texts_data ss)),
      )

  module _ (join : List String → String) (split : String → List String) where
    -- A SRV record is the record's start, then the length of its data, as 16 bits, and that data,
    -- where no part of the name in it is of more than 255 bytes.
    pub add_additional_srv-length :
        (s : Subject) (value : String) (b : B) (cache : Cache)
        → All (IsShort laws c_str) (split value)
        → IsSection laws c_str join split
            (add_record buffer c_str join split s (b, cache)).0
            (add_additional_srv buffer c_str join split s value (b, cache)).0
    unfolding add_additional_srv write_label
    add_additional_srv-length s value b cache h =
        let w = add_record buffer c_str join split s (b, cache) in
        let b1 = write16 buffer 0 w.0 in
        let b2 = write16 buffer 0 b1 in
        let b3 = write16 buffer 0 b2 in
        let b4 = write16 buffer 9431 b3 in
        let g = write_elems-Grows laws c_str join (split value) value w.1 b4 h in
        let fixed = 0 ∷ 0 ∷ 0 ∷ 0 ∷ 36 ∷ 215 ∷ [] in
        let e4 : laws.contents b4 ≡ laws.contents w.0 ++ (0 ∷ 0 ∷ fixed) =
          contents-write16 laws 9431 b3
          ∙ ap (λ v. v ++ word 9431) (contents-write16 laws 0 b2)
          ∙ ap (λ v. v ++ word 0 ++ word 9431) (contents-write16 laws 0 b1)
          ∙ ap (λ v. v ++ word 0 ++ word 0 ++ word 9431) (contents-write16 laws 0 w.0)
          ∙ append_assoc (laws.contents w.0 ++ word 0 ++ word 0) (word 0) (word 9431)
          ∙ append_assoc (laws.contents w.0 ++ word 0) (word 0) (word 0 ++ word 9431)
          ∙ append_assoc (laws.contents w.0) (word 0) (word 0 ++ (word 0 ++ word 9431)) in
        let e =
          g.1 ∙ ap (λ v. v ++ g.0) e4 ∙ append_assoc (laws.contents w.0) (0 ∷ 0 ∷ fixed) g.0 in
        let size : length (fixed ++ g.0) ≡ 6 + length g.0 = omega arith in
        (fixed ++ g.0, rw (size, g.2) (replace16-length laws w.0 _ _ (fixed ++ g.0) e))

    -- A TXT record is the record's start, then the length of its data, as 16 bits, and the data: its
    -- texts in their order, each behind its length, where none of them is of more than 255 bytes.
    pub add_additional_txt_lem :
        (s : Subject) (value : List String) (b : B) (cache : Cache)
        → All (IsShort laws c_str) value
        → laws.contents (add_additional_txt buffer c_str join split s value (b, cache)).0
          ≡ laws.contents (add_record buffer c_str join split s (b, cache)).0
            ++ (word (length (texts_data value)) ++ texts_data value)
    unfolding add_additional_txt
    add_additional_txt_lem s value b cache h =
        let w = add_record buffer c_str join split s (b, cache) in
        let g = contents-write_vector value (write16 buffer 0 w.0) h in
        let e =
          g.0
          ∙ ap (λ v. v ++ texts_data value) (contents-write16 laws 0 w.0)
          ∙ append_assoc (laws.contents w.0) (0 ∷ 0 ∷ []) (texts_data value) in
        rw g.1 (replace16-length laws w.0 _ _ (texts_data value) e)
