-- ===== src/Mdns/Names.antt =====
-- Reader::getLabel of flint/src/discovery/mdns/Reader.cpp as a whole: the text it reads, and when
-- it ends.
use flingd_cc.Base.{
  ℕ, zero, suc, ◌+◌, ◌/◌, ◌%◌, ◌<◌, ◌≤◌, ◌≡◌, refl, sym, ◌∙◌, ap, List, [], ◌∷◌, ◌++◌, arith, All,
  length, ltb, true, false, if_false,
}
use mathlib.Core.List.{append-nil, append_assoc}
use flingd_cc.Mdns.Buffer.{Buffer, BufferLaws, Bytes}
use flingd_cc.Mdns.Reader.{
  Memory, get8, get16, Cursor, parsed, out_of_fuel, rounds, get_label, counted,
}
use flingd_cc.Mdns.Holds.{Holds, get8-Holds, get16-Holds, put}
use flingd_cc.Mdns.Labels.{encode, dotted, IsPart, spell, rounds-encode, round_pointer}

-- the parts of a name with dots between them
abbrev pub joined : List Bytes → Bytes
joined [] = []
joined (l ∷ []) = l
joined (l ∷ m ∷ ls) = l ++ 46 ∷ joined (m ∷ ls)

dotted-joined : (l : Bytes) (ls : List Bytes) → dotted (l ∷ ls) ≡ joined (l ∷ ls) ++ 46 ∷ []
dotted-joined l [] = refl
dotted-joined l (m ∷ ls) =
    ap (λ r. l ++ 46 ∷ r) (dotted-joined m ls)
    ∙ sym (append_assoc l (46 ∷ joined (m ∷ ls)) (46 ∷ []))

module _ {B : Type 0} {buffer : Buffer B} (laws : BufferLaws buffer) where
  contents-put :
      (xs : Bytes) (out : B) → laws.contents (put buffer xs out) ≡ laws.contents out ++ xs
  contents-put [] out = sym (append-nil (laws.contents out))
  contents-put (c ∷ xs) out =
      contents-put xs (buffer.append_raw (c ∷ []) 1 out)
      ∙ ap (λ v. v ++ xs) (laws.contents-append_raw (c ∷ []) out)
      ∙ append_assoc (laws.contents out) (c ∷ []) xs

  contents-spell :
      (ls : List Bytes) (out : B)
      → laws.contents (spell buffer ls out) ≡ laws.contents out ++ dotted ls
  contents-spell [] out = sym (append-nil (laws.contents out))
  contents-spell (l ∷ ls) out =
      contents-spell ls (buffer.appenduc 46 (put buffer l out))
      ∙ ap (λ v. v ++ dotted ls) (laws.contents-appenduc 46 (put buffer l out) (omega arith))
      ∙ ap (λ v. (v ++ 46 ∷ []) ++ dotted ls) (contents-put l out)
      ∙ ap (λ v. v ++ dotted ls) (append_assoc (laws.contents out) l (46 ∷ []))
      ∙ append_assoc (laws.contents out) (l ++ 46 ∷ []) (dotted ls)
      ∙ ap (λ v. laws.contents out ++ v) (append_assoc l (46 ∷ []) (dotted ls))

  -- A name that stands written out in the packet, with at least one part, is read to its end: the
  -- length is what it takes in the packet, and the buffer gets its parts with dots between them.
  pub get_label-encode :
      (l : Bytes) (ls : List Bytes) (buf : Memory) (data_len n i : ℕ) (out : B)
      → All IsPart (l ∷ ls)
      → Holds (encode (l ∷ ls)) buf i
      → i + length (encode (l ∷ ls)) ≤ data_len
      → data_len < 65536
      → length (l ∷ ls) < n
      → (name : B) × (get_label buffer buf data_len n i out
          ≡ parsed (length (encode (l ∷ ls)), name))
        × (laws.contents name ≡ laws.contents out ++ joined (l ∷ ls))
  unfolding get_label
  get_label-encode l ls buf data_len n i out p h k m f =
      let name = buffer.delete_end (spell buffer (l ∷ ls) out) in
      let text =
        contents-spell (l ∷ ls) out
        ∙ ap (λ v. laws.contents out ++ v) (dotted-joined l ls)
        ∙ sym (append_assoc (laws.contents out) (joined (l ∷ ls)) (46 ∷ [])) in
      let zero_add : 0 + length (encode (l ∷ ls)) ≡ length (encode (l ∷ ls)) = omega arith in
      (
        name,
        if_false {b = ltb data_len i} _ _ (ground arith)
            ∙ rounds-encode buffer buf data_len (l ∷ ls) n i 0 out p h k m f
            ∙ ap (λ k. parsed (k, name)) zero_add,
        laws.contents-delete_end (laws.contents out ++ joined (l ∷ ls)) 46 _ text,
      )

module _ {B : Type 0} (buffer : Buffer B) (buf : Memory) (data_len : ℕ) where
  rounds-pointer :
      (n : ℕ) (c : Cursor buffer)
      → 192 ≤ get8 buf data_len c.index
      → get16 buf data_len c.index % 16384 ≡ c.index
      → c.index ≤ data_len
      → rounds buffer buf data_len n c ≡ out_of_fuel
  unfolding rounds
  rounds-pointer zero c h e k = refl
  rounds-pointer (suc n) c h e k =
      rw (rounds, round_pointer buffer buf data_len c c.index h e k)
        (rounds-pointer n
          (record {
            index = c.index;
            ret_len = counted c.jump c.ret_len 2;
            jump = true;
            out = c.out;
          })
          h e k)

  -- A name that starts with a pointer to itself is never read to an end.
  pub get_label-self_pointer :
      (n i : ℕ) (out : B)
      → Holds ((192 + i / 256) ∷ (i % 256) ∷ []) buf i
      → i < 16384
      → i + 2 ≤ data_len
      → data_len < 65536
      → get_label buffer buf data_len n i out ≡ out_of_fuel
  unfolding get_label
  get_label-self_pointer n i out h l k m =
      let lead = get8-Holds (192 + i / 256) buf data_len i (omega arith) h.0 (omega arith) in
      let word =
        get16-Holds (192 + i / 256) (i % 256) buf data_len i (omega arith) (omega arith) h k m in
      if_false {b = ltb data_len i} _ _ (ground arith)
      ∙ rounds-pointer n (record { index = i; ret_len = 0; jump = false; out = out })
          (omega (arith, lead)) (omega (arith, word)) (omega arith)
