-- ===== src/Mdns/Labels.antt =====
-- Reader::getLabel of flint/src/discovery/mdns/Reader.cpp on names that are written out, on a pointer
-- to itself, and on packets without pointers.
use flingd_cc.Base.{
  ℕ, zero, suc, ◌+◌, ◌/◌, ◌%◌, ◌<◌, ◌≤◌, ◌≡◌, refl, ◌∙◌, List, [], ◌∷◌, ◌++◌, arith, All, length,
  ltb, ◌==◌, true, false, if_false, if_true, length-append,
}
use flingd_cc.Mdns.Buffer.{Buffer, Bytes}
use flingd_cc.Mdns.Reader.{
  Memory, get8, get16, Cursor, finished, continued, parsed, copy, round, rounds, counted,
}
use flingd_cc.Mdns.Holds.{Holds, Holds-append, IsByte, get8-Holds, get8-lt, put, copy-Holds}

-- A name as a packet has it, and the text that is read from it, with a dot behind each part.
abbrev pub encode : List Bytes → Bytes
encode [] = 0 ∷ []
encode (l ∷ ls) = length l ∷ (l ++ encode ls)

abbrev pub dotted : List Bytes → Bytes
dotted [] = []
dotted (l ∷ ls) = l ++ 46 ∷ dotted ls

abbrev pub IsPart : Bytes → Type 0
IsPart l = (1 ≤ length l) × (length l < 64) × All IsByte l

module _ {B : Type 0} (buffer : Buffer B) where
  abbrev pub spell : List Bytes → B → B
  spell [] out = out
  spell (l ∷ ls) out = spell ls (buffer.appenduc 46 (put buffer l out))

  module _ (buf : Memory) (data_len : ℕ) where
    pub round_end :
        (c : Cursor buffer)
        → get8 buf data_len c.index ≡ 0
        → round buffer buf data_len c
          ≡ finished (counted c.jump c.ret_len 1) (buffer.delete_end c.out)
    unfolding round
    round_end c e = rw e

    pub round_part :
        (c : Cursor buffer) (len : ℕ)
        → get8 buf data_len c.index ≡ len
        → 1 ≤ len
        → len < 192
        → round buffer buf data_len c
          ≡ continued (record {
            index = (c.index + 1 + len) % 65536;
            ret_len = counted c.jump c.ret_len (1 + len);
            jump = c.jump;
            out = buffer.appenduc 46 (copy buffer buf data_len len ((c.index + 1) % 65536) c.out);
          })
    unfolding round
    round_part c len e h k = rw e (
        if_false {b = len == 0} _ _ (ground arith)
        ∙ if_false {b = len / 64 == 3} _ _ (ground arith))

    pub round_pointer :
        (c : Cursor buffer) (to : ℕ)
        → 192 ≤ get8 buf data_len c.index
        → get16 buf data_len c.index % 16384 ≡ to
        → to ≤ data_len
        → round buffer buf data_len c
          ≡ continued (record {
            index = to;
            ret_len = counted c.jump c.ret_len 2;
            jump = true;
            out = c.out;
          })
    unfolding round
    round_pointer c to h e k =
        let b : get8 buf data_len c.index < 256 = get8-lt buf data_len c.index in
        if_false {b = get8 buf data_len c.index == 0} _ _ (ground arith)
        ∙ if_true {b = get8 buf data_len c.index / 64 == 3} _ _ (ground arith)
        ∙ if_false {b = ltb data_len (get16 buf data_len c.index % 16384)} _ _ (ground arith)
        ∙ rw e

    -- one part of a name, from the memory that holds it
    round-Holds :
        (l ys : Bytes) (i r : ℕ) (out : B)
        → IsPart l
        → Holds (length l ∷ (l ++ ys)) buf i
        → i + suc (length l) ≤ data_len
        → data_len < 65536
        → round buffer buf data_len (record { index = i; ret_len = r; jump = false; out = out })
          ≡ continued (record {
            index = suc i + length l;
            ret_len = r + (1 + length l);
            jump = false;
            out = buffer.appenduc 46 (put buffer l out);
          })
    round-Holds l ys i r out p h k m =
        let c : Cursor buffer = record { index = i; ret_len = r; jump = false; out = out } in
        let e = get8-Holds (length l) buf data_len i (omega arith) h.0 (omega arith) in
        let j : (i + 1) % 65536 ≡ suc i = omega arith in
        let next : (i + 1 + length l) % 65536 ≡ suc i + length l = omega arith in
        let text =
          copy-Holds buffer l buf data_len (suc i) out p.2 (Holds-append l ys buf (suc i) h.1).0
            (omega arith) in
        round_part c (length l) e p.0 (omega arith) ∙ rw (next, j, text) refl

    pub rounds-encode :
        (ls : List Bytes) (n i r : ℕ) (out : B)
        → All IsPart ls
        → Holds (encode ls) buf i
        → i + length (encode ls) ≤ data_len
        → data_len < 65536
        → length ls < n
        → rounds buffer buf data_len n (record { index = i; ret_len = r; jump = false; out = out })
          ≡ parsed (r + length (encode ls), buffer.delete_end (spell ls out))
    unfolding rounds
    rounds-encode ls zero i r out p h k m f = elim f [ ]
    rounds-encode [] (suc n) i r out p h k m f =
        rw
          (
            rounds,
            round_end (record { index = i; ret_len = r; jump = false; out = out })
                (get8-Holds 0 buf data_len i (omega arith) h.0 (omega arith)),
          )
          refl
    rounds-encode (l ∷ ls) (suc n) i r out p h k m f =
        let size = length-append l (encode ls) in
        let step = round-Holds l (encode ls) i r out p.0 h (omega arith) m in
        let rest =
          rounds-encode ls n (suc i + length l) (r + (1 + length l))
            (buffer.appenduc 46 (put buffer l out)) p.1
            (Holds-append l (encode ls) buf (suc i) h.1).1 (omega arith) m (omega arith) in
        let total : r + (1 + length l) + length (encode ls) ≡ r + suc (length (l ++ encode ls)) =
          omega arith in
        rw (rounds, step, rest, total) refl
