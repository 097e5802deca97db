-- ===== src/Mdns/Reader.antt =====
-- flint/src/discovery/mdns/Reader.cpp. `buf i` is the byte at `buf._data_ptr + i`, also beyond the
-- `data_len` bytes of the packet. An index is a uint16; -1 is the greatest number of its type.
use flingd_cc.Base.{
  ℕ, zero, suc, ◌+◌, ◌*◌, ◌/◌, ◌%◌, [], ◌∷◌, Bool, true, false, ltb, ◌==◌, if◌then◌else◌,
}
use flingd_cc.Mdns.Buffer.{Buffer}

abbrev pub Memory : Type 0
Memory = ℕ → ℕ

unfoldable pub get8 : Memory → ℕ → ℕ → ℕ
get8 buf data_len index = if ltb data_len (index + 1) then 255 else buf index % 256

unfoldable pub get16 : Memory → ℕ → ℕ → ℕ
unfolding get8
get16 buf data_len index =
    if ltb data_len (index + 2)
    then 65535
    else get8 buf data_len index * 256 + get8 buf data_len ((index + 1) % 65536)

unfoldable pub get32 : Memory → ℕ → ℕ → ℕ
unfolding get16
get32 buf data_len index =
    if ltb data_len (index + 4)
    then 4294967295
    else get16 buf data_len index * 65536 + get16 buf data_len ((index + 2) % 65536)

-- The result of a loop: it ends, or takes more rounds than given.
pub data Parse (A : Type 0) : Type 0 where
  parsed : A → Parse A
  out_of_fuel : Parse A

module _ {A C : Type 0} where
  infixl 5 ◌>>=◌
  abbrev pub ◌>>=◌ : Parse A → (A → Parse C) → Parse C
  parsed a >>= k = k a
  out_of_fuel >>= k = out_of_fuel

-- no byte after a jump belongs to the label
abbrev pub counted : Bool → ℕ → ℕ → ℕ
counted jump ret_len n = if jump then ret_len else ret_len + n

module _ {B : Type 0} (buffer : Buffer B) where
  -- the variables of getLabel's loop
  pub record Cursor : Type 0 where
    pub index : ℕ
    pub ret_len : ℕ
    pub jump : Bool
    pub out : B

  pub data Round : Type 0 where
    finished : ℕ → B → Round
    continued : Cursor → Round

  module _ (buf : Memory) (data_len : ℕ) where
    -- the inner loop, which copies `tmp_len` bytes
    unfoldable pub copy : ℕ → ℕ → B → B
    copy zero index out = out
    copy (suc tmp_len) index out =
        copy tmp_len ((index + 1) % 65536) (buffer.append_raw (buf index % 256 ∷ []) 1 out)

    -- one round
    unfoldable pub round : Cursor → Round
    unfolding get8 get16 copy
    round c =
        let tmp = get8 buf data_len c.index in
        let pointer = get16 buf data_len c.index % 16384 in
        if tmp == 0
        then finished (counted c.jump c.ret_len 1) (buffer.delete_end c.out)
        else if tmp / 64 == 3
        then (if ltb data_len pointer
            then finished 4294967295 c.out
            else continued (record {
              index = pointer;
              ret_len = counted c.jump c.ret_len 2;
              jump = true;
              out = c.out;
            }))
        else continued (record {
          index = (c.index + 1 + tmp) % 65536;
          ret_len = counted c.jump c.ret_len (1 + tmp);
          jump = c.jump;
          out = buffer.appenduc 46 (copy tmp ((c.index + 1) % 65536) c.out);
        })

    unfoldable pub rounds : ℕ → Cursor → Parse (ℕ × B)
    unfolding round
    rounds zero c = out_of_fuel
    rounds (suc n) c = elim (round c) [
      | finished r out ↦ parsed (r, out)
      | continued c' ↦ rounds n c'
    ]

    -- Reader::getLabel, with at most `n` rounds of its loop
    unfoldable pub get_label : ℕ → ℕ → B → Parse (ℕ × B)
    unfolding rounds
    get_label n index out =
        if ltb data_len index
        then parsed (4294967295, out)
        else rounds n (record { index = index; ret_len = 0; jump = false; out = out })
