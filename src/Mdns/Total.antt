-- ===== src/Mdns/Total.antt =====
-- The loops of flint/src/discovery/mdns/Reader.cpp and MDNS.cpp end on packets without pointers.
use flingd_cc.Base.{
  ℕ, zero, suc, ◌+◌, ◌%◌, ◌<◌, ◌≤◌, ◌≡◌, refl, ◌∙◌, arith, leb, ltb, ◌==◌, false, if_false, if_true,
  Bool-cases, inl, inr,
}
use flingd_cc.Mdns.Buffer.{Buffer}
use flingd_cc.Mdns.Reader.{
  Memory, get8, get16, Cursor, finished, parsed, round, rounds, get_label, counted, copy,
}
use flingd_cc.Mdns.Labels.{round_end, round_part}

-- No byte of the packet has the two bits that mark a pointer.
abbrev pub IsPointerless : Memory → ℕ → Type 0
IsPointerless buf data_len = (j : ℕ) → j < data_len → buf j % 256 < 192

module _ {B : Type 0} (buffer : Buffer B) (buf : Memory) (data_len : ℕ) where
  get8-beyond : (i : ℕ) → data_len ≤ i → get8 buf data_len i ≡ 255
  unfolding get8
  get8-beyond i h = ground arith

  get16-beyond : (i : ℕ) → data_len ≤ i → get16 buf data_len i ≡ 65535
  unfolding get16
  get16-beyond i h = if_true {b = ltb data_len (i + 2)} _ _ (ground arith)

  get8-inside : (i : ℕ) → IsPointerless buf data_len → i < data_len → get8 buf data_len i < 192
  unfolding get8
  get8-inside i p h = ground (arith, p i h)

  -- Beyond the packet, the bytes that are read look like a pointer that is too far.
  round_beyond :
      (c : Cursor buffer)
      → data_len ≤ c.index
      → data_len < 16383
      → round buffer buf data_len c ≡ finished 4294967295 c.out
  unfolding round
  round_beyond c h k =
      rw (get16-beyond c.index h, get8-beyond c.index h)
        (if_true {b = ltb data_len 16383} _ _ (ground arith))

  rounds-total :
      (n : ℕ) (c : Cursor buffer)
      → IsPointerless buf data_len
      → data_len < 16383
      → c.index < 65536
      → data_len < c.index + n
      → 1 ≤ n
      → (r : ℕ × B) × (rounds buffer buf data_len n c ≡ parsed r)
  unfolding rounds
  rounds-total zero c p k l h f = elim f [ ]
  rounds-total (suc n) c p k l h f = elim (Bool-cases (leb data_len c.index)) [
    | inl e ↦
        let far = round_beyond c (ground arith) k in ((4294967295, c.out), rw (rounds, far) refl)
    | inr e ↦
        let tmp = get8 buf data_len c.index in
        let small : get8 buf data_len c.index < 192 = get8-inside c.index p (ground arith) in
        elim (Bool-cases (tmp == 0)) [
          | inl z ↦
              let zero_byte : get8 buf data_len c.index ≡ 0 = ground arith in
              (
                (counted c.jump c.ret_len 1, buffer.delete_end c.out),
                rw (rounds, round_end buffer buf data_len c zero_byte) refl,
              )
          | inr z ↦
              let c' : Cursor buffer = record {
                index = (c.index + 1 + tmp) % 65536;
                ret_len = counted c.jump c.ret_len (1 + tmp);
                jump = c.jump;
                out =
                    buffer.appenduc 46 (copy buffer buf data_len tmp ((c.index + 1) % 65536) c.out);
              } in
              let step = round_part buffer buf data_len c tmp refl (ground arith) small in
              let rest = rounds-total n c' p k (omega arith) (ground arith) (ground arith) in
              (rest.0, rw (rounds, step) rest.1)
        ]
  ]

  -- In a packet of fewer than 16383 bytes without the mark of a pointer, every name is read to an
  -- end, with one round for each byte of the packet and one more.
  pub get_label-total :
      (n i : ℕ) (out : B)
      → IsPointerless buf data_len
      → data_len < 16383
      → data_len < n
      → (r : ℕ × B) × (get_label buffer buf data_len n i out ≡ parsed r)
  unfolding get_label
  get_label-total n i out p k f = elim (Bool-cases (ltb data_len i)) [
    | inl e ↦ ((4294967295, out), if_true _ _ e)
    | inr e ↦
        let start : Cursor buffer = record { index = i; ret_len = 0; jump = false; out = out } in
        let r = rounds-total n start p k (ground arith) (omega arith) (omega arith) in
        (r.0, if_false _ _ e ∙ r.1)
  ]
