-- ===== src/Mdns/Writer.antt =====
-- flint/src/discovery/mdns/Writer.cpp. `c_str` is the bytes of a text up to its end mark, `split`
-- and `join` are boost's on dots, and `to_int` its lexical_cast, which can fail. What a call of the
-- buffer itself returns is not used by the source.
use flingd_cc.Base.{
  ℕ, ◌+◌, ◌/◌, ◌%◌, ◌-◌, String, Option, none, some, Bool, true, false, List, [], ◌∷◌, length, ◌==◌,
  str_eq, if◌then◌else◌,
}
use flingd_cc.Base.Int.{ℤ, pos, negsuc}
use flingd_cc.StdMap.{find, insert}
use flingd_cc.Mdns.Buffer.{Buffer, Bytes}

abbrev pub Cache : Type 0
Cache = List (String × ℕ)

unfoldable pub differs : String → Cache → Bool
differs label [] = false
differs label ((k, i) ∷ cache) = if str_eq k label then differs label cache else true

-- Writer::cache_label; a label that differs from some key of the cache is added
unfoldable pub cache_label : Cache → String → ℕ → Cache
unfolding insert differs
cache_label [] label index = insert label index []
cache_label (e ∷ cache) label index =
    if differs label (e ∷ cache) then insert label index (e ∷ cache) else e ∷ cache

module _ {B : Type 0} (buffer : Buffer B) where
  unfoldable pub write_raw : Bytes → ℕ → B → B
  write_raw ptr len b = buffer.append_raw ptr (len % 256) b

  unfoldable pub write8 : ℕ → B → B
  write8 value b = buffer.appenduc (value % 256) b

  unfoldable pub write16 : ℕ → B → B
  write16 value b = buffer.appenduc (value % 256) (buffer.appenduc (value / 256 % 256) b)

  unfoldable pub write32 : ℕ → B → B
  write32 value b = buffer.appenduc (value % 256) (
      buffer.appenduc (value / 256 % 256)
        (buffer.appenduc (value / 65536 % 256) (buffer.appenduc (value / 16777216 % 256) b)))

  unfoldable pub replace8 : ℕ → ℕ → B → B
  replace8 value index b = buffer.replace index (value % 256) b

  unfoldable pub replace16 : ℕ → ℕ → B → B
  unfolding replace8
  replace16 value index b =
      replace8 (value % 256) (index + 1) (replace8 (value / 256 % 256) index b)

  unfoldable pub replace32 : ℕ → ℕ → B → B
  unfolding replace16
  replace32 value index b =
      replace16 (value % 65536) (index + 2) (replace16 (value / 65536 % 65536) index b)

  module _ (c_str : String → Bytes) where
    -- Writer::write_vector, and the length that it returns
    unfoldable pub write_vector : List String → B → B × ℕ
    unfolding write8 write_raw
    write_vector [] b = (b, 0)
    write_vector (s ∷ rest) b =
        let len = length (c_str s) % 256 in
        let (b', n) = write_vector rest (write_raw (c_str s) len (write8 len b)) in
        (b', 1 + len + n)

    module _ (join : List String → String) where
      -- The loop of Writer::write_label: `elems` is what remains of the label, and `remain_label`
      -- its text.
      unfoldable pub write_elems : List String → String → Cache → B → (B × Cache) × ℕ
      unfolding write8 write_raw write16 cache_label find
      write_elems [] remain_label cache b = elim (find remain_label cache) [
        | some index ↦ ((write16 (index % 16384 + 49152) b, cache), 2)
        | none ↦ ((write8 0 b, cache), 1)
      ]
      write_elems (head ∷ elems) remain_label cache b =
          let len = length (c_str head) in
          let r =
            write_elems elems (join elems) (cache_label cache remain_label (buffer.size b % 65536))
              (write_raw (c_str head) len (write8 len b)) in
          elim (find remain_label cache) [
            | some index ↦ ((write16 (index % 16384 + 49152) b, cache), 2)
            | none ↦ (r.0, 1 + len + r.1)
          ]

      unfoldable pub write_label : (String → List String) → String → Cache → B → (B × Cache) × ℕ
      unfolding write_elems
      write_label split label cache b = write_elems (split label) label cache b

  module _ (to_int : String → Option ℤ) where
    unfoldable pub write_octets : List String → B → B
    write_octets [] b = b
    write_octets (s ∷ rest) b = elim (to_int s) [
      | some (pos n) ↦ write_octets rest (buffer.appenduc (n % 256) b)
      | some (negsuc n) ↦ write_octets rest (buffer.appenduc (255 - n % 256) b)
      | none ↦ write_octets rest b
    ]

    -- Writer::write_ip, and what it returns
    unfoldable pub write_ip : (String → List String) → String → B → B × ℤ
    unfolding write_octets
    write_ip split ip b =
        let octets = split ip in
        if length octets == 4 then (write_octets octets b, pos 4) else (b, negsuc 0)
