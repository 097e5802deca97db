-- ===== src/Mdns/Written.antt =====
-- What the calls of flint/src/discovery/mdns/Writer.cpp and Composer.cpp leave in the buffer.
use flingd_cc.Base.{ℕ, ◌+◌, ◌/◌, ◌%◌, ◌<◌, ◌≤◌, ◌≡◌, refl, ◌∙◌, ap, subst, [], ◌∷◌, ◌++◌, arith}
use mathlib.Core.List.{append_assoc}
use flingd_cc.Mdns.Buffer.{Buffer, BufferLaws, Bytes}
use flingd_cc.Mdns.Reader.{Memory, get16}
use flingd_cc.Mdns.Message.{Header, read_header}
use flingd_cc.Mdns.Writer.{write8, write16}
use flingd_cc.Mdns.Composer.{set_header}
use flingd_cc.Mdns.Holds.{Holds, get16-Holds}

-- the bytes of a 16-bit number, the high one first
abbrev pub word : ℕ → Bytes
word d = d / 256 % 256 ∷ (d % 256) ∷ []

module _ {B : Type 0} {buffer : Buffer B} (laws : BufferLaws buffer) where
  pub contents-write8 :
      (d : ℕ) (b : B) → laws.contents (write8 buffer d b) ≡ laws.contents b ++ (d % 256) ∷ []
  unfolding write8
  contents-write8 d b = laws.contents-appenduc (d % 256) b (omega arith)

  pub contents-write16 :
      (d : ℕ) (b : B) → laws.contents (write16 buffer d b) ≡ laws.contents b ++ word d
  unfolding write16
  contents-write16 d b =
      laws.contents-appenduc (d % 256) (buffer.appenduc (d / 256 % 256) b) (omega arith)
      ∙ ap (λ v. v ++ (d % 256) ∷ []) (laws.contents-appenduc (d / 256 % 256) b (omega arith))
      ∙ append_assoc (laws.contents b) (d / 256 % 256 ∷ []) (d % 256 ∷ [])

  abbrev header_bytes : Header → Bytes
  header_bytes h =
      word h.id
      ++ (word h.flag
          ++ (word h.query_num ++ (word h.answer_num ++ (word h.auth_num ++ word h.add_num))))

  contents-set_header :
      (h : Header) (b : B)
      → laws.contents b ≡ []
      → laws.contents
          (set_header buffer h.id h.flag h.query_num h.answer_num h.auth_num h.add_num b)
        ≡ header_bytes h
  unfolding set_header
  contents-set_header h b e =
      rw
        (
          contents-write16 h.add_num (
              write16 buffer h.auth_num (
                write16 buffer h.answer_num
                  (write16 buffer h.query_num (write16 buffer h.flag (write16 buffer h.id b))))),
          contents-write16 h.auth_num (
              write16 buffer h.answer_num
                (write16 buffer h.query_num (write16 buffer h.flag (write16 buffer h.id b)))),
          contents-write16 h.answer_num
              (write16 buffer h.query_num (write16 buffer h.flag (write16 buffer h.id b))),
          contents-write16 h.query_num (write16 buffer h.flag (write16 buffer h.id b)),
          contents-write16 h.flag (write16 buffer h.id b),
          contents-write16 h.id b,
          e,
        )
        refl

  abbrev pub IsHeader : Header → Type 0
  IsHeader h =
      (h.id < 65536)
      × (h.flag < 65536)
      × (h.query_num < 65536)
      × (h.answer_num < 65536)
      × (h.auth_num < 65536)
      × (h.add_num < 65536)

  word-get16 :
      (d : ℕ) (buf : Memory) (data_len i : ℕ)
      → d < 65536
      → Holds (word d) buf i
      → i + 2 ≤ data_len
      → data_len < 65536
      → get16 buf data_len i ≡ d
  word-get16 d buf data_len i l h k m =
      get16-Holds (d / 256 % 256) (d % 256) buf data_len i (omega arith) (omega arith) h k m
      ∙ omega arith

  -- A header of 16-bit numbers that is written to an empty buffer is read back from memory that
  -- holds the buffer's bytes.
  pub read_header-set_header :
      (h : Header) (b : B) (buf : Memory) (data_len : ℕ)
      → IsHeader h
      → laws.contents b ≡ []
      → Holds
          (laws.contents
            (set_header buffer h.id h.flag h.query_num h.answer_num h.auth_num h.add_num b))
          buf
          0
      → 12 ≤ data_len
      → data_len < 65536
      → read_header buf data_len 0 ≡ h
  unfolding read_header
  read_header-set_header h b buf data_len l e m k f =
      let at0 = subst (λ v. Holds v buf 0) (contents-set_header h b e) m in
      let at2 = at0.1.1 in
      let at4 = at2.1.1 in
      let at6 = at4.1.1 in
      let at8 = at6.1.1 in
      let at10 = at8.1.1 in
      rw
        (
          word-get16 h.id buf data_len 0 l.0 (at0.0, (at0.1.0, tt)) (omega arith) f,
          word-get16 h.flag buf data_len 2 l.1 (at2.0, (at2.1.0, tt)) (omega arith) f,
          word-get16 h.query_num buf data_len 4 l.2 (at4.0, (at4.1.0, tt)) (omega arith) f,
          word-get16 h.answer_num buf data_len 6 l.3 (at6.0, (at6.1.0, tt)) (omega arith) f,
          word-get16 h.auth_num buf data_len 8 l.4 (at8.0, (at8.1.0, tt)) (omega arith) f,
          word-get16 h.add_num buf data_len 10 l.5 at10 (omega arith) f,
        )
        refl
