-- ===== src/Mdns/Composer.antt =====
-- flint/src/discovery/mdns/Composer.cpp. A part that writes labels takes the buffer together with
-- the cache of labels.
use flingd_cc.Base.{ℕ, ◌+◌, ◌%◌, ◌-◌, String, Option, List}
use flingd_cc.Base.Int.{ℤ, pos, negsuc}
use flingd_cc.Mdns.Buffer.{Buffer, Bytes}
use flingd_cc.Mdns.Writer.{Cache, write16, write32, write_label, write_vector, write_ip, replace16}

-- an int as a uint16
abbrev pub to_uint16 : ℤ → ℕ
to_uint16 (pos n) = n % 65536
to_uint16 (negsuc n) = 65535 - n % 65536

-- What a record is about: its label, type, class and time to live.
pub record Subject : Type 0 where
  pub label : String
  pub type_ : ℕ
  pub cls : ℕ
  pub ttl : ℕ

module _ {B : Type 0} (buffer : Buffer B) where
  unfoldable pub set_header : ℕ → ℕ → ℕ → ℕ → ℕ → ℕ → B → B
  unfolding write16
  set_header id flag query_num answer_num auth_num add_num b = write16 buffer add_num (
      write16 buffer auth_num (
        write16 buffer answer_num
          (write16 buffer query_num (write16 buffer flag (write16 buffer id b)))))

  module _ (c_str : String → Bytes) (join : List String → String)
      (split : String → List String) where
    -- The class that is written is not the one that is given.
    unfoldable pub add_query_ptr : String → ℕ → ℕ → B × Cache → B × Cache
    unfolding write_label write16
    add_query_ptr label type_ cls (b, cache) =
        let ((b1, cache1), n) = write_label buffer c_str join split label cache b in
        (write16 buffer 32769 (write16 buffer type_ b1), cache1)

    unfoldable pub add_record : Subject → B × Cache → B × Cache
    unfolding write_label write16 write32
    add_record s (b, cache) =
        let ((b1, cache1), n) = write_label buffer c_str join split s.label cache b in
        (write32 buffer s.ttl (write16 buffer s.cls (write16 buffer s.type_ b1)), cache1)

    unfoldable pub add_answer_ptr : Subject → String → B × Cache → B × Cache
    unfolding add_record write_label write16 replace16
    add_answer_ptr s value w =
        let (b1, cache1) = add_record s w in
        let position = buffer.size b1 in
        let ((b2, cache2), n) =
          write_label buffer c_str join split value cache1 (write16 buffer 0 b1) in
        (replace16 buffer (n % 65536) position b2, cache2)

    -- Priority and weight are 0, the port is 9431.
    unfoldable pub add_additional_srv : Subject → String → B × Cache → B × Cache
    unfolding add_record write_label write16 replace16
    add_additional_srv s value w =
        let (b1, cache1) = add_record s w in
        let position = buffer.size b1 in
        let b2 = write16 buffer 9431 (write16 buffer 0 (write16 buffer 0 (write16 buffer 0 b1))) in
        let ((b3, cache2), n) = write_label buffer c_str join split value cache1 b2 in
        (replace16 buffer ((6 + n) % 65536) position b3, cache2)

    unfoldable pub add_additional_txt : Subject → List String → B × Cache → B × Cache
    unfolding add_record write_vector write16 replace16
    add_additional_txt s value w =
        let (b1, cache1) = add_record s w in
        let position = buffer.size b1 in
        let (b2, n) = write_vector buffer c_str value (write16 buffer 0 b1) in
        (replace16 buffer (n % 65536) position b2, cache1)

    unfoldable pub add_additional_addr :
        (String → Option ℤ) → Subject → String → B × Cache → B × Cache
    unfolding add_record write_ip write16 replace16
    add_additional_addr to_int s value w =
        let (b1, cache1) = add_record s w in
        let position = buffer.size b1 in
        let (b2, n) = write_ip buffer to_int split value (write16 buffer 0 b1) in
        (replace16 buffer (to_uint16 n) position b2, cache1)
