-- ===== src/Mdns/Message.antt =====
-- flint/src/discovery/mdns/MDNS.cpp: the parts of a packet, as their constructors read them. The
-- pointers `queries_` and `records_` to vectors are lists. A field that a constructor does not
-- assign is `none`. `inet_ntop` is the text of an address of as many bytes.
use flingd_cc.Base.{
  ℕ, zero, suc, ◌+◌, ◌/◌, ◌%◌, Bool, true, false, ◌||◌, not, Option, none, some, List, [], ◌∷◌,
  ◌&&◌, String, ◌++◌, ◌==◌, length, if◌then◌else◌,
}
use flingd_cc.Mdns.Buffer.{Buffer, Bytes}
use flingd_cc.Mdns.Reader.{Memory, get16, get32, Parse, parsed, ◌>>=◌, get_label}

pub record Header : Type 0 where
  pub id : ℕ
  pub flag : ℕ
  pub query_num : ℕ
  pub answer_num : ℕ
  pub auth_num : ℕ
  pub add_num : ℕ

unfoldable pub read_header : Memory → ℕ → ℕ → Header
unfolding get16
read_header buf data_len index = record {
  id = get16 buf data_len (index % 65536);
  flag = get16 buf data_len ((index + 2) % 65536);
  query_num = get16 buf data_len ((index + 4) % 65536);
  answer_num = get16 buf data_len ((index + 6) % 65536);
  auth_num = get16 buf data_len ((index + 8) % 65536);
  add_num = get16 buf data_len ((index + 10) % 65536);
}

unfoldable pub is_query : Header → Bool
is_query h = h.flag / 32768 % 2 == 0

unfoldable pub is_response : Header → Bool
is_response h = h.flag / 32768 % 2 == 1

unfoldable pub is_authoritative_answer : Header → Bool
is_authoritative_answer h = not (h.flag / 1024 % 2 == 0)

unfoldable pub is_truncated : Header → Bool
is_truncated h = not (h.flag / 512 % 2 == 0)

module _ {B : Type 0} (buffer : Buffer B) where
  pub record Query : Type 0 where
    pub protocol : B
    pub type_ : ℕ
    pub class_ : ℕ
    pub length_ : ℕ

  pub record Record : Type 0 where
    pub name : B
    pub type_ : ℕ
    pub class_ : ℕ
    pub ttl : ℕ
    pub data_length : ℕ
    pub data_ : Option B
    pub length_ : ℕ
    pub record_type : ℕ
    pub priority : Option ℕ
    pub weight : Option ℕ
    pub port : Option ℕ

  pub record Incoming : Type 0 where
    pub header : Header
    pub queries : List Query
    pub records : List Record

  module _ (inet_ntop : Bytes → Bytes) (buf : Memory) (data_len : ℕ) (n : ℕ) where
    abbrev bytes_at : ℕ → ℕ → Bytes
    bytes_at zero index = []
    bytes_at (suc k) index = buf index % 256 ∷ bytes_at k (index + 1)

    -- mDNSQuery::mDNSQuery; the length of the label becomes a uint16, which is never negative
    unfoldable pub read_query : ℕ → Parse Query
    unfolding get16 get_label
    read_query index = do
      (r, protocol) ← get_label buffer buf data_len n index buffer.empty
      let protocol_len = r % 65536
      parsed (record {
        protocol = protocol;
        type_ = get16 buf data_len ((protocol_len + index) % 65536);
        class_ = get16 buf data_len ((protocol_len + index + 2) % 65536);
        length_ = (protocol_len + 4) % 65536;
      })

    unfoldable pub address : ℕ → ℕ → B
    address count at =
        let text = inet_ntop (bytes_at count at) in
        buffer.append_raw text (length text) buffer.empty

    -- the `switch` of mDNSRecord::mDNSRecord, for data that starts at `at`
    unfoldable pub read_data : ℕ → ℕ → Parse B
    unfolding get_label address
    read_data type_ at =
        if type_ == 1
        then parsed (address 4 at)
        else if type_ == 28
        then parsed (address 16 at)
        else if (type_ == 2) || (type_ == 5) || (type_ == 12)
        then (do r ← get_label buffer buf data_len n (at % 65536) buffer.empty; parsed r.1)
        else if type_ == 33
        then (do r ← get_label buffer buf data_len n ((at + 6) % 65536) buffer.empty; parsed r.1)
        else parsed buffer.empty

    -- the fields that only a SRV record has
    unfoldable pub srv_field : ℕ → ℕ → ℕ → Option ℕ
    unfolding get16
    srv_field data_length type_ at =
        if not (data_length == 0) && (type_ == 33)
        then some (get16 buf data_len (at % 65536))
        else none

    -- the data of a record whose name ends before `at`, if its length is not 0
    unfoldable pub assigned_data : ℕ → Parse (Option B)
    unfolding get16 read_data
    assigned_data at =
        if get16 buf data_len ((at + 8) % 65536) == 0
        then parsed none
        else (do d ← read_data (get16 buf data_len (at % 65536)) (at + 10); parsed (some d))

    -- the record of a name of the length `name_len` that ends before `at`
    unfoldable pub record_at : ℕ → ℕ → ℕ → B → Option B → Record
    unfolding get16 get32 srv_field
    record_at record_type name_len at name data_ =
        let type_ = get16 buf data_len (at % 65536) in
        let data_length = get16 buf data_len ((at + 8) % 65536) in
        record {
          name = name;
          type_ = type_;
          class_ = get16 buf data_len ((at + 2) % 65536);
          ttl = get32 buf data_len ((at + 4) % 65536);
          data_length = data_length;
          data_ = data_;
          length_ = (name_len + 10 + data_length) % 65536;
          record_type = record_type;
          priority = srv_field data_length type_ (at + 10);
          weight = srv_field data_length type_ (at + 12);
          port = srv_field data_length type_ (at + 14);
        }

    -- mDNSRecord::mDNSRecord
    unfoldable pub read_record : ℕ → ℕ → Parse Record
    unfolding get_label assigned_data record_at
    read_record record_type index = do
      (r, name) ← get_label buffer buf data_len n index buffer.empty
      let name_len = r % 65536
      data_ ← assigned_data (name_len + index)
      parsed (record_at record_type name_len (name_len + index) name data_)

    unfoldable pub read_queries : ℕ → ℕ → Parse (List Query × ℕ)
    unfolding read_query
    read_queries zero cursor = parsed ([], cursor)
    read_queries (suc num) cursor = do
      q ← read_query cursor
      (qs, end) ← read_queries num ((cursor + q.length_) % 65536)
      parsed (q ∷ qs, end)

    unfoldable pub read_records : ℕ → ℕ → ℕ → Parse (List Record × ℕ)
    unfolding read_record
    read_records record_type zero cursor = parsed ([], cursor)
    read_records record_type (suc num) cursor = do
      r ← read_record record_type cursor
      (rs, end) ← read_records record_type num ((cursor + r.length_) % 65536)
      parsed (r ∷ rs, end)

    -- MDNSIncoming::MDNSIncoming, with at most `n` rounds for each label
    unfoldable pub read_incoming : Parse Incoming
    unfolding read_header read_queries read_records
    read_incoming = do
      let header = read_header buf data_len 0
      (queries, c1) ← read_queries header.query_num 12
      (answers, c2) ← read_records 1 header.answer_num c1
      (auths, c3) ← read_records 2 header.auth_num c2
      (adds, c4) ← read_records 3 header.add_num c3
      parsed (record { header = header; queries = queries; records = answers ++ (auths ++ adds) })

  -- MDNSIncoming::compareProtocol; `iequals` is boost's, on the text of a buffer
  unfoldable pub compare_protocol : (B → String → Bool) → String → List Query → Bool
  compare_protocol iequals protocol [] = false
  compare_protocol iequals protocol (q ∷ qs) =
      if iequals q.protocol protocol then true else compare_protocol iequals protocol qs
