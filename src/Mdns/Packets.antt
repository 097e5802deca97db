-- ===== src/Mdns/Packets.antt =====
-- What MDNSIncoming::MDNSIncoming of flint/src/discovery/mdns/MDNS.cpp makes of a packet as a whole.
use flingd_cc.Base.{
  ℕ, zero, suc, ◌+◌, ◌%◌, ◌<◌, ◌≡◌, refl, ap, List, [], ◌++◌, arith, length, ◌==◌, ◌||◌, Option,
  none, some, Bool, true, false, if◌then◌else◌, length-append, not, is_some, All, All-imp,
  All-append,
}
use flingd_cc.Mdns.Buffer.{Buffer, Bytes}
use flingd_cc.Mdns.Reader.{Memory, Parse, parsed, ◌>>=◌, get_label, get16}
use flingd_cc.Mdns.Message.{
  Record, Incoming, read_header, read_query, read_data, read_record, read_queries, read_records,
  read_incoming, address, assigned_data, record_at,
}
use flingd_cc.Mdns.Total.{IsPointerless, get_label-total}

abbrev pub Returns : {A : Type 0} → (A → Type 0) → Parse A → Type 0
Returns {A} P m = (a : A) × (m ≡ parsed a) × P a

bind-Returns :
    {A C : Type 0} (P : A → Type 0) (Q : C → Type 0) (m : Parse A) (k : A → Parse C)
    → Returns P m
    → ((a : A) → P a → Returns Q (k a))
    → Returns Q (m >>= k)
bind-Returns P Q m k r f = let s = f r.0 r.2 in (s.0, rw r.1 s.1, s.2)

if-Returns :
    {A : Type 0} (P : A → Type 0) (b : Bool) (m n : Parse A)
    → Returns P m
    → Returns P n
    → Returns P (if b then m else n)
if-Returns P true m n r s = r
if-Returns P false m n r s = s

abbrev Ends : {A : Type 0} → Parse A → Type 0
Ends {A} = Returns (λ (a : A). Unit {0})

optional-Returns :
    {A : Type 0} (b : Bool) (m : Parse A)
    → Ends m
    → Returns
        (λ (o : Option A). is_some o ≡ not b)
        (if b then parsed none else (m >>= λ d. parsed (some d)))
optional-Returns true m r = (none, refl, refl)
optional-Returns false m r = bind-Returns _ _ m _ r (λ d u. (some d, refl, refl))

-- A record of the section that it was read in; its data is assigned unless the data length is 0.
abbrev pub IsRecord : {B : Type 0} (buffer : Buffer B) → ℕ → Record buffer → Type 0
IsRecord buffer record_type r =
    (r.record_type ≡ record_type) × (is_some r.data_ ≡ not (r.data_length == 0))

module _ {B : Type 0} (buffer : Buffer B) (inet_ntop : Bytes → Bytes) where
  module _ (buf : Memory) (data_len n : ℕ) (p : IsPointerless buf data_len) (k : data_len < 16383)
      (f : data_len < n) where
    get_label-Ends : (i : ℕ) (out : B) → Ends (get_label buffer buf data_len n i out)
    get_label-Ends i out =
        let r = get_label-total buffer buf data_len n i out p k f in (r.0, r.1, tt)

    read_query-Ends : (i : ℕ) → Ends (read_query buffer inet_ntop buf data_len n i)
    unfolding read_query
    read_query-Ends i = bind-Returns _ _ _ _ (get_label-Ends i buffer.empty) (λ r u. (_, refl, tt))

    read_data-Ends : (type_ at : ℕ) → Ends (read_data buffer inet_ntop buf data_len n type_ at)
    unfolding read_data
    read_data-Ends type_ at =
        let label = λ (i : ℕ).
          bind-Returns _ _ _ (λ r. parsed r.1) (get_label-Ends i buffer.empty)
            (λ r u. (r.1, refl, tt)) in
        if-Returns _ (type_ == 1) _ _ (address buffer inet_ntop buf data_len n 4 at, refl, tt)
          (if-Returns _ (type_ == 28) _ _ (address buffer inet_ntop buf data_len n 16 at, refl, tt)
            (if-Returns _ ((type_ == 2) || (type_ == 5) || (type_ == 12)) _ _ (label (at % 65536))
              (if-Returns _ (type_ == 33) _ _ (label ((at + 6) % 65536)) (buffer.empty, refl, tt))))

    read_record-Ends :
        (record_type i : ℕ)
        → Returns
            (IsRecord buffer record_type)
            (read_record buffer inet_ntop buf data_len n record_type i)
    unfolding read_record assigned_data record_at
    read_record-Ends record_type i =
        bind-Returns _ (IsRecord buffer record_type) _ _ (get_label-Ends i buffer.empty) (λ r u.
          let at = r.0 % 65536 + i in
          let made = record_at buffer inet_ntop buf data_len n record_type (r.0 % 65536) at r.1 in
          bind-Returns _ (IsRecord buffer record_type)
            (assigned_data buffer inet_ntop buf data_len n at) (λ o. parsed (made o))
            (optional-Returns (get16 buf data_len ((at + 8) % 65536) == 0) _
              (read_data-Ends (get16 buf data_len (at % 65536)) (at + 10)))
            (λ o e. (made o, refl, (refl, e))))

    read_queries-Ends :
        (num cursor : ℕ)
        → Returns (λ r. length r.0 ≡ num) (read_queries buffer inet_ntop buf data_len n num cursor)
    unfolding read_queries
    read_queries-Ends zero cursor = (([], cursor), refl, refl)
    read_queries-Ends (suc num) cursor =
        bind-Returns _ (λ r. length r.0 ≡ suc num) _ _ (read_query-Ends cursor)
          (λ q u.
            bind-Returns _ (λ r. length r.0 ≡ suc num) _ _ (read_queries-Ends num _)
              (λ r e. (_, refl, ap suc e)))

    read_records-Ends :
        (record_type num cursor : ℕ)
        → Returns
            (λ r. (length r.0 ≡ num) × All (IsRecord buffer record_type) r.0)
            (read_records buffer inet_ntop buf data_len n record_type num cursor)
    unfolding read_records
    read_records-Ends record_type zero cursor = (([], cursor), refl, (refl, tt))
    read_records-Ends record_type (suc num) cursor =
        bind-Returns _ (λ r. (length r.0 ≡ suc num) × All (IsRecord buffer record_type) r.0) _ _
          (read_record-Ends record_type cursor)
          (λ q u.
            bind-Returns _ (λ r. (length r.0 ≡ suc num) × All (IsRecord buffer record_type) r.0) _ _
              (read_records-Ends record_type num _) (λ r e. (_, refl, (ap suc e.0, (u, e.1)))))

    -- A packet of fewer than 16383 bytes, none of which has the mark of a pointer, is read to an
    -- end, also where it is cut off: it has as many queries and records as its header says, and the
    -- data of a record is assigned unless its length is 0.
    pub read_incoming-total :
        (incoming : Incoming buffer) × (read_incoming buffer inet_ntop buf data_len n
          ≡ parsed incoming)
        × (length incoming.queries ≡ (read_header buf data_len 0).query_num)
        × (length incoming.records
            ≡ (read_header buf data_len 0).answer_num
              + ((read_header buf data_len 0).auth_num + (read_header buf data_len 0).add_num))
        × All (λ r. is_some r.data_ ≡ not (r.data_length == 0)) incoming.records
    unfolding read_incoming
    read_incoming-total =
        let h = read_header buf data_len 0 in
        let qs = read_queries-Ends h.query_num 12 in
        let ans = read_records-Ends 1 h.answer_num qs.0.1 in
        let auths = read_records-Ends 2 h.auth_num ans.0.1 in
        let adds = read_records-Ends 3 h.add_num auths.0.1 in
        let forget = λ (t : ℕ) (rs : List (Record buffer)).
          All-imp (IsRecord buffer t) (λ r. is_some r.data_ ≡ not (r.data_length == 0)) rs
            (λ r e. e.1) in
        (
          record { header = h; queries = qs.0.0; records = ans.0.0 ++ (auths.0.0 ++ adds.0.0) },
          rw (read_incoming, qs.1, ans.1, auths.1, adds.1) refl,
          qs.2,
          omega (
            arith,
            length-append ans.0.0 (auths.0.0 ++ adds.0.0),
            length-append auths.0.0 adds.0.0,
            ans.2.0,
            auths.2.0,
            adds.2.0,
          ),
          All-append _ ans.0.0 (auths.0.0 ++ adds.0.0) (forget 1 ans.0.0 ans.2.1) (
              All-append _ auths.0.0 adds.0.0 (forget 2 auths.0.0 auths.2.1)
                (forget 3 adds.0.0 adds.2.1)),
        )
