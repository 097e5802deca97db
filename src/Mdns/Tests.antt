-- ===== src/Mdns/Tests.antt =====
-- The codec with a buffer that is a list of bytes: runs, and the theorems at concrete packets.
use flingd_cc.Base.{
  ℕ, zero, suc, ◌+◌, ◌≡◌, refl, ap, ◌∙◌, List, [], ◌∷◌, ◌++◌, arith, All, length, String, ◌==◌,
  str_eq, if◌then◌else◌, is_some, not,
}
use flingd_cc.Mdns.Buffer.{Buffer, BufferLaws, Bytes, set_at}
use flingd_cc.Mdns.Reader.{Memory, get_label, parsed, out_of_fuel}
use flingd_cc.Mdns.Message.{Header, Incoming, read_header, read_incoming}
use flingd_cc.Mdns.Writer.{write_elems}
use flingd_cc.Mdns.Composer.{Subject, set_header, add_record, add_additional_txt}
use flingd_cc.Mdns.Holds.{Holds}
use flingd_cc.Mdns.Labels.{encode}
use flingd_cc.Mdns.Names.{get_label-encode, get_label-self_pointer}
use flingd_cc.Mdns.Total.{get_label-total}
use flingd_cc.Mdns.Sections.{add_additional_txt_lem}
use flingd_cc.Mdns.Packets.{read_incoming-total}
use flingd_cc.Mdns.Written.{read_header-set_header}

abbrev take : ℕ → Bytes → Bytes
take zero xs = []
take (suc n) [] = []
take (suc n) (x ∷ xs) = x ∷ take n xs

take-length : (xs : Bytes) → take (length xs) xs ≡ xs
take-length [] = refl
take-length (x ∷ xs) = ap (λ v. x ∷ v) (take-length xs)

abbrev drop_last : Bytes → Bytes
drop_last [] = []
drop_last (x ∷ []) = []
drop_last (x ∷ y ∷ xs) = x ∷ drop_last (y ∷ xs)

drop_last-append : (xs : Bytes) (c : ℕ) → drop_last (xs ++ c ∷ []) ≡ xs
drop_last-append [] c = refl
drop_last-append (x ∷ []) c = refl
drop_last-append (x ∷ y ∷ xs) c = ap (λ v. x ∷ v) (drop_last-append (y ∷ xs) c)

abbrev bytes_buffer : Buffer Bytes
bytes_buffer = record {
  empty = [];
  size = length;
  append_raw = λ xs n b. b ++ take n xs;
  appenduc = λ c b. b ++ c ∷ [];
  replace = set_at;
  delete_end = drop_last;
}

abbrev bytes_laws : BufferLaws bytes_buffer
bytes_laws = record {
  contents = λ b. b;
  contents-empty = refl;
  length-contents = λ b. refl;
  contents-append_raw = λ xs b. ap (λ v. b ++ v) (take-length xs);
  contents-appenduc = λ c b h. refl;
  contents-replace = λ i c b h k. refl;
  contents-delete_end = λ xs c b e. ap drop_last e ∙ drop_last-append xs c;
}

-- the bytes from the address 0 on, and zeros behind them
abbrev memory : Bytes → Memory
memory [] i = 0
memory (x ∷ xs) zero = x
memory (x ∷ xs) (suc i) = memory xs i

abbrev a_bc : Bytes
a_bc = encode ((97 ∷ []) ∷ (98 ∷ 99 ∷ []) ∷ [])

-- "a.bc", after a pointer
read_name :
    get_label bytes_buffer (memory (a_bc ++ 192 ∷ 0 ∷ [])) 8 4 6 []
    ≡ parsed (2, 97 ∷ 46 ∷ 98 ∷ 99 ∷ [])
unfolding get_label
read_name = refl

-- The text of a label, and its parts: only what the names below need.
abbrev ascii : String → Bytes
ascii s = if str_eq s "tv" then 116 ∷ 118 ∷ [] else 120 ∷ []

abbrev one_part : String → List String
one_part s = s ∷ []

abbrev first_part : List String → String
first_part [] = ""
first_part (s ∷ ss) = s

-- A label that was written before is written as a pointer.
write_again :
    (write_elems bytes_buffer ascii first_part ("tv" ∷ []) "tv" (("tv", 12) ∷ []) []).0.0
    ≡ 192 ∷ 12 ∷ []
unfolding write_elems
write_again = refl

get_label-encode_example :
    (name : Bytes) × (get_label bytes_buffer (memory a_bc) 6 3 0 [] ≡ parsed (6, name))
    × (name ≡ 97 ∷ 46 ∷ 98 ∷ 99 ∷ [])
get_label-encode_example =
    get_label-encode bytes_laws (97 ∷ []) ((98 ∷ 99 ∷ []) ∷ []) (memory a_bc) 6 3 0 []
      (
        (omega arith, omega arith, (omega arith, tt)),
        ((omega arith, omega arith, (omega arith, (omega arith, tt))), tt),
      )
      (refl, (refl, (refl, (refl, (refl, (refl, tt)))))) (omega arith) (omega arith) (omega arith)

get_label-self_pointer_example :
    get_label bytes_buffer (memory (192 ∷ 0 ∷ [])) 2 100 0 [] ≡ out_of_fuel
get_label-self_pointer_example =
    get_label-self_pointer bytes_buffer (memory (192 ∷ 0 ∷ [])) 2 100 0 [] (refl, (refl, tt))
      (omega arith) (omega arith) (omega arith)

get_label-total_example : (r : ℕ × Bytes) × (get_label bytes_buffer (λ i. 1) 6 7 0 [] ≡ parsed r)
get_label-total_example =
    get_label-total bytes_buffer (λ i. 1) 6 7 0 [] (λ j h. omega arith) (omega arith) (omega arith)

-- A query that is announced and cut off.
abbrev cut_off : Memory
cut_off i = if i == 5 then 1 else 0

read_incoming-total_example :
    (incoming : Incoming bytes_buffer) × (read_incoming bytes_buffer (λ xs. xs) cut_off 12 13
      ≡ parsed incoming)
    × (length incoming.queries ≡ (read_header cut_off 12 0).query_num)
    × (length incoming.records
        ≡ (read_header cut_off 12 0).answer_num
          + ((read_header cut_off 12 0).auth_num + (read_header cut_off 12 0).add_num))
    × All (λ r. is_some r.data_ ≡ not (r.data_length == 0)) incoming.records
read_incoming-total_example =
    read_incoming-total bytes_buffer (λ xs. xs) cut_off 12 13 (λ j h. ground arith) (omega arith)
      (omega arith)

abbrev answer_header : Header
answer_header = record {
  id = 0;
  flag = 33792;
  query_num = 1;
  answer_num = 1;
  auth_num = 0;
  add_num = 3;
}

abbrev header_memory : Memory
header_memory = memory (0 ∷ 0 ∷ 132 ∷ 0 ∷ 0 ∷ 1 ∷ 0 ∷ 1 ∷ 0 ∷ 0 ∷ 0 ∷ 3 ∷ [])

answer_header-Holds : Holds (set_header bytes_buffer 0 33792 1 1 0 3 []) header_memory 0
unfolding set_header
answer_header-Holds = (
  refl,
  (refl, (refl, (refl, (refl, (refl, (refl, (refl, (refl, (refl, (refl, (refl, tt))))))))))),
)

read_header-set_header_example : read_header header_memory 12 0 ≡ answer_header
read_header-set_header_example =
    read_header-set_header bytes_laws answer_header [] header_memory 12
      (omega arith, omega arith, omega arith, omega arith, omega arith, omega arith) refl
      answer_header-Holds (omega arith) (omega arith)

abbrev tv : Subject
tv = record { label = "tv"; type_ = 16; cls = 1; ttl = 10 }

add_additional_txt_lem_example :
    (add_additional_txt bytes_buffer ascii first_part one_part tv ("tv" ∷ "x" ∷ []) ([], [])).0
    ≡ (add_record bytes_buffer ascii first_part one_part tv ([], [])).0
      ++ (0 ∷ 5 ∷ 2 ∷ 116 ∷ 118 ∷ 1 ∷ 120 ∷ [])
add_additional_txt_lem_example =
    add_additional_txt_lem bytes_laws ascii first_part one_part tv ("tv" ∷ "x" ∷ []) [] []
      (omega arith, (omega arith, tt))
