-- ===== src/Mdns/Server.antt =====
-- flint/src/discovery/mdns/MDNSServer.cpp: what is sent back for a packet. The names of the device
-- and its address come from Platform and NetworkManager. No exception of third-party code is
-- modelled.
use flingd_cc.Base.{ℕ, ◌%◌, String, Bool, Option, none, some, List, [], ◌∷◌, if◌then◌else◌}
use Prim.Native.String.{◌++◌ as ◌&◌}
use flingd_cc.Base.Int.{ℤ}
use flingd_cc.Mdns.Buffer.{Buffer, Bytes}
use flingd_cc.Mdns.Reader.{Memory, Parse, parsed, ◌>>=◌}
use flingd_cc.Mdns.Message.{is_query, read_incoming, compare_protocol}
use flingd_cc.Mdns.Writer.{Cache}
use flingd_cc.Mdns.Composer.{
  Subject, set_header, add_query_ptr, add_answer_ptr, add_additional_srv, add_additional_txt,
  add_additional_addr,
}

-- what the answer is made from: MDNSServer::protocol_, and what the platform says
pub record Names : Type 0 where
  pub protocol : String
  pub device_name : String
  pub model_name : String
  pub ip : String

-- FLAG_RESPONSE | FLAG_AUTHORITATIVE
abbrev pub answer_flags : ℕ
answer_flags = 33792

-- CLASS_IN and DEFAULT_TTL
abbrev about : String → ℕ → Subject
about label type_ = record { label = label; type_ = type_; cls = 1; ttl = 10 }

module _ {B : Type 0} (buffer : Buffer B) (c_str : String → Bytes) where
  module _ (join : List String → String) (split : String → List String) where
    module _ (to_int : String → Option ℤ) where
      -- the answer of MDNSServer::parseMessage
      unfoldable pub compose_response : Names → B
      unfolding set_header add_query_ptr add_answer_ptr add_additional_srv add_additional_txt
          add_additional_addr
      compose_response names =
          let service = names.device_name & "." & names.protocol in
          let host = names.device_name & names.ip & ".local" in
          let w0 : B × Cache = (set_header buffer 0 answer_flags 1 1 0 3 buffer.empty, []) in
          let w1 = add_query_ptr buffer c_str join split names.protocol 12 32769 w0 in
          let w2 = add_answer_ptr buffer c_str join split (about names.protocol 12) service w1 in
          let w3 = add_additional_srv buffer c_str join split (about service 33) host w2 in
          let w4 =
            add_additional_txt buffer c_str join split (about service 16)
              (("id=" & names.device_name)
                ∷ "ve=02"
                ∷ ("md=" & names.model_name)
                ∷ "ic=/setup/icon.png"
                ∷ "ca=5"
                ∷ ("fn=" & names.device_name)
                ∷ "st=0"
                ∷ [])
              w3 in
          let w5 = add_additional_addr buffer c_str join split to_int (about host 1) names.ip w4 in
          w5.0

      module _ (inet_ntop : Bytes → Bytes) (iequals : B → String → Bool) where
        -- MDNSServer::parseMessage, with at most `n` rounds for each label that it reads
        unfoldable pub parse_message : ℕ → Memory → ℕ → Names → Parse (Option B)
        unfolding read_incoming is_query compare_protocol compose_response
        parse_message n message len names = do
          incoming ← read_incoming buffer inet_ntop message (len % 65536) n
          let asked = compare_protocol buffer iequals names.protocol incoming.queries
          if is_query incoming.header
              then (if asked then parsed (some (compose_response names)) else parsed none)
              else parsed none
