-- ===== src/Ssdp/Tests.antt =====
-- A search at a concrete server; the functions of boost are given for its four lines.
use flingd_cc.Base.{String, Bool, true, false, List, [], ◌∷◌, str_eq, ◌≡◌, refl, if◌then◌else◌}
use flingd_cc.Ssdp.Server.{new_server, success, client, handle_packet, join_message}
use flingd_cc.Ssdp.Searches.{search_answered}

abbrev split_at : (separator text : String) → List String
split_at separator text =
    if str_eq separator "\r\n"
    then "M-SEARCH" ∷ "MAN:\"ssdp:discover\"" ∷ "MX:3"
      ∷ "ST:urn:dial-multiscreen-org:service:dial:1" ∷ []
    else if str_eq text "MX:3"
    then "MX" ∷ "3" ∷ []
    else if str_eq text "MAN:\"ssdp:discover\""
    then "MAN" ∷ "\"ssdp" ∷ "discover\"" ∷ []
    else "ST" ∷ "urn" ∷ "dial-multiscreen-org" ∷ "service" ∷ "dial" ∷ "1" ∷ []

abbrev same : String → String
same text = text

abbrev unquoted : String → String
unquoted text = if str_eq text "\"ssdp:discover\"" then "ssdp:discover" else text

abbrev joined : (separator : String) → List String → String
joined separator parts = elim parts [
  | [] ↦ ""
  | part ∷ rest ↦
      if str_eq part "\"ssdp"
      then "\"ssdp:discover\""
      else if str_eq part "urn"
      then "urn:dial-multiscreen-org:service:dial:1"
      else part
]

abbrev starts : String → String → Bool
starts text start = true

search_answered_example :
    handle_packet split_at same unquoted joined starts str_eq success "10.0.0.2" "now" "M-SEARCH"
      (new_server "u")
    ≡ record (new_server "u") {
      waits_packet = true;
      requests = (client, join_message (new_server "u").usn "10.0.0.2" "now" false) ∷ [];
    }
unfolding new_server
search_answered_example =
    search_answered split_at same unquoted joined starts str_eq "10.0.0.2" "now" "M-SEARCH"
      (new_server "u") refl refl
