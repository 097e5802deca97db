-- ===== src/Ssdp/Server.antt =====
-- flint/src/discovery/ssdp/SSDPServer.cpp, but for its sockets. The functions of boost on texts are
-- parameters, and so are the address, as the NetworkManager gives it, and the date.
use Prim.Native.String.{◌++◌ as ◌&◌}
use flingd_cc.Base.{
  String, Bool, true, false, ◌&&◌, ◌||◌, Option, none, some, List, [], ◌∷◌, str_eq, if◌then◌else◌,
}
use flingd_cc.StdMap.{find, insert}

-- to whom a packet is sent: the sender of the last packet that came, or the group
pub data Target : Type 0 where
  client group : Target

-- how an operation of the socket or of the timer ends
pub data Ending : Type 0 where
  success message_size failure : Ending

-- whether the server waits for a packet and for its timer; `requests` is what was passed to
-- async_send_to, newest first. Only the address of the text is passed, and onSearch has its text in a
-- local variable: what leaves the device later is not modelled.
pub record Server : Type 0 where
  pub usn : String
  pub waits_packet : Bool
  pub waits_timer : Bool
  pub requests : List (Target × String)

abbrev pub search_target : String
search_target = "urn:dial-multiscreen-org:service:dial:1"

-- SSDPServer::SSDPServer
unfoldable pub new_server : String → Server
new_server uuid = record {
  usn = "uuid:" & (uuid & ("::" & search_target));
  waits_packet = false;
  waits_timer = false;
  requests = [];
}

unfoldable pub join_location : String → String
join_location ip = "http://" & (ip & ":9431/ssdp/device-desc.xml")

-- the first lines, which are different in a notice and in an answer
unfoldable pub start_lines : Bool → String
start_lines true =
    "NOTIFY * HTTP/1.1\r\nHOST: 239.255.255.250:1900\r\nNT: "
    & (search_target & "\r\nNTS: ssdp:alive\r\n")
start_lines false = "HTTP/1.1 200 OK\r\nST: " & (search_target & "\r\n")

unfoldable pub join_message : (usn ip date : String) → Bool → String
unfolding start_lines join_location
join_message usn ip date advertise =
    start_lines advertise
    & ("USN: "
        & (usn
            & ("\r\nLOCATION: "
                & (join_location ip
                    & ("\r\nCACHE-CONTROL: max-age=1800\r\nSERVER: Linux/3.8.13+, UPnP/1.0, Portable SDK for UPnP devices/1.6.18\r\nDATE: "
                        & (date
                            & "\r\nBOOTID.UPNP.ORG: 9\r\nCONFIGID.UPNP.ORG: 1\r\nOPT: \"http://schemas.upnp.org/upnp/1/0/\"; ns=01\r\nX-USER-AGENT: redsonic\r\nEXT:\r\n\r\n"))))))

-- wait_packet and advertise
abbrev pub wait_packet : Server → Server
wait_packet s = record s { waits_packet = true }

abbrev pub advertise : Server → Server
advertise s = record s { waits_timer = true }

-- async_send_to
abbrev pub send_to : Target → String → Server → Server
send_to t m s = record s { requests = (t, m) ∷ s.requests }

unfoldable pub on_start : Server → Server
on_start s = wait_packet (advertise s)

-- whether a search with these values is for this device
unfoldable pub is_asked : (man mx st : Option String) → Bool
is_asked (some man) (some mx) (some st) =
    str_eq "ssdp:all" man || (str_eq "ssdp:discover" man && str_eq search_target st)
is_asked man mx st = false

module _ (split : (separator text : String) → List String)
    (trim_spaces trim_quotes : String → String) (join : (separator : String) → List String → String)
    (starts_with iequals : String → String → Bool) where
  -- the parts of a line, as name and value
  unfoldable pub header_of : List String → Option (String × String)
  header_of (key ∷ part ∷ parts) = some (key, trim_quotes (join ":" (part ∷ parts)))
  header_of parts = none

  unfoldable pub add_header :
      Option (String × String) → List (String × String) → List (String × String)
  unfolding insert
  add_header none vars = vars
  add_header (some (key, value)) vars = insert key value vars

  abbrev pub header_in : String → Option (String × String)
  header_in line = if str_eq line "" then none else header_of (split ":" (trim_spaces line))

  -- the loop over the lines
  unfoldable pub read_lines : List String → List (String × String) → List (String × String)
  unfolding header_of add_header
  read_lines [] vars = vars
  read_lines (line ∷ lines) vars = read_lines lines (add_header (header_in line) vars)

  -- All lines but the first, which is the command.
  abbrev pub header_lines : List String → List String
  header_lines [] = []
  header_lines (command ∷ lines) = lines

  unfoldable pub is_search : List (String × String) → Bool
  unfolding find is_asked
  is_search vars = is_asked (find "MAN" vars) (find "MX" vars) (find "ST" vars)

  unfoldable pub on_search : (ip date message : String) → Server → Server
  unfolding read_lines is_search join_message
  on_search ip date message s =
      if is_search (read_lines (header_lines (split "\r\n" message)) [])
      then (if iequals ip "" then s else send_to client (join_message s.usn ip date false) s)
      else s

  unfoldable pub parse_message : (ip date message : String) → Server → Server
  unfolding on_search
  parse_message ip date message s =
      if starts_with message "M-SEARCH" then on_search ip date message s else s

  abbrev pub received : (ip date message : String) → Server → Server
  received ip date message s =
      wait_packet (if str_eq message "" then s else parse_message ip date message s)

  -- handle_packet, once the socket waits no more
  unfoldable pub handle_packet : Ending → (ip date message : String) → Server → Server
  unfolding parse_message
  handle_packet success ip date message s =
      received ip date message (record s { waits_packet = false })
  handle_packet message_size ip date message s =
      received ip date message (record s { waits_packet = false })
  handle_packet failure ip date message s = record s { waits_packet = false }

  -- handle_advertise, once the timer waits no more
  unfoldable pub handle_advertise : Ending → (ip date : String) → Server → Server
  unfolding join_message
  handle_advertise success ip date s =
      let t = record s { waits_timer = false } in
      advertise (if iequals ip "" then t else send_to group (join_message s.usn ip date true) t)
  handle_advertise e ip date s = record s { waits_timer = false }
