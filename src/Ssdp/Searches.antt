-- ===== src/Ssdp/Searches.antt =====
-- Which searches flint/src/discovery/ssdp/SSDPServer.cpp answers.
use flingd_cc.Base.{
  String, Bool, true, false, ◌&&◌, not, Option, none, some, List, [], ◌∷◌, ◌≡◌, refl, ◌∙◌, str_eq,
  eq_iff, arith, if◌then◌else◌, Bool-cases, Option-cases, inl, inr, ap,
}
use flingd_cc.StdMap.{find, find-insert}
use flingd_cc.Ssdp.Server.{
  Server, client, success, is_asked, header_in, header_of, add_header, read_lines, header_lines,
  is_search, handle_packet, join_message,
}

abbrev or_else : Option String → Option String → Option String
or_else (some v) o = some v
or_else none o = o

-- the value that a line gives to a name
abbrev pub value_for : String → Option (String × String) → Option String
value_for k none = none
value_for k (some (j, v)) = if str_eq j k then some v else none

-- what a search must give for this device to answer
abbrev pub is_wanted : (man mx st : Option String) → Bool
is_wanted (some man) (some mx) (some st) =
    if str_eq "ssdp:all" man
    then true
    else if str_eq "ssdp:discover" man
    then str_eq "urn:dial-multiscreen-org:service:dial:1" st
    else false
is_wanted none mx st = false
is_wanted (some man) none st = false
is_wanted (some man) (some mx) none = false

is_asked-wanted : (man mx st : Option String) → is_asked man mx st ≡ is_wanted man mx st
unfolding is_asked
is_asked-wanted none mx st = refl
is_asked-wanted (some man) none st = refl
is_asked-wanted (some man) (some mx) none = refl
is_asked-wanted (some man) (some mx) (some st) = ground arith

module _ (split : (separator text : String) → List String)
    (trim_spaces trim_quotes : String → String) (join : (separator : String) → List String → String)
    (starts_with iequals : String → String → Bool) where
  -- what the program reads for a name
  abbrev read_value : String → List String → Option String
  read_value k [] = none
  read_value k (line ∷ lines) =
      or_else (value_for k (header_in split trim_spaces trim_quotes join starts_with iequals line))
        (read_value k lines)

  -- a line cut at its colons: the name is the part before the first one, and the value is the rest
  abbrev pub named : List String → Option (String × String)
  named [] = none
  named (name ∷ []) = none
  named (name ∷ value ∷ values) = some (name, trim_quotes (join ":" (value ∷ values)))

  abbrev pub line_value : String → String → Option String
  line_value k line =
      if str_eq line "" then none else value_for k (named (split ":" (trim_spaces line)))

  -- the value of a name in the first line that has it
  abbrev pub first_value : String → List String → Option String
  first_value k [] = none
  first_value k (line ∷ lines) = or_else (line_value k line) (first_value k lines)

  abbrev pub after_first : List String → List String
  after_first [] = []
  after_first (line ∷ lines) = lines

  header_of-named :
      (k : String) (parts : List String)
      → value_for k (header_of split trim_spaces trim_quotes join starts_with iequals parts)
        ≡ value_for k (named parts)
  unfolding header_of
  header_of-named k [] = refl
  header_of-named k (name ∷ []) = refl
  header_of-named k (name ∷ value ∷ values) = refl

  header_in-line :
      (k line : String)
      → value_for k (header_in split trim_spaces trim_quotes join starts_with iequals line)
        ≡ line_value k line
  header_in-line k line = elim (Bool-cases (str_eq line "")) [
    | inl e ↦ rw (e) refl
    | inr e ↦ rw (e) (header_of-named k (split ":" (trim_spaces line)))
  ]

  read_value-first : (k : String) (lines : List String) → read_value k lines ≡ first_value k lines
  read_value-first k [] = refl
  read_value-first k (line ∷ lines) = rw (header_in-line k line, read_value-first k lines) refl

  header_lines-after :
      (lines : List String)
      → header_lines split trim_spaces trim_quotes join starts_with iequals lines
        ≡ after_first lines
  header_lines-after [] = refl
  header_lines-after (line ∷ lines) = refl

  find-add_header :
      (k : String) (h : Option (String × String)) (m : List (String × String))
      → find k (add_header split trim_spaces trim_quotes join starts_with iequals h m)
        ≡ or_else (find k m) (value_for k h)
  unfolding add_header
  find-add_header k none m = elim (Option-cases (find k m)) [
    | inl e ↦ rw (e) refl
    | inr s ↦ rw (s.1) refl
  ]
  find-add_header k (some (j, v)) m = elim (Bool-cases (str_eq j k)) [
    | inl i ↦
        let same : j ≡ k = ground (arith, eq_iff j k) in
        find-insert j k v m ∙ (elim (Option-cases (find k m)) [
          | inl e ↦ rw (i, same, e) refl
          | inr s ↦ rw (i, same, s.1) refl
        ])
    | inr i ↦
        find-insert j k v m
        ∙ (elim (Option-cases (find k m)) [ inl e ↦ rw (i, e) refl | inr s ↦ rw (i, s.1) refl ])
  ]

  or_else_assoc : (a b c : Option String) → or_else (or_else a b) c ≡ or_else a (or_else b c)
  or_else_assoc none b c = refl
  or_else_assoc (some v) b c = refl

  -- What is read under a name is what it had, or the value in the first line that has it.
  find-read_lines :
      (k : String) (lines : List String) (m : List (String × String))
      → find k (read_lines split trim_spaces trim_quotes join starts_with iequals lines m)
        ≡ or_else (find k m) (read_value k lines)
  unfolding read_lines
  find-read_lines k [] m = elim (Option-cases (find k m)) [
    | inl e ↦ rw (e) refl
    | inr s ↦ rw (s.1) refl
  ]
  find-read_lines k (line ∷ lines) m =
      let h = header_in split trim_spaces trim_quotes join starts_with iequals line in
      find-read_lines k lines
        (add_header split trim_spaces trim_quotes join starts_with iequals h m)
      ∙ ap (λ o. or_else o (read_value k lines)) (find-add_header k h m)
      ∙ or_else_assoc (find k m) (value_for k h) (read_value k lines)

  abbrev lines_of : String → List String
  lines_of message =
      header_lines split trim_spaces trim_quotes join starts_with iequals (split "\r\n" message)

  abbrev answered : Bool → (ip date : String) → Server → Server
  answered b ip date s =
      if b && not (iequals ip "")
      then record s {
        waits_packet = true;
        requests = (client, join_message s.usn ip date false) ∷ s.requests;
      }
      else record s { waits_packet = true }

  search_read :
      (ip date message : String) (s : Server)
      → str_eq message "" ≡ false
      → starts_with message "M-SEARCH" ≡ true
      → handle_packet split trim_spaces trim_quotes join starts_with iequals success ip date message
          s
        ≡ answered
            (is_asked
              (read_value "MAN" (lines_of message))
              (read_value "MX" (lines_of message))
              (read_value "ST" (lines_of message)))
            ip
            date
            s
  unfolding handle_packet is_search find
  search_read ip date message s n m =
      elim (Bool-cases (
        is_asked (read_value "MAN" (lines_of message)) (read_value "MX" (lines_of message))
          (read_value "ST" (lines_of message)))) [
            | inl a ↦ elim (Bool-cases (iequals ip "")) [
              | inl i ↦ simp (n, m, find-read_lines, a, i)
              | inr i ↦ simp (n, m, find-read_lines, a, i)
            ]
            | inr a ↦ simp (n, m, find-read_lines, a)
          ]

  abbrev pub value_in : (message name : String) → Option String
  value_in message name = first_value name (after_first (split "\r\n" message))

  read_value-in :
      (message name : String) → read_value name (lines_of message) ≡ value_in message name
  read_value-in message name =
      ap (read_value name) (header_lines-after (split "\r\n" message))
      ∙ read_value-first name (after_first (split "\r\n" message))

  -- A packet that starts with M-SEARCH and comes without an error has an answer to its sender
  -- requested, with the text for this device, exactly if the address is known and if the lines after
  -- the first give values to MAN, MX and ST, where the first line of each name counts, and either MAN is
  -- ssdp:all, or it is ssdp:discover and ST is the target of this device. Nothing else is requested, and
  -- the server waits again.
  pub search_answered :
      (ip date message : String) (s : Server)
      → str_eq message "" ≡ false
      → starts_with message "M-SEARCH" ≡ true
      → handle_packet split trim_spaces trim_quotes join starts_with iequals success ip date message
          s
        ≡ (if is_wanted (value_in message "MAN") (value_in message "MX") (value_in message "ST")
              && not (iequals ip "")
            then record s {
              waits_packet = true;
              requests = (client, join_message s.usn ip date false) ∷ s.requests;
            }
            else record s { waits_packet = true })
  search_answered ip date message s n m =
      search_read ip date message s n m
      ∙ ap (λ b. answered b ip date s)
          (rw (read_value-in message "MAN", read_value-in message "MX", read_value-in message "ST")
            (is_asked-wanted (value_in message "MAN") (value_in message "MX")
              (value_in message "ST")))
