-- ===== src/Net/Interfaces.antt =====
-- flint/src/net/NetworkManager.cpp. The interfaces are the list that getifaddrs gives, or none where it fails;
-- `iequals` is boost's, and `print_number` writes a number.
use Prim.Native.String.{◌++◌ as ◌&◌}
use flingd_cc.Base.{ℕ, ◌/◌, ◌%◌, String, Bool, Option, none, some, List, [], ◌∷◌, if◌then◌else◌}

-- the address of an interface, in the order of the host: of AF_INET, or of another family
pub data Address : Type 0 where
  internet : ℕ → Address
  other_family : Address

-- an entry, whose pointer to an address may be NULL
pub record Interface : Type 0 where
  pub name : String
  pub address : Option Address
  pub is_up : Bool

-- What a search gives; `null_used` is where the pointer to an address is NULL.
pub data Found : Type 0 where
  found : String → Found
  null_used : Found

module _ (iequals : String → String → Bool) (print_number : ℕ → String) where
  -- the four bytes of an address, with points between them
  unfoldable pub dotted : ℕ → String
  dotted a =
      print_number (a / 16777216 % 256)
      & ("."
          & (print_number (a / 65536 % 256)
              & ("." & (print_number (a / 256 % 256) & ("." & print_number (a % 256))))))

  -- an interface that has the name, and else the search goes on
  unfoldable pub visit : Option Address → Bool → Found → Found
  unfolding dotted
  visit none up rest = null_used
  visit (some (internet a)) up rest = if up then found (dotted a) else rest
  visit (some other_family) up rest = rest

  -- the loop over the interfaces
  unfoldable pub search_name : String → List Interface → Found
  unfolding visit
  search_name name [] = found ""
  search_name name (i ∷ is) =
      let rest = search_name name is in
      if iequals name i.name then visit i.address i.is_up rest else rest

  -- NetworkManager::getIpAddrByName
  unfoldable pub get_ip_addr_by_name : String → Option (List Interface) → Found
  unfolding search_name
  get_ip_addr_by_name name none = found ""
  get_ip_addr_by_name name (some is) = search_name name is

  -- the next name where the one before has no address
  unfoldable pub try_next : Found → Found → Found
  try_next null_used next = null_used
  try_next (found ip) next = if iequals ip "" then next else found ip

  unfoldable pub first_address : List String → Option (List Interface) → Found
  unfolding get_ip_addr_by_name try_next
  first_address [] is = found ""
  first_address (name ∷ names) is = try_next (get_ip_addr_by_name name is) (first_address names is)

  -- NetworkManager::getIpAddr on Linux and on Darwin
  unfoldable pub get_ip_addr_linux : Option (List Interface) → Found
  unfolding first_address
  get_ip_addr_linux is = first_address ("wlan0" ∷ "eth0" ∷ []) is

  unfoldable pub get_ip_addr_darwin : Option (List Interface) → Found
  unfolding first_address
  get_ip_addr_darwin is = first_address ("en0" ∷ "en1" ∷ "en2" ∷ "en3" ∷ "en4" ∷ []) is
