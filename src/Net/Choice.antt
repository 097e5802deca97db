-- ===== src/Net/Choice.antt =====
-- Which address flint/src/net/NetworkManager.cpp finds.
use flingd_cc.Base.{ℕ, String, Bool, true, false, List, [], ◌∷◌, ◌++◌, ◌≡◌, refl, All}
use flingd_cc.Net.Interfaces.{Interface, visit, search_name}

module _ (iequals : String → String → Bool) (print_number : ℕ → String) where
  -- Where the interfaces before it have other names, the first interface with the name decides, and the
  -- search goes on behind it where it is not up or of another family.
  pub search_first :
      (name : String) (before after : List Interface) (i : Interface)
      → All (λ j. iequals name j.name ≡ false) before
      → iequals name i.name ≡ true
      → search_name iequals print_number name (before ++ i ∷ after)
        ≡ visit iequals print_number i.address i.is_up (search_name iequals print_number name after)
  unfolding search_name
  search_first name [] after i p e = rw (e) refl
  search_first name (j ∷ before) after i p e =
      let rest = search_first name before after i p.1 e in rw (p.0) rest
