-- ===== src/Url.antt =====
-- flint/src/http/UrlParser.cpp: the parameters of a query. The split of a text at a separator is a
-- parameter, and so is the regular expression of a URL.
use flingd_cc.Base.{
  ◌≡◌, refl, ap, ◌∙◌, String, List, [], ◌∷◌, Option, none, some, arith, eq_iff, str_eq,
  if◌then◌else◌,
}
use flingd_cc.StdMap.{find, insert, find-insert}

unfoldable pub add_pair : List String → List (String × String) → List (String × String)
unfolding insert
add_pair [] out = out
add_pair (k ∷ []) out = out
add_pair (k ∷ v ∷ []) out = insert k v out
add_pair (k ∷ v ∷ t ∷ ts) out = out

module _ (split : String → String → List String) where
  unfoldable pub add_pairs : List String → List (String × String) → List (String × String)
  unfolding add_pair
  add_pairs [] out = out
  add_pairs (kv ∷ kvs) out = add_pairs kvs (add_pair (split kv "=") out)

  -- UrlParser::parse_query, into a map that is empty
  unfoldable pub parse_query : String → List (String × String)
  unfolding add_pairs
  parse_query query = add_pairs (split query "&") []

-- UrlParser::get_value
unfoldable pub get_value : List (String × String) → String → String
get_value [] key = ""
get_value ((k, v) ∷ kvs) key = if str_eq key k then v else get_value kvs key

-- The value of the first parameter `key=value`.
abbrev value_of : String → List String → Option String → Option String
value_of key (k ∷ v ∷ []) rest = if str_eq k key then some v else rest
value_of key kv rest = rest

abbrev or_empty : Option String → String
or_empty none = ""
or_empty (some v) = v

abbrev or_else : Option String → Option String → Option String
or_else none o = o
or_else (some v) o = some v

get_value-find :
    (m : List (String × String)) (key : String) → get_value m key ≡ or_empty (find key m)
unfolding get_value find
get_value-find [] key = refl
get_value-find ((k, v) ∷ m) key = ground (arith, eq_iff key k, eq_iff k key, get_value-find m key)

module _ (split : String → String → List String) where
  abbrev pub first_value : String → List String → Option String
  first_value key [] = none
  first_value key (kv ∷ kvs) = value_of key (split kv "=") (first_value key kvs)

  pair_lem :
      (key : String) (kv : List String) (out : List (String × String)) (rest : Option String)
      → or_else (find key (add_pair kv out)) rest ≡ or_else (find key out) (value_of key kv rest)
  unfolding add_pair
  pair_lem key [] out rest = refl
  pair_lem key (k ∷ []) out rest = refl
  pair_lem key (k ∷ v ∷ []) out rest = ground (arith, find-insert k key v out, eq_iff k key)
  pair_lem key (k ∷ v ∷ t ∷ ts) out rest = refl

  pairs_lem :
      (key : String) (kvs : List String) (out : List (String × String))
      → find key (add_pairs split kvs out) ≡ or_else (find key out) (first_value key kvs)
  unfolding add_pairs
  pairs_lem key [] out = ground arith
  pairs_lem key (kv ∷ kvs) out =
      pairs_lem key kvs (add_pair (split kv "=") out)
      ∙ pair_lem key (split kv "=") out (first_value key kvs)

  -- the value of a key in a query: that of its first parameter of the form key=value, or the empty text
  pub get_value_lem :
      (query key : String)
      → get_value (parse_query split query) key ≡ or_empty (first_value key (split query "&"))
  unfolding parse_query find
  get_value_lem query key =
      get_value-find (parse_query split query) key
      ∙ ap or_empty (pairs_lem key (split query "&") [])
