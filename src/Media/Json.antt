-- ===== src/Media/Json.antt =====
-- The values of JSON, for a type of floating-point numbers, and what rapidjson's Writer is told for them.
use flingd_cc.Base.{String, Bool, List, ◌∷◌, str_eq, if◌then◌else◌, Option, none, some}
use flingd_cc.Base.Int.{ℤ}

mutual
  pub data Json (D : Type 0) : Type 0 where
    null : Json D
    boolean : Bool → Json D
    integer : ℤ → Json D
    double : D → Json D
    texts : String → Json D
    array : Items D → Json D
    object : Members D → Json D

  pub data Items (D : Type 0) : Type 0 where
    done : Items D
    item : Json D → Items D → Items D

  pub data Members (D : Type 0) : Type 0 where
    end : Members D
    member : String → Json D → Members D → Members D

-- the calls of a Writer
pub data Token (D : Type 0) : Type 0 where
  start_object : Token D
  end_object : Token D
  start_array : Token D
  end_array : Token D
  a_null : Token D
  a_string : String → Token D
  an_int : ℤ → Token D
  a_double : D → Token D
  a_bool : Bool → Token D

module _ {D : Type 0} where
  -- the calls for a value, and then `rest`
  unfoldable mutual
    pub render : Json D → List (Token D) → List (Token D)
    render null rest = a_null ∷ rest
    render (boolean b) rest = a_bool b ∷ rest
    render (integer n) rest = an_int n ∷ rest
    render (double x) rest = a_double x ∷ rest
    render (texts t) rest = a_string t ∷ rest
    render (array is) rest = start_array ∷ render_items is (end_array ∷ rest)
    render (object ms) rest = start_object ∷ render_members ms (end_object ∷ rest)

    pub render_items : Items D → List (Token D) → List (Token D)
    render_items done rest = rest
    render_items (item v is) rest = render v (render_items is rest)

    pub render_members : Members D → List (Token D) → List (Token D)
    render_members end rest = rest
    render_members (member k v ms) rest = a_string k ∷ render v (render_members ms rest)

  -- the value of the first member with a name
  unfoldable pub find_member : String → Members D → Option (Json D)
  find_member k end = none
  find_member k (member j v ms) = if str_eq j k then some v else find_member k ms
