-- ===== src/Json.antt =====
-- JSON values as the program exchanges them with nlohmann::json, and the accesses that it makes:
-- `contains(key)`, `operator[]`, `is_string`, `is_number_integer` and `get`, as that library
-- documents them. Its parser and its printer are parameters of the handlers.
use project_tracker.Base.{
  ◌-◌, ◌%◌, ◌^◌, Bool, Option, none, some, ltb, if◌then◌else◌, Bytes, bytes_eq, ℤ, pos, negsuc,
}

mutual
  pub data Json : Type 0 where
    null : Json
    boolean : Bool → Json
    integer : ℤ → Json
    real : (printed : Bytes) → Json
    string : Bytes → Json
    array : Items → Json
    object : Fields → Json

  pub data Items : Type 0 where
    nil : Items
    cons : Json → Items → Items

  pub data Fields : Type 0 where
    end : Fields
    field : Bytes → Json → Fields → Fields

unfoldable pub find_field : Bytes → Fields → Option Json
find_field key end = none
find_field key (field k v fs) = if bytes_eq k key then some v else find_field key fs

-- `contains(key)` with `operator[]`; a value that is no object contains nothing.
unfoldable pub at : Bytes → Json → Option Json
unfolding find_field
at key (object fs) = find_field key fs
at key null = none
at key (boolean b) = none
at key (integer n) = none
at key (real p) = none
at key (string s) = none
at key (array xs) = none

abbrev pub as_string : Option Json → Option Bytes
as_string none = none
as_string (some (string s)) = some s
as_string (some v) = none

-- `j.contains(key) && j[key].is_string()`, then `j[key].get<std::string>()`
unfoldable pub string_at : Bytes → Json → Option Bytes
unfolding at
string_at key j = as_string (at key j)

-- The conversion of a stored integer to `int`, which keeps the low 32 bits.
unfoldable pub to_int : ℤ → ℤ
to_int (pos n) = let m = n % 2 ^ 32 in if ltb m (2 ^ 31) then pos m else negsuc (2 ^ 32 - 1 - m)
to_int (negsuc n) = let m = n % 2 ^ 32 in if ltb m (2 ^ 31) then negsuc m else pos (2 ^ 32 - 1 - m)

abbrev pub as_int : Option Json → Option ℤ
as_int none = none
as_int (some (integer n)) = some (to_int n)
as_int (some v) = none

-- `j.contains(key) && j[key].is_number_integer()`, then `j[key].get<int>()`
unfoldable pub int_at : Bytes → Json → Option ℤ
unfolding at
int_at key j = as_int (at key j)
