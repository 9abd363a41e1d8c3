-- ===== src/Json/Writer.antt =====
-- writeValue and json::canonicalize of json.cpp.
use showmesh_fpp_plugin.Base.{
  ℕ, Bool, true, false, if◌then◌else◌, [], ◌∷◌, ◌++◌, Option, none, some, Bytes,
}
use showmesh_fpp_plugin.Json.{
  Value, Values, Members, null_value, bool_value, number_value, string_value, array_value,
  object_value, no_values, value_then, no_members, member_then, Parsed, ok, failed, out_of_fuel,
}
use showmesh_fpp_plugin.Json.Text.{less_utf16, escaped}
use showmesh_fpp_plugin.Json.Number.{NumberText, format_number}
use showmesh_fpp_plugin.Json.Parser.{parse}

module _ {Num : Type 0} where
  -- std::sort by the names. Members of one name, which the parser refuses, keep their order here.
  unfoldable pub insert_member : Bytes → Value Num → Members Num → Members Num
  insert_member name v no_members = member_then name v no_members
  insert_member name v (member_then n w ms) =
      let later = insert_member name v ms in
      if less_utf16 n name then member_then n w later else member_then name v (member_then n w ms)

  unfoldable pub sort_members : Members Num → Members Num
  sort_members no_members = no_members
  sort_members (member_then name v ms) = insert_member name v (sort_members ms)

  -- The members of every object in that order.
  unfoldable mutual
    pub sort_value : Value Num → Value Num
    sort_value null_value = null_value
    sort_value (bool_value b) = bool_value b
    sort_value (number_value n) = number_value n
    sort_value (string_value s) = string_value s
    sort_value (array_value vs) = array_value (sort_values vs)
    sort_value (object_value ms) = object_value (sort_members (sort_inner ms))

    pub sort_values : Values Num → Values Num
    sort_values no_values = no_values
    sort_values (value_then v vs) = value_then (sort_value v) (sort_values vs)

    pub sort_inner : Members Num → Members Num
    sort_inner no_members = no_members
    sort_inner (member_then name v ms) = member_then name (sort_value v) (sort_inner ms)

-- Text that a failure leaves out.
abbrev pub join : Option Bytes → Option Bytes → Option Bytes
join (some a) (some b) = some (a ++ b)
join (some a) none = none
join none o = none

abbrev pub enclose : ℕ → ℕ → Option Bytes → Option Bytes
enclose open_byte close_byte none = none
enclose open_byte close_byte (some text) = some (open_byte ∷ (text ++ (close_byte ∷ [])))

module _ {Num : Type 0} (t : NumberText Num) where
  -- A value whose objects are in order already; `none` is a number that cannot be written. `first` is
  -- the loops' flag of that name.
  unfoldable mutual
    pub write_sorted : Value Num → Option Bytes
    write_sorted null_value = some (110 ∷ 117 ∷ 108 ∷ 108 ∷ [])
    write_sorted (bool_value true) = some (116 ∷ 114 ∷ 117 ∷ 101 ∷ [])
    write_sorted (bool_value false) = some (102 ∷ 97 ∷ 108 ∷ 115 ∷ 101 ∷ [])
    write_sorted (number_value n) = format_number t n
    write_sorted (string_value s) = some (escaped s)
    write_sorted (array_value vs) = enclose 91 93 (write_items true vs)
    write_sorted (object_value ms) = enclose 123 125 (write_members true ms)

    pub write_items : Bool → Values Num → Option Bytes
    write_items first no_values = some []
    write_items first (value_then v vs) =
        join (some (if first then [] else 44 ∷ [])) (join (write_sorted v) (write_items false vs))

    pub write_members : Bool → Members Num → Option Bytes
    write_members first no_members = some []
    write_members first (member_then name v ms) =
        join (some (if first then escaped name ++ (58 ∷ []) else 44 ∷ (escaped name ++ (58 ∷ []))))
          (join (write_sorted v) (write_members false ms))

  -- The source sorts each object as it comes to it, which is the same text.
  unfoldable pub canonicalize : Value Num → Option Bytes
  canonicalize v = write_sorted (sort_value v)

  -- json::canonicalize of a text.
  unfoldable pub canonical_of : Parsed (Value Num) → Option Bytes
  canonical_of (ok v rest) = canonicalize v
  canonical_of (failed problem rest) = none
  canonical_of out_of_fuel = none

  unfoldable pub canonicalize_text : Bytes → Option Bytes
  canonicalize_text text = canonical_of (parse t text)
