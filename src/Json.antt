-- ===== src/Json.antt =====
-- native/include/showmesh/json.h and native/src/json.cpp: the JSON tree, its parser and the canonical
-- text. This file has the tree and what a parse ends in.
pub mod Text
pub mod Number
pub mod Parser
pub mod Writer
pub mod Within
pub mod Total
pub mod Strings
pub mod NumberEnd
pub mod Readable
pub mod ReadMembers
pub mod WrittenText
pub mod RoundTrip
pub mod Canonical
pub mod SortedOnce
pub mod Ordered
pub mod OneLine
use showmesh_fpp_plugin.Base.{
  ℕ, Bytes, Bool, ◌==◌, if◌then◌else◌, List, [], ◌∷◌, Option, none, some, eq_bytes,
}

-- json::Value; a list of values, and of members, is a type of its own.
mutual
  pub data Value (Num : Type 0) : Type 0 where
    null_value : Value Num
    bool_value : Bool → Value Num
    number_value : Num → Value Num
    string_value : Bytes → Value Num
    array_value : Values Num → Value Num
    object_value : Members Num → Value Num

  pub data Values (Num : Type 0) : Type 0 where
    no_values : Values Num
    value_then : Value Num → Values Num → Values Num

  pub data Members (Num : Type 0) : Type 0 where
    no_members : Members Num
    member_then : Bytes → Value Num → Members Num → Members Num

-- The messages of the parser, in the order of its functions.
pub data Problem : Type 0 where
  no_numeric_locale trailing_content unrecognized_literal unexpected_end : Problem
  nesting_too_deep unterminated_array expected_comma_or_bracket : Problem
  expected_member_name duplicate_member_name expected_colon unterminated_object
        expected_comma_or_brace :
      Problem
  truncated_escape invalid_escape : Problem
  invalid_byte truncated_sequence invalid_continuation : Problem
  unterminated_string control_character unterminated_escape invalid_low_surrogate : Problem
  unpaired_high_surrogate unpaired_low_surrogate unrecognized_escape : Problem
  truncated_number expected_value truncated_fraction truncated_exponent number_out_of_range :
      Problem

-- A result with the text that is left, a failure with the text that was left where it was noticed,
-- which gives the offset of the message, and the end of the fuel, which the program does not have.
pub data Parsed (A : Type 0) : Type 0 where
  ok : A → Bytes → Parsed A
  failed : Problem → Bytes → Parsed A
  out_of_fuel : Parsed A

abbrev pub bind : {A B : Type 0} → Parsed A → (A → Bytes → Parsed B) → Parsed B
bind (ok a rest) f = f a rest
bind (failed problem rest) f = failed problem rest
bind out_of_fuel f = out_of_fuel

-- `text_[pos_] == c`, within the text.
abbrev pub starts : ℕ → Bytes → Bool
starts b [] = Bool.false
starts b (c ∷ cs) = c == b

abbrev pub tail : Bytes → Bytes
tail [] = []
tail (c ∷ cs) = cs

-- The first member of the name.
unfoldable pub member_of : {Num : Type 0} → Members Num → Bytes → Option (Value Num)
member_of no_members name = none
member_of (member_then key value others) name =
    let rest = member_of others name in if eq_bytes key name then some value else rest
