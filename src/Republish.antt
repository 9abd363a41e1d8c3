-- ===== src/Republish.antt =====
-- native/src/definition_republish.cpp: the coordinator's order to publish the playlist definitions
-- again. The body of a response is kept here as what it says, before json.cpp renders it. The three
-- pointers of the route are not null.
pub mod Repeat
use showmesh_fpp_plugin.Base.{
  ℕ, ltb, ℤ, pos, eqb_ℤ, Bool, true, false, not, if◌then◌else◌, List, [], ◌∷◌, length, null, Option,
  none, some, Bytes, eq_bytes,
}
use showmesh_fpp_plugin.Json.{
  Value, Members, number_value, string_value, object_value, no_members, member_then, member_of,
  Parsed, ok, failed, out_of_fuel,
}
use showmesh_fpp_plugin.Json.Number.{NumberText}
use showmesh_fpp_plugin.Json.Parser.{parse}

abbrev pub body_limit_bytes : ℕ
body_limit_bytes = 4096

abbrev pub republish_schema_version : ℤ
republish_schema_version = pos 1

pub record DefinitionHoldings : Type 0 where
  pub cleared : ℕ
  pub held : ℕ
  pub refused_terminally : ℕ

-- The two calls of DefinitionPublisher.
pub record DefinitionPublisher (P : Type 0) : Type 0 where
  pub definition_holdings : P → DefinitionHoldings
  pub clear_held_definitions : P → DefinitionHoldings × P

pub data Refusal : Type 0 where
  body_too_large not_json not_an_object : Refusal
  version_required version_not_a_number version_not_whole : Refusal
  unsupported_version : ℤ → Refusal
  request_id_not_a_string request_id_empty : Refusal

-- What the body says: a refusal with status 400, or with status 200 whether the request was applied,
-- the holdings and whether a sweep is pending.
pub data DefinitionRepublishResponse : Type 0 where
  refused : Refusal → DefinitionRepublishResponse
  rendered : Bool → DefinitionHoldings → Bool → DefinitionRepublishResponse

-- The publisher, the owed sweep, and the id last applied.
pub record RouteState (P : Type 0) : Type 0 where
  pub publisher : P
  pub sweep_pending : Bool
  pub last_request_id : Bytes

pub data Checked (A : Type 0) : Type 0 where
  refuse : Refusal → Checked A
  accept : A → Checked A

-- "schemaVersion" and "requestId".
abbrev pub schema_version_name : Bytes
schema_version_name = 115 ∷ 99 ∷ 104 ∷ 101 ∷ 109 ∷ 97 ∷ 86 ∷ 101 ∷ 114 ∷ 115 ∷ 105 ∷ 111 ∷ 110 ∷ []

abbrev pub request_id_name : Bytes
request_id_name = 114 ∷ 101 ∷ 113 ∷ 117 ∷ 101 ∷ 115 ∷ 116 ∷ 73 ∷ 100 ∷ []

-- What the route does with the result of json::parse: its message is not looked at.
abbrev pub value_of : {Num : Type 0} → Parsed (Value Num) → Option (Value Num)
value_of (ok value rest) = some value
value_of (failed problem rest) = none
value_of out_of_fuel = none

-- The C library's numbers, and on a double the test for a whole number with the conversion.
module _ {Num : Type 0} (t : NumberText Num) (as_whole : Num → Option ℤ) where
  unfoldable pub whole_version : Option ℤ → Checked ℤ
  whole_version none = refuse version_not_whole
  whole_version (some version) = accept version

  unfoldable pub whole_number_member : Option (Value Num) → Checked ℤ
  whole_number_member none = refuse version_required
  whole_number_member (some (number_value n)) = whole_version (as_whole n)
  whole_number_member (some value) = refuse version_not_a_number

  unfoldable pub request_id_of : Option (Value Num) → Checked Bytes
  request_id_of (some (string_value id)) = if null id then refuse request_id_empty else accept id
  request_id_of value = refuse request_id_not_a_string

  unfoldable pub check_version : Members Num → Checked ℤ → Checked Bytes
  check_version others (refuse reason) = refuse reason
  check_version others (accept version) =
      if eqb_ℤ version republish_schema_version
      then request_id_of (member_of others request_id_name)
      else refuse (unsupported_version version)

  unfoldable pub check_value : Option (Value Num) → Checked Bytes
  check_value none = refuse not_json
  check_value (some (object_value others)) =
      check_version others (whole_number_member (member_of others schema_version_name))
  check_value (some value) = refuse not_an_object

  -- The request's id, once the whole body has been validated.
  unfoldable pub check_request : Bytes → Checked Bytes
  check_request body =
      if ltb body_limit_bytes (length body)
      then refuse body_too_large
      else check_value (value_of (parse t body))

  module _ {P : Type 0} (publisher : DefinitionPublisher P) where
    unfoldable pub answer :
        RouteState P → Checked Bytes → DefinitionRepublishResponse × RouteState P
    answer route (refuse reason) = (refused reason, route)
    answer route (accept id) =
        let cleared = publisher.clear_held_definitions route.publisher in
        if eq_bytes route.last_request_id id
        then (
          rendered false (record (publisher.definition_holdings route.publisher) { cleared = 0 })
              route.sweep_pending,
          route,
        )
        else (
          rendered true cleared.0 true,
          record { publisher = cleared.1; sweep_pending = true; last_request_id = id },
        )

    unfoldable pub apply_definition_republish_request :
        RouteState P → Bytes → DefinitionRepublishResponse × RouteState P
    apply_definition_republish_request route body = answer route (check_request body)
