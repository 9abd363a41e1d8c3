-- ===== src/Payload.antt =====
-- native/src/observation_payload.cpp: the bodies that the worker posts to the coordinator.
pub mod Names
use showmesh_fpp_plugin.Base.{
  ℕ, ℤ, pos, ltb_ℤ, Bool, true, false, ◌||◌, if◌then◌else◌, [], ◌∷◌, null, Option, none, some,
  Bytes,
}
use showmesh_fpp_plugin.Identity.{
  IdentityUnavailable, no_reason, missing_instance_uuid, missing_playlist_name, missing_definition,
  unsupported_definition_shape, negative_position, truncated_identity_field,
  PlaylistEntryObservation, playlist_action_name,
}
use showmesh_fpp_plugin.Json.{
  Value, Members, number_value, string_value, object_value, no_members, member_then, Parsed, ok,
  failed, out_of_fuel, Problem,
}
use showmesh_fpp_plugin.Json.Number.{NumberText}
use showmesh_fpp_plugin.Json.Parser.{parse}
use showmesh_fpp_plugin.Json.Writer.{canonicalize}
use showmesh_fpp_plugin.Payload.Names

-- The error texts.
pub data PayloadProblem : Type 0 where
  not_canonical no_instance_uuid needs_uuid_name_and_hash definition_not_an_object : PayloadProblem
  definition_not_json : Problem → Bytes → PayloadProblem

pub data PayloadResult : Type 0 where
  payload : Bytes → PayloadResult
  no_payload : PayloadProblem → PayloadResult

unfoldable pub observation_unavailable_wire_value : IdentityUnavailable → Bytes
observation_unavailable_wire_value no_reason = []
observation_unavailable_wire_value missing_instance_uuid =
    109 ∷ 105 ∷ 115 ∷ 115 ∷ 105 ∷ 110 ∷ 103 ∷ 95 ∷ 105 ∷ 110 ∷ 115 ∷ 116 ∷ 97 ∷ 110 ∷ 99 ∷ 101 ∷ 95
    ∷ 117 ∷ 117 ∷ 105 ∷ 100 ∷ []
observation_unavailable_wire_value missing_playlist_name =
    109 ∷ 105 ∷ 115 ∷ 115 ∷ 105 ∷ 110 ∷ 103 ∷ 95 ∷ 112 ∷ 108 ∷ 97 ∷ 121 ∷ 108 ∷ 105 ∷ 115 ∷ 116 ∷ 95
    ∷ 110 ∷ 97 ∷ 109 ∷ 101 ∷ []
observation_unavailable_wire_value missing_definition =
    109 ∷ 105 ∷ 115 ∷ 115 ∷ 105 ∷ 110 ∷ 103 ∷ 95 ∷ 100 ∷ 101 ∷ 102 ∷ 105 ∷ 110 ∷ 105 ∷ 116 ∷ 105
    ∷ 111 ∷ 110 ∷ []
observation_unavailable_wire_value unsupported_definition_shape =
    117 ∷ 110 ∷ 115 ∷ 117 ∷ 112 ∷ 112 ∷ 111 ∷ 114 ∷ 116 ∷ 101 ∷ 100 ∷ 95 ∷ 100 ∷ 101 ∷ 102 ∷ 105
    ∷ 110 ∷ 105 ∷ 116 ∷ 105 ∷ 111 ∷ 110 ∷ 95 ∷ 115 ∷ 104 ∷ 97 ∷ 112 ∷ 101 ∷ []
observation_unavailable_wire_value negative_position =
    110 ∷ 101 ∷ 103 ∷ 97 ∷ 116 ∷ 105 ∷ 118 ∷ 101 ∷ 95 ∷ 112 ∷ 111 ∷ 115 ∷ 105 ∷ 116 ∷ 105 ∷ 111
    ∷ 110 ∷ []
observation_unavailable_wire_value truncated_identity_field =
    116 ∷ 114 ∷ 117 ∷ 110 ∷ 99 ∷ 97 ∷ 116 ∷ 101 ∷ 100 ∷ 95 ∷ 105 ∷ 100 ∷ 101 ∷ 110 ∷ 116 ∷ 105 ∷ 116
    ∷ 121 ∷ 95 ∷ 102 ∷ 105 ∷ 101 ∷ 108 ∷ 100 ∷ []

abbrev pub is_unavailable : IdentityUnavailable → Bool
is_unavailable no_reason = false
is_unavailable _ = true

-- `of_int` converts an integer to a double.
module _ {Num : Type 0} (t : NumberText Num) (of_int : ℤ → Num) where
  unfoldable pub serialized : Option Bytes → PayloadResult
  serialized none = no_payload not_canonical
  serialized (some text) = payload text

  unfoldable pub serialize : Members Num → PayloadResult
  serialize members = serialized (canonicalize t (object_value members))

  -- addString and addNumber, in front of what is added after.
  unfoldable pub add_string : Bytes → Bytes → Members Num → Members Num
  add_string name value others = member_then name (string_value value) others

  unfoldable pub add_number : Bytes → ℤ → Members Num → Members Num
  add_number name value others = member_then name (number_value (of_int value)) others

  -- `if (!value.empty()) addString(...)`.
  unfoldable pub add_some : Bytes → Bytes → Members Num → Members Num
  add_some name value others = if null value then others else add_string name value others

  unfoldable pub add_loop : Option ℤ → Members Num → Members Num
  add_loop none others = others
  add_loop (some loop) others = add_number Names.playlist_loop loop others

  unfoldable pub evidence_members : PlaylistEntryObservation → Members Num → Members Num
  evidence_members o others =
      let positioned =
        if ltb_ℤ o.identity.position (pos 0)
        then others
        else add_number Names.position o.identity.position others in
      if null o.identity.playlist_name
      then others
      else add_string Names.playlist_name o.identity.playlist_name
          (add_string Names.section o.identity.section positioned)

  unfoldable pub identity_members : PlaylistEntryObservation → Members Num → Members Num
  identity_members o others =
      if is_unavailable o.unavailable_because
      then add_string Names.unavailable (observation_unavailable_wire_value o.unavailable_because)
          (evidence_members o others)
      else add_string Names.playlist_name o.identity.playlist_name (
          add_string Names.playlist_hash o.identity.playlist_hash (
            add_string Names.section o.identity.section (
              add_number Names.position o.identity.position
                (add_string Names.entry_key o.entry_key others))))

  unfoldable pub observation_members : PlaylistEntryObservation → Members Num
  observation_members o = add_number Names.schema_version o.schema_version (
      add_string Names.instance_uuid o.identity.instance_uuid (
        add_string Names.action (playlist_action_name o.action) (
          add_number Names.sequence (pos o.sequence) (
            add_number Names.observed_at_millis o.observed_at_millis (
              add_number Names.coalesced_since_previous_acknowledged
                (pos o.coalesced_since_previous_acknowledged)
                (identity_members o (
                  add_some Names.sequence_filename o.sequence_filename (
                    add_some Names.media_filename o.media_filename
                      (add_loop o.playlist_loop no_members)))))))))

  unfoldable pub build_observation_body : PlaylistEntryObservation → PayloadResult
  build_observation_body o =
      if null o.identity.instance_uuid
      then no_payload no_instance_uuid
      else serialize (observation_members o)

  unfoldable pub definition_body : Bytes → Bytes → Bytes → ℤ → Parsed (Value Num) → PayloadResult
  definition_body uuid name hash captured (failed problem rest) =
      no_payload (definition_not_json problem rest)
  definition_body uuid name hash captured (ok (object_value ms) rest) = serialize (
      add_number Names.schema_version (pos 1) (
        add_string Names.instance_uuid uuid (
          add_string Names.playlist_name name (
            add_string Names.playlist_hash hash (
              member_then Names.definition (object_value ms)
                (add_number Names.captured_at_millis captured no_members))))))
  definition_body uuid name hash captured (ok value rest) = no_payload definition_not_an_object
  definition_body uuid name hash captured out_of_fuel = no_payload definition_not_an_object

  unfoldable pub build_definition_body : Bytes → Bytes → Bytes → Bytes → ℤ → PayloadResult
  build_definition_body uuid name hash canonical_definition captured =
      if null uuid || null name || null hash
      then no_payload needs_uuid_name_and_hash
      else definition_body uuid name hash captured (parse t canonical_definition)
