-- ===== src/Identity.antt =====
-- native/src/playlist_identity.cpp: what identifies one playlist entry.
pub mod Resolve
use showmesh_fpp_plugin.Base.{
  ℕ, ◌+◌, ◌==◌, ltb, leb, ℤ, pos, ltb_ℤ, Bool, true, false, not, ◌&&◌, ◌||◌, if◌then◌else◌, List,
  [], ◌∷◌, null, length, Option, none, some, Bytes, eq_bytes,
}
use showmesh_fpp_plugin.Json.{
  Members, string_value, number_value, object_value, no_members, member_then,
}
use showmesh_fpp_plugin.Json.Number.{NumberText}
use showmesh_fpp_plugin.Json.Writer.{canonicalize, canonicalize_text}
use showmesh_fpp_plugin.Sha256.{sha256_hex}

pub data PlaylistAction : Type 0 where
  start playing stop query_next unknown : PlaylistAction

-- "unknown" in lower case, byte by byte.
abbrev unprovisioned : Bytes
unprovisioned = 117 ∷ 110 ∷ 107 ∷ 110 ∷ 111 ∷ 119 ∷ 110 ∷ []

-- std::tolower on the bytes of the C locale.
unfoldable pub to_lower : ℕ → ℕ
to_lower c = if leb 65 c && leb c 90 then c + 32 else c

unfoldable pub matches_lower : Bytes → Bytes → Bool
matches_lower [] expected = true
matches_lower (c ∷ cs) [] = false
matches_lower (c ∷ cs) (x ∷ xs) = (to_lower c == x) && matches_lower cs xs

unfoldable pub is_unprovisioned_instance_uuid : Bytes → Bool
is_unprovisioned_instance_uuid value =
    if not (length value == 7) then false else matches_lower value unprovisioned

unfoldable pub playlist_action_name : PlaylistAction → Bytes
playlist_action_name start = 115 ∷ 116 ∷ 97 ∷ 114 ∷ 116 ∷ []
playlist_action_name playing = 112 ∷ 108 ∷ 97 ∷ 121 ∷ 105 ∷ 110 ∷ 103 ∷ []
playlist_action_name stop = 115 ∷ 116 ∷ 111 ∷ 112 ∷ []
playlist_action_name query_next = 113 ∷ 117 ∷ 101 ∷ 114 ∷ 121 ∷ 95 ∷ 110 ∷ 101 ∷ 120 ∷ 116 ∷ []
playlist_action_name unknown = 117 ∷ 110 ∷ 107 ∷ 110 ∷ 111 ∷ 119 ∷ 110 ∷ []

unfoldable pub playlist_action_from_name : Bytes → PlaylistAction
playlist_action_from_name name =
    if eq_bytes name (115 ∷ 116 ∷ 97 ∷ 114 ∷ 116 ∷ [])
    then start
    else if eq_bytes name (112 ∷ 108 ∷ 97 ∷ 121 ∷ 105 ∷ 110 ∷ 103 ∷ [])
    then playing
    else if eq_bytes name (115 ∷ 116 ∷ 111 ∷ 112 ∷ [])
    then stop
    else if eq_bytes name (113 ∷ 117 ∷ 101 ∷ 114 ∷ 121 ∷ 95 ∷ 110 ∷ 101 ∷ 120 ∷ 116 ∷ [])
    then query_next
    else unknown

pub data IdentityUnavailable : Type 0 where
  no_reason missing_instance_uuid missing_playlist_name missing_definition : IdentityUnavailable
  unsupported_definition_shape negative_position truncated_identity_field : IdentityUnavailable

pub record EntryIdentity : Type 0 where
  pub instance_uuid : Bytes
  pub playlist_name : Bytes
  pub playlist_hash : Bytes
  pub section : Bytes
  pub position : ℤ

-- A resolution: the reason there is none, or the identity, the canonical bytes and the entry key.
-- Its error text is identity_unavailable_reason of the reason, but the canonicalizer's for a definition
-- that has no canonical form.
pub data IdentityResolution : Type 0 where
  unavailable : IdentityUnavailable → IdentityResolution
  resolved : EntryIdentity → Bytes → Bytes → IdentityResolution

-- The names of the members that the key is made of.
abbrev pub instance_uuid_name : Bytes
instance_uuid_name = 105 ∷ 110 ∷ 115 ∷ 116 ∷ 97 ∷ 110 ∷ 99 ∷ 101 ∷ 85 ∷ 117 ∷ 105 ∷ 100 ∷ []

abbrev pub playlist_hash_name : Bytes
playlist_hash_name = 112 ∷ 108 ∷ 97 ∷ 121 ∷ 108 ∷ 105 ∷ 115 ∷ 116 ∷ 72 ∷ 97 ∷ 115 ∷ 104 ∷ []

abbrev pub playlist_name_name : Bytes
playlist_name_name = 112 ∷ 108 ∷ 97 ∷ 121 ∷ 108 ∷ 105 ∷ 115 ∷ 116 ∷ 78 ∷ 97 ∷ 109 ∷ 101 ∷ []

abbrev pub position_name : Bytes
position_name = 112 ∷ 111 ∷ 115 ∷ 105 ∷ 116 ∷ 105 ∷ 111 ∷ 110 ∷ []

abbrev pub section_name : Bytes
section_name = 115 ∷ 101 ∷ 99 ∷ 116 ∷ 105 ∷ 111 ∷ 110 ∷ []

-- `of_int` is the conversion of an int to a double.
module _ {Num : Type 0} (t : NumberText Num) (of_int : ℤ → Num) where
  unfoldable pub identity_members : EntryIdentity → Members Num
  identity_members identity = member_then instance_uuid_name (string_value identity.instance_uuid) (
      member_then playlist_hash_name (string_value identity.playlist_hash) (
        member_then playlist_name_name (string_value identity.playlist_name) (
          member_then position_name (number_value (of_int identity.position))
            (member_then section_name (string_value identity.section) no_members))))

  unfoldable pub derive_entry_key : EntryIdentity → Bytes
  derive_entry_key identity = elim (canonicalize t (object_value (identity_members identity))) [
    | none ↦ []
    | some text ↦ sha256_hex text
  ]

  unfoldable pub identify : Bytes → Bytes → Bytes → ℤ → Option Bytes → IdentityResolution
  identify instance_uuid playlist_name section position none =
      unavailable unsupported_definition_shape
  identify instance_uuid playlist_name section position (some canonical) =
      let identity : EntryIdentity = record {
        instance_uuid = instance_uuid;
        playlist_name = playlist_name;
        playlist_hash = sha256_hex canonical;
        section = section;
        position = position;
      } in
      resolved identity canonical (derive_entry_key identity)

  unfoldable pub resolve_entry_identity : Bytes → Bytes → Bytes → Bytes → ℤ → IdentityResolution
  resolve_entry_identity instance_uuid playlist_name definition section position =
      if null instance_uuid
      then unavailable missing_instance_uuid
      else if null playlist_name
      then unavailable missing_playlist_name
      else if null definition
      then unavailable missing_definition
      else if ltb_ℤ position (pos 0)
      then unavailable negative_position
      else identify instance_uuid playlist_name section position (canonicalize_text t definition)

unfoldable pub identity_unavailable_reason : IdentityUnavailable → Bytes
identity_unavailable_reason no_reason = []
identity_unavailable_reason missing_instance_uuid =
    116 ∷ 104 ∷ 101 ∷ 32 ∷ 70 ∷ 80 ∷ 80 ∷ 32 ∷ 105 ∷ 110 ∷ 115 ∷ 116 ∷ 97 ∷ 110 ∷ 99 ∷ 101 ∷ 32 ∷ 85
    ∷ 85 ∷ 73 ∷ 68 ∷ 32 ∷ 105 ∷ 115 ∷ 32 ∷ 110 ∷ 111 ∷ 116 ∷ 32 ∷ 97 ∷ 118 ∷ 97 ∷ 105 ∷ 108 ∷ 97
    ∷ 98 ∷ 108 ∷ 101 ∷ []
identity_unavailable_reason missing_playlist_name =
    116 ∷ 104 ∷ 101 ∷ 32 ∷ 112 ∷ 108 ∷ 97 ∷ 121 ∷ 108 ∷ 105 ∷ 115 ∷ 116 ∷ 32 ∷ 110 ∷ 97 ∷ 109 ∷ 101
    ∷ 32 ∷ 105 ∷ 115 ∷ 32 ∷ 110 ∷ 111 ∷ 116 ∷ 32 ∷ 97 ∷ 118 ∷ 97 ∷ 105 ∷ 108 ∷ 97 ∷ 98 ∷ 108 ∷ 101
    ∷ []
identity_unavailable_reason missing_definition =
    116 ∷ 104 ∷ 101 ∷ 32 ∷ 112 ∷ 108 ∷ 97 ∷ 121 ∷ 108 ∷ 105 ∷ 115 ∷ 116 ∷ 32 ∷ 100 ∷ 101 ∷ 102 ∷ 105
    ∷ 110 ∷ 105 ∷ 116 ∷ 105 ∷ 111 ∷ 110 ∷ 32 ∷ 105 ∷ 115 ∷ 32 ∷ 110 ∷ 111 ∷ 116 ∷ 32 ∷ 97 ∷ 118 ∷ 97
    ∷ 105 ∷ 108 ∷ 97 ∷ 98 ∷ 108 ∷ 101 ∷ []
identity_unavailable_reason unsupported_definition_shape =
    116 ∷ 104 ∷ 101 ∷ 32 ∷ 112 ∷ 108 ∷ 97 ∷ 121 ∷ 108 ∷ 105 ∷ 115 ∷ 116 ∷ 32 ∷ 100 ∷ 101 ∷ 102 ∷ 105
    ∷ 110 ∷ 105 ∷ 116 ∷ 105 ∷ 111 ∷ 110 ∷ 32 ∷ 105 ∷ 115 ∷ 32 ∷ 110 ∷ 111 ∷ 116 ∷ 32 ∷ 117 ∷ 115
    ∷ 97 ∷ 98 ∷ 108 ∷ 101 ∷ 32 ∷ 74 ∷ 83 ∷ 79 ∷ 78 ∷ []
identity_unavailable_reason negative_position =
    116 ∷ 104 ∷ 101 ∷ 32 ∷ 105 ∷ 116 ∷ 101 ∷ 109 ∷ 32 ∷ 112 ∷ 111 ∷ 115 ∷ 105 ∷ 116 ∷ 105 ∷ 111
    ∷ 110 ∷ 32 ∷ 105 ∷ 115 ∷ 32 ∷ 110 ∷ 101 ∷ 103 ∷ 97 ∷ 116 ∷ 105 ∷ 118 ∷ 101 ∷ []
identity_unavailable_reason truncated_identity_field =
    97 ∷ 32 ∷ 102 ∷ 105 ∷ 101 ∷ 108 ∷ 100 ∷ 32 ∷ 110 ∷ 101 ∷ 101 ∷ 100 ∷ 101 ∷ 100 ∷ 32 ∷ 102 ∷ 111
    ∷ 114 ∷ 32 ∷ 105 ∷ 100 ∷ 101 ∷ 110 ∷ 116 ∷ 105 ∷ 116 ∷ 121 ∷ 32 ∷ 119 ∷ 97 ∷ 115 ∷ 32 ∷ 116
    ∷ 114 ∷ 117 ∷ 110 ∷ 99 ∷ 97 ∷ 116 ∷ 101 ∷ 100 ∷ 32 ∷ 98 ∷ 101 ∷ 102 ∷ 111 ∷ 114 ∷ 101 ∷ 32 ∷ 105
    ∷ 116 ∷ 32 ∷ 99 ∷ 111 ∷ 117 ∷ 108 ∷ 100 ∷ 32 ∷ 98 ∷ 101 ∷ 32 ∷ 99 ∷ 111 ∷ 109 ∷ 112 ∷ 97 ∷ 114
    ∷ 101 ∷ 100 ∷ []

-- The observation that the worker builds.
pub record PlaylistEntryObservation : Type 0 where
  pub schema_version : ℤ
  pub identity : EntryIdentity
  pub entry_key : Bytes
  pub sequence_filename : Bytes
  pub media_filename : Bytes
  pub sequence_filename_truncated : Bool
  pub media_filename_truncated : Bool
  pub action : PlaylistAction
  pub sequence : ℕ
  pub observed_at_millis : ℤ
  pub coalesced_since_previous_acknowledged : ℕ
  pub playlist_loop : Option ℤ
  pub unavailable_because : IdentityUnavailable
