-- ===== src/Witnesses/Records.antt =====
-- Observations, identities and the brightness store.
use showmesh_fpp_plugin.Witnesses.Numbers.{one_digit, digits-IsReadBack}
use showmesh_fpp_plugin.Base.{
  List, ℤ, length, ◌⊎◌, pos, true, false, ◌≡◌, refl, Option, none, some, [], ◌∷◌, Bytes, eq_bytes,
}
use showmesh_fpp_plugin.Identity.{
  EntryIdentity, resolved, unknown, derive_entry_key, resolve_entry_identity, identify,
}
use showmesh_fpp_plugin.Identity.Resolve.{
  IsKeyable, Collide, KeysCollide, resolve_entry_identity-key,
}
use showmesh_fpp_plugin.Codec.Exact.{is_ascii-Utf8}
use showmesh_fpp_plugin.Sha256.{sha256_hex}
use showmesh_fpp_plugin.Json.Parser.{
  parse, finish, parse_value, parse_items, skip_whitespace, is_whitespace,
}
use showmesh_fpp_plugin.Json.Writer.{
  canonicalize_text, canonical_of, canonicalize, write_sorted, sort_value, sort_members,
}
use showmesh_fpp_plugin.Handoff.Evidence.{
  CallbackEvidence, observed, set_section, set_playlist_name, copy_field, copy_loop,
  identity_field_truncated, same_entry_as, same_entry_as-observed,
}
use showmesh_fpp_plugin.Republish.{
  DefinitionPublisher, RouteState, Refusal, DefinitionRepublishResponse, refused, rendered,
  apply_definition_republish_request,
}
use showmesh_fpp_plugin.Republish.Repeat.{apply_definition_republish_request-repeat}

abbrev evidence : CallbackEvidence
evidence = record {
  playlist_name = [];
  section = [];
  sequence_filename = [];
  media_filename = [];
  position = pos 3;
  action = unknown;
  observed_at_millis = pos 0;
  playlist_loop = none;
  playlist_name_truncated = false;
  section_truncated = false;
  sequence_filename_truncated = false;
  media_filename_truncated = false;
}

abbrev show : Bytes
show = 65 ∷ 66 ∷ []

abbrev main : Bytes
main = 77 ∷ []

whole : identity_field_truncated (observed evidence show main) ≡ false
unfolding set_section set_playlist_name copy_field copy_loop identity_field_truncated
whole = refl

same : same_entry_as (observed evidence show main) (observed evidence show main) ≡ true
unfolding set_section set_playlist_name copy_field copy_loop same_entry_as eq_bytes
same = refl

same_entry_as-observed_example :
    (show ≡ show) × (main ≡ main) × (evidence.position ≡ evidence.position)
same_entry_as-observed_example =
    same_entry_as-observed evidence evidence show show main main (refl, (refl, tt))
      (refl, (refl, tt)) (refl, tt) (refl, tt) whole whole same

abbrev braces : Bytes
braces = 123 ∷ 125 ∷ []

-- The definition {} with a space in it.
abbrev spaced : Bytes
spaced = 123 ∷ 32 ∷ 125 ∷ []

abbrev numbered_int : ℤ → ℤ
numbered_int z = z

abbrev entry : EntryIdentity
entry = record {
  instance_uuid = main;
  playlist_name = show;
  playlist_hash = sha256_hex braces;
  section = main;
  position = pos 2;
}

entry-IsKeyable : IsKeyable one_digit numbered_int numbered_int entry
entry-IsKeyable = record {
  instance_uuid = is_ascii-Utf8 main refl;
  playlist_name = is_ascii-Utf8 show refl;
  section = is_ascii-Utf8 main refl;
  position = digits-IsReadBack.2;
  exact = refl;
}

abbrev entry_key : Bytes
entry_key = derive_entry_key one_digit numbered_int entry

braces-canonical : canonicalize_text one_digit braces ≡ some braces
unfolding canonicalize_text canonical_of canonicalize parse finish parse_value parse_items
    skip_whitespace is_whitespace write_sorted sort_value sort_members
braces-canonical = refl

spaced-canonical : canonicalize_text one_digit spaced ≡ some braces
unfolding canonicalize_text canonical_of canonicalize parse finish parse_value parse_items
    skip_whitespace is_whitespace write_sorted sort_value sort_members
spaced-canonical = refl

entry_resolved :
    resolve_entry_identity one_digit numbered_int main show braces main (pos 2)
    ≡ resolved entry braces entry_key
unfolding resolve_entry_identity identify
entry_resolved = rw braces-canonical refl

spaced_resolved :
    resolve_entry_identity one_digit numbered_int main show spaced main (pos 2)
    ≡ resolved entry braces entry_key
unfolding resolve_entry_identity identify
spaced_resolved = rw spaced-canonical refl

resolve_entry_identity-key_example :
    ((main ≡ main) × (show ≡ show) × (main ≡ main) × (pos 2 ≡ pos 2) × (braces ≡ braces))
    ⊎ Collide braces braces
    ⊎ KeysCollide one_digit numbered_int numbered_int entry entry
resolve_entry_identity-key_example =
    resolve_entry_identity-key one_digit numbered_int numbered_int main show braces main main show
      spaced main (pos 2) (pos 2) entry entry braces braces entry_key entry_resolved spaced_resolved
      entry-IsKeyable entry-IsKeyable

-- A publisher of the ids held, and a request.
abbrev publisher : DefinitionPublisher (List Bytes)
publisher = record {
  definition_holdings = λ held. record { cleared = 0; held = length held; refused_terminally = 0 };
  clear_held_definitions =
      λ held. (record { cleared = length held; held = 0; refused_terminally = 0 }, []);
}

-- {"schemaVersion":1,"requestId":"show"}
abbrev request : Bytes
request =
    123 ∷ 34 ∷ 115 ∷ 99 ∷ 104 ∷ 101 ∷ 109 ∷ 97 ∷ 86 ∷ 101 ∷ 114 ∷ 115 ∷ 105 ∷ 111 ∷ 110 ∷ 34 ∷ 58
    ∷ 49 ∷ 44 ∷ 34 ∷ 114 ∷ 101 ∷ 113 ∷ 117 ∷ 101 ∷ 115 ∷ 116 ∷ 73 ∷ 100 ∷ 34 ∷ 58 ∷ 34 ∷ 115 ∷ 104
    ∷ 111 ∷ 119 ∷ 34 ∷ 125 ∷ []

abbrev numbered : ℤ → Option ℤ
numbered n = some n

abbrev route : RouteState (List Bytes)
route = record { publisher = show ∷ []; sweep_pending = false; last_request_id = [] }

abbrev first : DefinitionRepublishResponse × RouteState (List Bytes)
first = apply_definition_republish_request one_digit numbered publisher route request

abbrev again : DefinitionRepublishResponse × RouteState (List Bytes)
again = apply_definition_republish_request one_digit numbered publisher first.1 request

apply_definition_republish_request-repeat_example :
    (again.1 ≡ first.1)
    × (((reason : Refusal) × (again.0 ≡ refused reason) × (first.1 ≡ route))
        ⊎ (again.0
            ≡ rendered false
                (record (publisher.definition_holdings first.1.publisher) { cleared = 0 })
                first.1.sweep_pending))
apply_definition_republish_request-repeat_example =
    apply_definition_republish_request-repeat one_digit numbered publisher route request
