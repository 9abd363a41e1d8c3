-- ===== src/Brightness/Hash.antt =====
-- orderingContentHash of native/src/brightness.cpp: the hash that the engine's operations take as an
-- argument, as the program computes it.
use showmesh_fpp_plugin.Base.{ℤ, [], none, some, Option, Bytes}
use showmesh_fpp_plugin.Brightness.State.{Digest}
use showmesh_fpp_plugin.Codec.Names
use showmesh_fpp_plugin.Json.{Members, number_value, object_value, no_members, member_then}
use showmesh_fpp_plugin.Json.Number.{NumberText}
use showmesh_fpp_plugin.Json.Writer.{canonicalize}
use showmesh_fpp_plugin.Sha256.{sha256_hex}

module _ {Num : Type 0} (t : NumberText Num) (of_int : ℤ → Num) where
  -- A fade's four members, before the others.
  abbrev pub fade_members :
      (start target : Num) (from till : ℤ) (start_name target_name from_name till_name : Bytes)
      → Members Num
      → Members Num
  fade_members start target from till start_name target_name from_name till_name others =
      member_then start_name (number_value start) (
        member_then target_name (number_value target) (
          member_then from_name (number_value (of_int from))
            (member_then till_name (number_value (of_int till)) others)))

  abbrev pub hash_of : Option Bytes → Bytes
  hash_of none = sha256_hex []
  hash_of (some text) = sha256_hex text

  abbrev pub content_hash : Digest Num
  content_hash ceiling_start ceiling_target ceiling_from ceiling_till gain_start gain_target
        gain_from gain_till =
      hash_of (
        canonicalize t (
          object_value (
            fade_members ceiling_start ceiling_target ceiling_from ceiling_till Names.ceiling_start
              Names.ceiling_target Names.ceiling_fade_start_millis Names.ceiling_fade_end_millis
              (fade_members gain_start gain_target gain_from gain_till Names.gain_start
                Names.gain_target Names.gain_fade_start_millis Names.gain_fade_end_millis
                no_members))))
