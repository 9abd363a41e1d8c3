-- ===== src/Route.antt =====
-- What the HTTP routes over the brightness engine share: native/src/transition_gain.cpp,
-- weather_gate.cpp and excluded_ranges.cpp. A refusal is what it says, before it is rendered; an answer
-- with status 200 is its text. The pointers that the host passes are not null.
pub mod Names
pub mod TransitionGain
pub mod WeatherGate
pub mod ChannelRanges
pub mod RangesFit
use showmesh_fpp_plugin.Base.{
  ℕ, ℤ, pos, negsuc, ◌-◌, ◌+◌, ◌%◌, ◌^◌, ltb, Bool, true, false, not, ◌||◌, if◌then◌else◌, Option,
  none, some, Bytes,
}
use showmesh_fpp_plugin.Brightness.Commands.{ActionError}
use showmesh_fpp_plugin.Json.{Value, Members, number_value, object_value, member_of, Problem}
use showmesh_fpp_plugin.Json.Number.{NumberText}
use showmesh_fpp_plugin.Json.Writer.{canonicalize}
use showmesh_fpp_plugin.Codec.{Conversions}

abbrev pub body_limit : ℕ
body_limit = 4096

-- The messages.
pub data Refusal : Type 0 where
  body_too_large not_a_json_object not_rendered : Refusal
  not_json : Problem → Bytes → Refusal
  required not_a_number not_a_whole_number : Bytes → Refusal
  unsupported_version : ℤ → Refusal
  request_id_not_a_string request_id_empty starts_needs_ends : Refusal
  refused_action : ActionError → Refusal
  not_two_keys unknown_key closed_not_a_boolean revision_not_a_number revision_out_of_range :
      Refusal
  unknown_member : Bytes → Refusal
  not_a_list : Refusal
  not_two_members not_channel_numbers past_last_channel : ℕ → Refusal

pub data Answer : Type 0 where
  refused : Refusal → Answer
  answered : Bytes → Answer

pub data Checked (A : Type 0) : Type 0 where
  accept : A → Checked A
  refuse : Refusal → Checked A

-- The early returns.
abbrev pub and_then : {A B : Type 0} → Checked A → (A → Checked B) → Checked B
and_then (accept a) f = f a
and_then (refuse reason) f = refuse reason

abbrev pub is_present : {A : Type 0} → Option A → Bool
is_present none = false
is_present (some a) = true

-- static_cast<int> of a long long.
unfoldable pub to_int_32 : ℤ → ℤ
to_int_32 (pos n) =
    if ltb (n % 2 ^ 32) (2 ^ 31) then pos (n % 2 ^ 32) else negsuc (2 ^ 32 - 1 - n % 2 ^ 32)
to_int_32 (negsuc n) =
    if ltb (n % 2 ^ 32) (2 ^ 31) then negsuc (n % 2 ^ 32) else pos (2 ^ 32 - 1 - n % 2 ^ 32)

module _ {Num : Type 0} (t : NumberText Num) (r : Conversions Num) where
  unfoldable pub whole_of : Bytes → Option (Value Num) → Checked ℤ
  whole_of name none = refuse (required name)
  whole_of name (some (number_value d)) =
      if not (t.eq d (r.floor d)) || not (t.is_finite d)
      then refuse (not_a_whole_number name)
      else accept (r.to_int d)
  whole_of name (some value) = refuse (not_a_number name)

  unfoldable pub whole_number_member : Members Num → Bytes → Checked ℤ
  whole_number_member object name = whole_of name (member_of object name)

  unfoldable pub rendered : Option Bytes → Answer
  rendered none = refused not_rendered
  rendered (some text) = answered text

  unfoldable pub render : Members Num → Answer
  render members = rendered (canonicalize t (object_value members))
