-- ===== src/Brightness/State.antt =====
-- The state of native/include/showmesh/brightness.h: BrightnessEngine, BrightnessState, the bounds,
-- and the small functions of brightness.cpp that every operation uses.
use showmesh_fpp_plugin.Base.{
  ℕ, ◌+◌, ◌-◌, ◌%◌, ◌^◌, ltb, ℤ, pos, leb_ℤ, eqb_ℤ, max_ℤ, ◌+ℤ◌, Bytes, [], Bool, true, false, ◌&&◌,
  if◌then◌else◌, List,
}
use showmesh_fpp_plugin.Fading.{Double, FadingValue, settle}
use showmesh_fpp_plugin.Ranges.{ChannelRange, RangeConfig}

abbrev pub min_percent : ℤ
min_percent = pos 0

abbrev pub max_percent : ℤ
max_percent = pos 100

abbrev pub max_fade_seconds : ℤ
max_fade_seconds = pos 86400

abbrev pub earliest_plausible_epoch_millis : ℤ
earliest_plausible_epoch_millis = pos 946684800000

abbrev pub latest_plausible_epoch_millis : ℤ
latest_plausible_epoch_millis = pos 4102444800000

abbrev pub max_ordering_key_ahead_of_now_millis : ℤ
max_ordering_key_ahead_of_now_millis = pos 86400000

abbrev pub brightness_state_schema_version : ℤ
brightness_state_schema_version = pos 1

abbrev pub max_weather_gate_revision : ℕ
max_weather_gate_revision = 2 ^ 53 - 1

abbrev pub u64 : ℕ → ℕ
u64 n = n % 2 ^ 64

-- std::min on numbers.
abbrev pub min_ℕ : ℕ → ℕ → ℕ
min_ℕ a b = if ltb b a then b else a

abbrev pub max_ℕ : ℕ → ℕ → ℕ
max_ℕ a b = if ltb a b then b else a

-- The payload that MultiSync carries and that persistence stores.
pub record BrightnessState (Num : Type 0) : Type 0 where
  pub schema_version : ℤ
  pub revision : ℕ
  pub state_changed_at_millis : ℤ
  pub instance_id : Bytes
  pub ceiling_start : Num
  pub ceiling_target : Num
  pub ceiling_fade_start_millis : ℤ
  pub ceiling_fade_end_millis : ℤ
  pub gain_start : Num
  pub gain_target : Num
  pub gain_fade_start_millis : ℤ
  pub gain_fade_end_millis : ℤ
  pub last_applied_ceiling : Num
  pub last_applied_gain : Num
  pub persisted_at_millis : ℤ
  pub weather_gate_closed : Bool
  pub weather_gate_revision : ℕ
  pub ceiling_changed_at_millis : ℤ

-- The members of BrightnessEngine.
pub record BrightnessEngine (Num : Type 0) : Type 0 where
  pub ceiling : FadingValue Num
  pub gain : FadingValue Num
  pub ranges : RangeConfig
  pub scaled_spans : List ChannelRange
  pub total_channels : ℕ
  pub revision : ℕ
  pub state_changed_at_millis : ℤ
  pub ceiling_changed_at_millis : ℤ
  pub instance_id : Bytes
  pub last_applied_ceiling : Num
  pub last_applied_gain : Num
  pub gate_closed : Bool
  pub gate_revision : ℕ
  pub ordering_instance_id : Bytes
  pub ordering_hash : Bytes

-- sha256Hex of the canonical JSON of the eight members that orderingContentHash names, in its order.
abbrev pub Digest : Type 0 → Type 0
Digest Num = Num → Num → ℤ → ℤ → Num → Num → ℤ → ℤ → Bytes

pub data StateAdoption : Type 0 where
  adopted rejected_stale_revision rejected_unsupported_version : StateAdoption
  rejected_invalid_fade_window rejected_implausible_timestamp : StateAdoption

unfoldable pub timestamp_is_plausible : ℤ → Bool
timestamp_is_plausible t =
    if eqb_ℤ t (pos 0)
    then true
    else leb_ℤ earliest_plausible_epoch_millis t && leb_ℤ t latest_plausible_epoch_millis

module _ {Num : Type 0} where
  unfoldable pub ordering_content_hash : Digest Num → BrightnessState Num → Bytes
  ordering_content_hash digest s =
      digest s.ceiling_start s.ceiling_target s.ceiling_fade_start_millis s.ceiling_fade_end_millis
        s.gain_start s.gain_target s.gain_fade_start_millis s.gain_fade_end_millis

  unfoldable pub capture_state : BrightnessEngine Num → ℤ → BrightnessState Num
  capture_state e now = record {
    schema_version = brightness_state_schema_version;
    revision = e.revision;
    state_changed_at_millis = e.state_changed_at_millis;
    instance_id = e.instance_id;
    ceiling_start = e.ceiling.start;
    ceiling_target = e.ceiling.target;
    ceiling_fade_start_millis = e.ceiling.start_millis;
    ceiling_fade_end_millis = e.ceiling.end_millis;
    gain_start = e.gain.start;
    gain_target = e.gain.target;
    gain_fade_start_millis = e.gain.start_millis;
    gain_fade_end_millis = e.gain.end_millis;
    last_applied_ceiling = e.last_applied_ceiling;
    last_applied_gain = e.last_applied_gain;
    persisted_at_millis = now;
    weather_gate_closed = e.gate_closed;
    weather_gate_revision = e.gate_revision;
    ceiling_changed_at_millis = e.ceiling_changed_at_millis;
  }

  -- The hash is taken of the state after the three members before it are set.
  unfoldable pub bump_revision : Digest Num → BrightnessEngine Num → ℤ → BrightnessEngine Num
  bump_revision digest e now =
      let e₁ : BrightnessEngine Num = record e {
        revision = u64 (e.revision + 1);
        state_changed_at_millis = max_ℤ now (e.state_changed_at_millis +ℤ pos 1);
        ordering_instance_id = e.instance_id;
      } in
      record e₁ { ordering_hash = ordering_content_hash digest (capture_state e₁ now) }

  unfoldable pub set_instance_id : BrightnessEngine Num → Bytes → BrightnessEngine Num
  set_instance_id e id = record e { instance_id = id; ordering_instance_id = id }

module _ (d : Double) where
  open d use {Num, lt, of_int}

  unfoldable pub clamp_percent : Num → Num
  clamp_percent v =
      if lt v (of_int (pos 0))
      then of_int (pos 0)
      else if lt (of_int max_percent) v
      then of_int max_percent
      else v

  -- A default-constructed engine.
  unfoldable pub new_engine : BrightnessEngine Num
  new_engine = record {
    ceiling = settle (of_int (pos 100));
    gain = settle (of_int (pos 100));
    ranges = record { apply = []; exclude = [] };
    scaled_spans = [];
    total_channels = 0;
    revision = 0;
    state_changed_at_millis = pos 0;
    ceiling_changed_at_millis = pos 0;
    instance_id = [];
    last_applied_ceiling = of_int (pos 100);
    last_applied_gain = of_int (pos 100);
    gate_closed = false;
    gate_revision = 0;
    ordering_instance_id = [];
    ordering_hash = [];
  }
