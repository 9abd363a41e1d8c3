-- ===== src/Brightness/Adopt.antt =====
-- adoptState of brightness.cpp: taking a peer's full state.
use showmesh_fpp_plugin.Base.{
  ◌+◌, ltb, ℤ, pos, ltb_ℤ, leb_ℤ, eqb_ℤ, ◌-ℤ◌, Bytes, eq_bytes, lt_bytes, Bool, true, false, not,
  ◌&&◌, ◌||◌, if◌then◌else◌,
}
use showmesh_fpp_plugin.Fading.{Double, restore}
use showmesh_fpp_plugin.Brightness.State.{
  earliest_plausible_epoch_millis, latest_plausible_epoch_millis,
  max_ordering_key_ahead_of_now_millis, brightness_state_schema_version, max_weather_gate_revision,
  u64, min_ℕ, BrightnessState, BrightnessEngine, Digest, StateAdoption, adopted,
  rejected_stale_revision, rejected_unsupported_version, rejected_invalid_fade_window,
  rejected_implausible_timestamp, timestamp_is_plausible, ordering_content_hash, clamp_percent,
}

-- The span is compared as a double in the source, where both endpoints are exact.
unfoldable pub fade_window_is_plausible : ℤ → ℤ → Bool
fade_window_is_plausible from till =
    if eqb_ℤ from (pos 0) && eqb_ℤ till (pos 0)
    then true
    else if ltb_ℤ till from
    then false
    else if ltb_ℤ from earliest_plausible_epoch_millis || ltb_ℤ latest_plausible_epoch_millis from
    then false
    else if ltb_ℤ till earliest_plausible_epoch_millis || ltb_ℤ latest_plausible_epoch_millis till
    then false
    else leb_ℤ (till -ℤ from) (pos 86400000)

-- The ordering key (stateChangedAtMillis, instanceId, canonicalStateHash).
pub record OrderingKey : Type 0 where
  pub changed_at : ℤ
  pub id : Bytes
  pub hash : Bytes

unfoldable pub newer : OrderingKey → OrderingKey → Bool
newer incoming held =
    if not (eqb_ℤ incoming.changed_at held.changed_at)
    then ltb_ℤ held.changed_at incoming.changed_at
    else if not (eq_bytes incoming.id held.id)
    then lt_bytes held.id incoming.id
    else lt_bytes held.hash incoming.hash

module _ {Num : Type 0} where
  unfoldable pub held_key : BrightnessEngine Num → OrderingKey
  held_key e = record {
    changed_at = e.state_changed_at_millis;
    id = e.ordering_instance_id;
    hash = e.ordering_hash;
  }

  unfoldable pub incoming_key : Digest Num → BrightnessState Num → OrderingKey
  incoming_key digest s = record {
    changed_at = s.state_changed_at_millis;
    id = s.instance_id;
    hash = ordering_content_hash digest s;
  }

  -- A closed gate at a strictly newer gate revision; an open gate is never adopted.
  unfoldable pub adopt_gate : BrightnessEngine Num → BrightnessState Num → BrightnessEngine Num
  adopt_gate e s =
      if s.weather_gate_closed && ltb e.gate_revision s.weather_gate_revision
      then record e {
        gate_closed = true;
        gate_revision = min_ℕ s.weather_gate_revision max_weather_gate_revision;
        revision = u64 (e.revision + 1);
      }
      else e

  -- The checks between the gate and the ordering key; `adopted` stands for passing all of them.
  unfoldable pub screen : BrightnessState Num → ℤ → StateAdoption
  screen s now =
      if not (timestamp_is_plausible s.state_changed_at_millis)
      then rejected_implausible_timestamp
      else if ltb_ℤ now (s.state_changed_at_millis -ℤ max_ordering_key_ahead_of_now_millis)
      then rejected_implausible_timestamp
      else if not (fade_window_is_plausible s.ceiling_fade_start_millis s.ceiling_fade_end_millis)
          || not (fade_window_is_plausible s.gain_fade_start_millis s.gain_fade_end_millis)
      then rejected_invalid_fade_window
      else adopted

module _ (d : Double) (digest : Digest d.Num) where
  open d use {Num}

  -- The assignments of an adoption.
  unfoldable pub take_state : BrightnessEngine Num → BrightnessState Num → BrightnessEngine Num
  take_state e s = record e {
    ceiling_changed_at_millis =
        if timestamp_is_plausible s.ceiling_changed_at_millis
        then s.ceiling_changed_at_millis
        else pos 0;
    ceiling =
        restore (clamp_percent d s.ceiling_start) (clamp_percent d s.ceiling_target)
          s.ceiling_fade_start_millis s.ceiling_fade_end_millis;
    gain =
        restore (clamp_percent d s.gain_start) (clamp_percent d s.gain_target)
          s.gain_fade_start_millis s.gain_fade_end_millis;
    state_changed_at_millis = s.state_changed_at_millis;
    ordering_instance_id = s.instance_id;
    ordering_hash = ordering_content_hash digest s;
    revision = u64 (e.revision + 1);
  }

  unfoldable pub adopt_state :
      BrightnessEngine Num → BrightnessState Num → ℤ → StateAdoption × BrightnessEngine Num
  adopt_state e s now =
      if not (eqb_ℤ s.schema_version brightness_state_schema_version)
      then (rejected_unsupported_version, e)
      else let e₁ = adopt_gate e s in
        elim (screen s now) [
          | adopted ↦
              if newer (incoming_key digest s) (held_key e₁)
              then (adopted, take_state e₁ s)
              else (rejected_stale_revision, e₁)
          | reason ↦ (reason, e₁)
        ]
