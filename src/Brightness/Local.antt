-- ===== src/Brightness/Local.antt =====
-- The validated writes: what they refuse, and that an accepted one outranks what it replaces.
use showmesh_fpp_plugin.Base.{
  ℤ, pos, ltb_ℤ, ◌*ℤ◌, ◌≤ℤ◌, ◌<ℤ◌, +ℤ_parts, Bool-cases, ◌-ℤ◌, max_ℤ, inl, inr, ◌⊎◌, ◌≡◌, ◌≢◌, ◌↔◌,
  Bool, ℕ, refl, some, none, Option, arith,
}
use showmesh_fpp_plugin.Fading.{Double}
use showmesh_fpp_plugin.Brightness.State.{
  max_percent, max_fade_seconds, BrightnessEngine, Digest, bump_revision,
}
use showmesh_fpp_plugin.Brightness.Commands.{
  ActionError, validate_action_input, set_ceiling, set_gain, set_gain_between, set_weather_gate,
}

-- The bounds of the registered action: nothing is clamped, and every other input is refused.
pub validate_action_input-none :
    (target_percent fade_seconds : ℤ)
    → (validate_action_input target_percent fade_seconds ≡ none) ↔ (
        (pos 0 ≤ℤ target_percent)
        × (target_percent ≤ℤ max_percent)
        × (pos 0 ≤ℤ fade_seconds)
        × (fade_seconds ≤ℤ max_fade_seconds))
unfolding validate_action_input
validate_action_input-none target_percent fade_seconds = (λ h. ground arith, λ h. ground arith)

-- The local writes, as the callers make them.
pub data Write : Type 0 where
  ceiling_write : ℤ → ℤ → Write
  gain_write : ℤ → ℤ → Write
  gain_window_write : ℤ → ℤ → ℤ → Write
  gate_write : Bool → ℕ → Write

module _ (d : Double) (digest : Digest d.Num) where
  open d use {Num, of_int}

  unfoldable pub perform :
      BrightnessEngine Num → Write → ℤ → Option ActionError × BrightnessEngine Num
  perform e (ceiling_write target fade) now = set_ceiling d digest e target fade now
  perform e (gain_write target fade) now = set_gain d digest e target fade now
  perform e (gain_window_write target from till) now =
      set_gain_between d digest e target from till now
  perform e (gate_write closed revision) now =
      (none, set_weather_gate d digest e closed revision now)

  bump_revision-later :
      (e : BrightnessEngine Num) (now : ℤ)
      → e.state_changed_at_millis <ℤ (bump_revision digest e now).state_changed_at_millis
  unfolding bump_revision
  bump_revision-later e now = ground (arith, +ℤ_parts e.state_changed_at_millis (pos 1))

  bump_revision-own :
      (e : BrightnessEngine Num) (now : ℤ)
      → (bump_revision digest e now).ordering_instance_id ≡ e.instance_id
  unfolding bump_revision
  bump_revision-own e now = refl

  -- Refused and unchanged, or accepted and stamped later under this node's own identity.
  abbrev pub Outcome : BrightnessEngine Num → Option ActionError × BrightnessEngine Num → Type 0
  Outcome e r =
      ((r.0 ≢ none) × (r.1 ≡ e))
      ⊎ ((r.0 ≡ none)
          × (e.state_changed_at_millis <ℤ r.1.state_changed_at_millis)
          × (r.1.ordering_instance_id ≡ e.instance_id))

  checked-Outcome :
      (e : BrightnessEngine Num) (o : Option ActionError)
      (r : Option ActionError × BrightnessEngine Num)
      → Outcome e r
      → Outcome e (elim o [ some err ↦ (some err, e) | none ↦ r ])
  checked-Outcome e none r h = h
  checked-Outcome e (some err) r h = inl (λ k. cc, refl)

  -- A refused write leaves the engine as it is; an accepted one is stamped strictly later than the
  -- state that it replaces, whatever the clock says, under this node's own identity.
  pub perform-Outcome :
      (e : BrightnessEngine Num) (w : Write) (now : ℤ) → Outcome e (perform e w now)
  unfolding perform set_ceiling set_gain set_gain_between set_weather_gate
  perform-Outcome e (ceiling_write target fade) now =
      checked-Outcome e (validate_action_input target fade) _
        (inr (refl, bump_revision-later _ now, bump_revision-own _ now))
  perform-Outcome e (gain_write target fade) now =
      checked-Outcome e (validate_action_input target fade) _
        (inr (refl, bump_revision-later _ now, bump_revision-own _ now))
  perform-Outcome e (gain_window_write target from till) now =
      checked-Outcome e (validate_action_input target (pos 0)) _
        (elim (Bool-cases (ltb_ℤ (max_fade_seconds *ℤ pos 1000) (till -ℤ max_ℤ from now))) [
          | inl k ↦ rw k (inl (λ l. cc, refl))
          | inr k ↦ rw k (inr (refl, bump_revision-later _ now, bump_revision-own _ now))
        ])
  perform-Outcome e (gate_write closed revision) now =
      inr (refl, bump_revision-later _ now, bump_revision-own _ now)
