-- ===== src/Brightness/Gate.antt =====
-- The weather gate between the coordinator's writes and the peers' states.
use showmesh_fpp_plugin.Base.{ℕ, ◌≤◌, ◌<◌, ℤ, Bool, true, ◌⊎◌, ◌≡◌, arith}
use showmesh_fpp_plugin.Fading.{Double}
use showmesh_fpp_plugin.Brightness.State.{
  max_weather_gate_revision, BrightnessState, BrightnessEngine, Digest, bump_revision,
}
use showmesh_fpp_plugin.Brightness.Commands.{set_weather_gate}
use showmesh_fpp_plugin.Brightness.Adopt.{adopt_gate, take_state, adopt_state}

module _ (d : Double) (digest : Digest d.Num) where
  open d use {Num}

  -- adoptState touches the gate in its first step only.
  adopt_state-gate :
      (e : BrightnessEngine Num) (s : BrightnessState Num) (now : ℤ)
      → let e' = (adopt_state d digest e s now).1 in
        ((e'.gate_closed ≡ e.gate_closed) × (e'.gate_revision ≡ e.gate_revision))
        ⊎ ((e'.gate_closed ≡ (adopt_gate e s).gate_closed)
            × (e'.gate_revision ≡ (adopt_gate e s).gate_revision))
  unfolding adopt_state take_state
  adopt_state-gate e s now = ground arith

  -- Whatever state a peer sends, a closed gate stays closed and the stored gate revision, where it
  -- is within the largest one, does not go back and stays within it.
  pub adopt_state-keeps_closed :
      (e : BrightnessEngine Num) (s : BrightnessState Num) (now : ℤ)
      → e.gate_closed ≡ true
      → e.gate_revision ≤ max_weather_gate_revision
      → let e' = (adopt_state d digest e s now).1 in
        (e'.gate_closed ≡ true)
        × (e.gate_revision ≤ e'.gate_revision)
        × (e'.gate_revision ≤ max_weather_gate_revision)
  unfolding adopt_gate
  adopt_state-keeps_closed e s now h k = ground (arith, adopt_state-gate e s now)

  set_weather_gate-gate :
      (e : BrightnessEngine Num) (closed : Bool) (revision : ℕ) (now : ℤ)
      → e.gate_revision < max_weather_gate_revision
      → let e' = set_weather_gate d digest e closed revision now in
        (e'.gate_closed ≡ closed) × (e.gate_revision < e'.gate_revision)
  unfolding set_weather_gate bump_revision
  set_weather_gate-gate e closed revision now h = ground arith

  -- A coordinator's gate write, open or closed, survives the state of any peer whose gate revision
  -- is no later than the one that the write replaced, until the revisions are used up.
  pub set_weather_gate-survives :
      (e : BrightnessEngine Num) (s : BrightnessState Num) (closed : Bool) (revision : ℕ)
      (now t : ℤ)
      → e.gate_revision < max_weather_gate_revision
      → s.weather_gate_revision ≤ e.gate_revision
      → (adopt_state d digest (set_weather_gate d digest e closed revision now) s t).1.gate_closed
        ≡ closed
  unfolding adopt_gate
  set_weather_gate-survives e s closed revision now t h k = ground (
    arith,
    set_weather_gate-gate e closed revision now h,
    adopt_state-gate (set_weather_gate d digest e closed revision now) s t,
  )
