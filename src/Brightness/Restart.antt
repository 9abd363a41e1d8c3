-- ===== src/Brightness/Restart.antt =====
-- A restart never comes back brighter than what this host last applied, where a fade was recorded.
use showmesh_fpp_plugin.Base.{ℤ, inl, inr, false, ◌≢◌, ◌⊎◌, ◌≡◌, refl, arith}
use showmesh_fpp_plugin.Fading.{Double, settle, restore, value_at}
use showmesh_fpp_plugin.Fading.Laws.{value_at-settle, value_at-restore}
use showmesh_fpp_plugin.Brightness.State.{
  BrightnessState, BrightnessEngine, Digest, adopted, clamp_percent,
}
use showmesh_fpp_plugin.Brightness.Restore.{
  FadeWindowShape, none_recorded, implausible, candidate, classify_fade_window, min_num,
  resume_fade, settle_darker, resume_state, restore_gate, restore_from_persisted,
}

shape-cases : (w : FadeWindowShape) → (w ≡ none_recorded) ⊎ (w ≢ none_recorded)
shape-cases none_recorded = inl refl
shape-cases implausible = inr (λ e. cc)
shape-cases candidate = inr (λ e. cc)

module _ (d : Double) where
  open d use {Num, lt, lt_irrefl, lt_asymm}

  min_num-le : (a b : Num) → (lt a (min_num d a b) ≡ false) × (lt b (min_num d a b) ≡ false)
  unfolding min_num
  min_num-le a b = ground (arith, lt_irrefl a, lt_irrefl b, lt_asymm b a)

  settled :
      (applied target : Num) (now : ℤ)
      → lt applied (value_at d (settle (min_num d applied target)) now) ≡ false
  settled applied target now =
      rw (value_at-settle d (min_num d applied target) now) (min_num-le applied target).0

  -- The value that a resumed fade shows at the restart.
  resume_fade-le :
      (start target applied : Num) (from till persisted_at now : ℤ)
      → classify_fade_window from till ≢ none_recorded
      → lt
          (clamp_percent d applied)
          (value_at d (resume_fade d start target from till applied persisted_at now) now)
        ≡ false
  unfolding resume_fade
  resume_fade-le start target applied from till persisted_at now h =
      let resumed = restore (clamp_percent d start) (clamp_percent d target) from till in
      let safe = min_num d (clamp_percent d applied) (clamp_percent d target) in
      ground (
        arith,
        value_at-settle d safe now,
        value_at-settle d (clamp_percent d applied) now,
        min_num-le (clamp_percent d applied) (clamp_percent d target),
        lt_irrefl (clamp_percent d applied),
        value_at-restore d (clamp_percent d applied) (clamp_percent d target) now till,
      )

  resume_fade-none :
      (start target applied : Num) (from till persisted_at now t : ℤ)
      → classify_fade_window from till ≡ none_recorded
      → value_at d (resume_fade d start target from till applied persisted_at now) t
        ≡ clamp_percent d target
  unfolding resume_fade
  resume_fade-none start target applied from till persisted_at now t h =
      ground (arith, value_at-settle d (clamp_percent d target) t)

  -- The value shown is no brighter than what was applied, or no fade was recorded and it is the
  -- recorded target.
  abbrev pub NotBrighter : Num → Num → FadeWindowShape → Num → Type 0
  NotBrighter applied target shape shown =
      (lt (clamp_percent d applied) shown ≡ false)
      ⊎ ((shape ≡ none_recorded) × (shown ≡ clamp_percent d target))

  resume_fade-NotBrighter :
      (start target applied : Num) (from till persisted_at now : ℤ)
      → NotBrighter applied target
          (classify_fade_window from till)
          (value_at d (resume_fade d start target from till applied persisted_at now) now)
  resume_fade-NotBrighter start target applied from till persisted_at now =
      elim (shape-cases (classify_fade_window from till)) [
        | inl h ↦ inr (h, resume_fade-none start target applied from till persisted_at now now h)
        | inr h ↦ inl (resume_fade-le start target applied from till persisted_at now h)
      ]

  module _ (digest : Digest Num) (e : BrightnessEngine Num) (s : BrightnessState Num)
      (now : ℤ) where
    restore-cases :
        let e₁ = restore_gate d e s in
        let r = restore_from_persisted d digest e s now in
        (r.1 ≡ settle_darker d e₁ s) ⊎ (r ≡ (adopted, resume_state d digest e₁ s now))
    unfolding restore_from_persisted
    restore-cases = ground arith

    -- What is shown right after a restart, the ceiling and then the gain: where the record holds a
    -- fade, plausible or not, a value no brighter than the one last applied; where it holds none, such
    -- a value or the recorded target, even one above the value last applied.
    -- The weather gate is the recorded one, whether or not the rest of the record is accepted.
    pub restore-never_brighter :
        let e' = (restore_from_persisted d digest e s now).1 in
        NotBrighter s.last_applied_ceiling s.ceiling_target
          (classify_fade_window s.ceiling_fade_start_millis s.ceiling_fade_end_millis)
          (value_at d e'.ceiling now)
        × NotBrighter s.last_applied_gain s.gain_target
            (classify_fade_window s.gain_fade_start_millis s.gain_fade_end_millis)
            (value_at d e'.gain now)
        × (e'.gate_closed ≡ s.weather_gate_closed)
    unfolding settle_darker resume_state restore_gate
    restore-never_brighter = elim restore-cases [
      | inl h ↦ rw h (inl (settled _ _ now), inl (settled _ _ now), refl)
      | inr h ↦
          rw h
            (resume_fade-NotBrighter _ _ _ _ _ _ now, resume_fade-NotBrighter _ _ _ _ _ _ now, refl)
    ]
