-- ===== src/Brightness/Run.antt =====
-- The life of an engine as a sequence of operations: what every reachable engine satisfies, and that
-- only the coordinator opens a closed gate.
use showmesh_fpp_plugin.Base.{
  ℕ, ◌≤◌, ℤ, Bytes, Bool, true, false, not, inl, inr, ◌⊎◌, ◌≡◌, refl, List, arith,
}
use showmesh_fpp_plugin.Fading.{Double}
use showmesh_fpp_plugin.Ranges.{RangeConfig, scaled_spans}
use showmesh_fpp_plugin.Brightness.State.{
  max_weather_gate_revision, BrightnessState, BrightnessEngine, Digest, bump_revision,
  set_instance_id,
}
use showmesh_fpp_plugin.Brightness.Commands.{
  recompute_scaled_spans, configure_ranges, spans_ready, scale_frame, apply_to_frame, set_ceiling,
  set_gain, set_gain_between, set_weather_gate,
}
use showmesh_fpp_plugin.Brightness.Adopt.{adopt_gate, take_state, adopt_state}
use showmesh_fpp_plugin.Brightness.Restore.{
  settle_darker, resume_state, restore_gate, restore_from_persisted,
  settle_safe_after_untrusted_restart,
}
use showmesh_fpp_plugin.Brightness.Local.{
  Write, ceiling_write, gain_write, gain_window_write, gate_write, perform,
}
use showmesh_fpp_plugin.Brightness.Gate.{adopt_state-keeps_closed}
use showmesh_fpp_plugin.Brightness.Configure.{IsCurrent, configure_ranges-Holds}

-- The members that only configureRanges writes, with the spans made of them.
record SameRanges {Num : Type 0} (e e' : BrightnessEngine Num) : Type 0 where
  ranges : e'.ranges ≡ e.ranges
  total : e'.total_channels ≡ e.total_channels
  spans : e'.scaled_spans ≡ e.scaled_spans

module _ {Num : Type 0} where
  SameRanges-IsCurrent :
      {e e' : BrightnessEngine Num} → SameRanges e e' → IsCurrent e → IsCurrent e'
  SameRanges-IsCurrent {e} {e'} s c = record {
    validated = rw (s.ranges, s.total) c.validated;
    current = rw (s.spans, s.ranges, s.total) c.current;
  }

-- Whether a write is the coordinator's order to open the gate.
abbrev pub opens : Write → Bool
opens (gate_write closed revision) = not closed
opens (ceiling_write target fade) = false
opens (gain_write target fade) = false
opens (gain_window_write target from till) = false

module _ (d : Double) (digest : Digest d.Num) where
  open d use {Num}

  -- One operation of a running engine, other than an order to open the gate.
  pub data LiveStep : BrightnessEngine Num → BrightnessEngine Num → Type 0 where
    write :
        (e : BrightnessEngine Num) (w : Write) (now : ℤ)
        → opens w ≡ false
        → LiveStep e (perform d digest e w now).1
    adopt :
        (e : BrightnessEngine Num) (s : BrightnessState Num) (now : ℤ)
        → LiveStep e (adopt_state d digest e s now).1
    frame :
        (e : BrightnessEngine Num) (channels : List ℕ) (now : ℤ)
        → LiveStep e (apply_to_frame d e channels now).0
    configure :
        (e : BrightnessEngine Num) (config : RangeConfig) (total : ℕ)
        → LiveStep e (configure_ranges e config total).1
    name : (e : BrightnessEngine Num) (id : Bytes) → LiveStep e (set_instance_id e id)

  -- Any operation: a live one, an order to open the gate, and the two restarts.
  pub data Step : BrightnessEngine Num → BrightnessEngine Num → Type 0 where
    live : {e e' : BrightnessEngine Num} → LiveStep e e' → Step e e'
    open_gate :
        (e : BrightnessEngine Num) (revision : ℕ) (now : ℤ)
        → Step e (set_weather_gate d digest e false revision now)
    restart :
        (e : BrightnessEngine Num) (s : BrightnessState Num) (now : ℤ)
        → Step e (restore_from_persisted d digest e s now).1
    settle_safe :
        (e : BrightnessEngine Num) (percent now : ℤ) (closed : Bool) (revision : ℕ)
        → Step e (settle_safe_after_untrusted_restart d digest e percent now closed revision)

  pub data LiveRun (e : BrightnessEngine Num) : BrightnessEngine Num → Type 0 where
    still : LiveRun e e
    then_live : {e₁ e₂ : BrightnessEngine Num} → LiveRun e e₁ → LiveStep e₁ e₂ → LiveRun e e₂

  pub data Run (e : BrightnessEngine Num) : BrightnessEngine Num → Type 0 where
    start : Run e e
    then_step : {e₁ e₂ : BrightnessEngine Num} → Run e e₁ → Step e₁ e₂ → Run e e₂

  bump_revision-SameRanges :
      (e : BrightnessEngine Num) (now : ℤ) → SameRanges e (bump_revision digest e now)
  unfolding bump_revision
  bump_revision-SameRanges e now = record { ranges = refl; total = refl; spans = refl }

  perform-SameRanges :
      (e : BrightnessEngine Num) (w : Write) (now : ℤ) → SameRanges e (perform d digest e w now).1
  unfolding perform set_ceiling set_gain set_gain_between set_weather_gate bump_revision
  perform-SameRanges e (ceiling_write target fade) now = ground arith
  perform-SameRanges e (gain_write target fade) now = ground arith
  perform-SameRanges e (gain_window_write target from till) now = ground arith
  perform-SameRanges e (gate_write closed revision) now = ground arith

  adopt_state-SameRanges :
      (e : BrightnessEngine Num) (s : BrightnessState Num) (now : ℤ)
      → SameRanges e (adopt_state d digest e s now).1
  unfolding adopt_state adopt_gate take_state
  adopt_state-SameRanges e s now = ground arith

  restore-SameRanges :
      (e : BrightnessEngine Num) (s : BrightnessState Num) (now : ℤ)
      → SameRanges e (restore_from_persisted d digest e s now).1
  unfolding restore_from_persisted settle_darker resume_state restore_gate
  restore-SameRanges e s now = ground arith

  settle-SameRanges :
      (e : BrightnessEngine Num) (percent now : ℤ) (closed : Bool) (revision : ℕ)
      → SameRanges e (settle_safe_after_untrusted_restart d digest e percent now closed revision)
  unfolding settle_safe_after_untrusted_restart bump_revision
  settle-SameRanges e percent now closed revision = ground arith

  -- A frame may compute the spans, and changes nothing else of the configuration.
  apply_to_frame-ranges :
      (e : BrightnessEngine Num) (channels : List ℕ) (now : ℤ)
      → let e' = (apply_to_frame d e channels now).0 in
        (e'.ranges ≡ e.ranges)
        × (e'.total_channels ≡ e.total_channels)
        × ((e'.scaled_spans ≡ e.scaled_spans)
            ⊎ (e'.scaled_spans ≡ scaled_spans e.ranges e.total_channels))
  unfolding apply_to_frame scale_frame spans_ready recompute_scaled_spans
  apply_to_frame-ranges e channels now = ground arith

  set_instance_id-SameRanges :
      (e : BrightnessEngine Num) (id : Bytes) → SameRanges e (set_instance_id e id)
  unfolding set_instance_id
  set_instance_id-SameRanges e id = record { ranges = refl; total = refl; spans = refl }

  apply_to_frame-IsCurrent :
      (e : BrightnessEngine Num) (channels : List ℕ) (now : ℤ)
      → IsCurrent e
      → IsCurrent (apply_to_frame d e channels now).0
  apply_to_frame-IsCurrent e channels now c =
      let (r, t, s) = apply_to_frame-ranges e channels now in
      record { validated = rw (r, t) c.validated; current = ground arith }

  LiveStep-IsCurrent : {e e' : BrightnessEngine Num} → LiveStep e e' → IsCurrent e → IsCurrent e'
  LiveStep-IsCurrent (write e w now o) c = SameRanges-IsCurrent (perform-SameRanges e w now) c
  LiveStep-IsCurrent (adopt e s now) c = SameRanges-IsCurrent (adopt_state-SameRanges e s now) c
  LiveStep-IsCurrent (frame e channels now) c = apply_to_frame-IsCurrent e channels now c
  LiveStep-IsCurrent (configure e config total) c = elim (configure_ranges-Holds e config total).1 [
    | inl refused ↦ rw refused.1 c
    | inr accepted ↦ accepted.2
  ]
  LiveStep-IsCurrent (name e id) c = SameRanges-IsCurrent (set_instance_id-SameRanges e id) c

  set_weather_gate-SameRanges :
      (e : BrightnessEngine Num) (closed : Bool) (revision : ℕ) (now : ℤ)
      → SameRanges e (set_weather_gate d digest e closed revision now)
  unfolding set_weather_gate bump_revision
  set_weather_gate-SameRanges e closed revision now = ground arith

  Step-IsCurrent : {e e' : BrightnessEngine Num} → Step e e' → IsCurrent e → IsCurrent e'
  Step-IsCurrent (live s) c = LiveStep-IsCurrent s c
  Step-IsCurrent (open_gate e revision now) c =
      SameRanges-IsCurrent (set_weather_gate-SameRanges e false revision now) c
  Step-IsCurrent (restart e s now) c = SameRanges-IsCurrent (restore-SameRanges e s now) c
  Step-IsCurrent (settle_safe e percent now closed revision) c =
      SameRanges-IsCurrent (settle-SameRanges e percent now closed revision) c

  -- From an engine as it is constructed, with no ranges and no spans, or any other whose ranges pass
  -- validateRanges over its channel count and whose spans are empty or those of the two, every sequence
  -- of operations, with any arguments, ends in such an engine: no operation leaves spans of an earlier
  -- configuration, or ranges that were refused.
  pub Run-IsCurrent : {e e' : BrightnessEngine Num} → Run e e' → IsCurrent e → IsCurrent e'
  Run-IsCurrent start c = c
  Run-IsCurrent (then_step r s) c = Step-IsCurrent s (Run-IsCurrent r c)

  -- The gate is closed and its revision within bounds.
  record IsShut (e : BrightnessEngine Num) : Type 0 where
    closed : e.gate_closed ≡ true
    bounded : e.gate_revision ≤ max_weather_gate_revision

  perform-IsShut :
      (e : BrightnessEngine Num) (w : Write) (now : ℤ)
      → opens w ≡ false
      → IsShut e
      → IsShut (perform d digest e w now).1
  unfolding perform set_ceiling set_gain set_gain_between set_weather_gate bump_revision
  perform-IsShut e (ceiling_write target fade) now o h = ground arith
  perform-IsShut e (gain_write target fade) now o h = ground arith
  perform-IsShut e (gain_window_write target from till) now o h = ground arith
  perform-IsShut e (gate_write closed revision) now o h = ground arith

  apply_to_frame-IsShut :
      (e : BrightnessEngine Num) (channels : List ℕ) (now : ℤ)
      → IsShut e
      → IsShut (apply_to_frame d e channels now).0
  unfolding apply_to_frame scale_frame spans_ready recompute_scaled_spans
  apply_to_frame-IsShut e channels now h = ground arith

  configure-IsShut :
      (e : BrightnessEngine Num) (config : RangeConfig) (total : ℕ)
      → IsShut e
      → IsShut (configure_ranges e config total).1
  unfolding configure_ranges recompute_scaled_spans
  configure-IsShut e config total h = ground arith

  set_instance_id-IsShut :
      (e : BrightnessEngine Num) (id : Bytes) → IsShut e → IsShut (set_instance_id e id)
  unfolding set_instance_id
  set_instance_id-IsShut e id h = record { closed = h.closed; bounded = h.bounded }

  LiveStep-IsShut : {e e' : BrightnessEngine Num} → LiveStep e e' → IsShut e → IsShut e'
  LiveStep-IsShut (write e w now o) h = perform-IsShut e w now o h
  LiveStep-IsShut (adopt e s now) h =
      let k = adopt_state-keeps_closed d digest e s now h.closed h.bounded in
      record { closed = k.0; bounded = k.2 }
  LiveStep-IsShut (frame e channels now) h = apply_to_frame-IsShut e channels now h
  LiveStep-IsShut (configure e config total) h = configure-IsShut e config total h
  LiveStep-IsShut (name e id) h = set_instance_id-IsShut e id h

  LiveRun-IsShut : {e e' : BrightnessEngine Num} → LiveRun e e' → IsShut e → IsShut e'
  LiveRun-IsShut still h = h
  LiveRun-IsShut (then_live r s) h = LiveStep-IsShut s (LiveRun-IsShut r h)

  -- A closed gate whose revision is within its bound stays closed through any sequence of writes of
  -- this host, peers' states, frames, configurations and instance ids, with any arguments, none of which is the
  -- coordinator's order to open it.
  pub LiveRun-stays_closed :
      {e e' : BrightnessEngine Num}
      → LiveRun e e'
      → e.gate_closed ≡ true
      → e.gate_revision ≤ max_weather_gate_revision
      → e'.gate_closed ≡ true
  LiveRun-stays_closed r h k = (LiveRun-IsShut r (record { closed = h; bounded = k })).closed
