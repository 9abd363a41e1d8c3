-- ===== src/Witnesses/Engine.antt =====
-- The brightness engine.
use mathlib.Core.List.{Memᴰ}
use showmesh_fpp_plugin.Base.{
  ℕ, ◌≤◌, ℤ, pos, pos_part, ◌≤ℤ◌, ◌+ℤ◌, ◌-ℤ◌, true, false, ◌≡◌, ◌≢◌, refl, sym, ◌∙◌, ap, ◌⊎◌, inl,
  none, List, [], ◌∷◌, if◌then◌else◌, get_or, length, arith,
}
use showmesh_fpp_plugin.Fading.{value_at}
use showmesh_fpp_plugin.Ranges.{
  scale_spans, scale_byte, validate_ranges, validate_one_list, check_each, check_sorted,
  sort_ranges,
}
use showmesh_fpp_plugin.Ranges.Selection.{selected}
use showmesh_fpp_plugin.Brightness.State.{
  new_engine, BrightnessEngine, max_percent, max_weather_gate_revision, timestamp_is_plausible,
}
use showmesh_fpp_plugin.Brightness.Commands.{
  configure_ranges, set_weather_gate, effective_percent_at, apply_to_frame,
}
use showmesh_fpp_plugin.Brightness.Adopt.{
  held_key, incoming_key, adopt_state, fade_window_is_plausible, screen,
}
use showmesh_fpp_plugin.Brightness.Restore.{restore_from_persisted, classify_fade_window}
use showmesh_fpp_plugin.Brightness.Convergence.{
  Shared, shared, offer, receive, IsAcceptable, Delivery, receive-converge,
}
use showmesh_fpp_plugin.Brightness.Restart.{NotBrighter, restore-never_brighter}
use showmesh_fpp_plugin.Brightness.Gate.{adopt_state-keeps_closed, set_weather_gate-survives}
use showmesh_fpp_plugin.Brightness.Local.{ceiling_write, perform, Outcome, perform-Outcome}
use showmesh_fpp_plugin.Brightness.Output.{
  IsConfigured, shown_byte, effective_percent_at-bounds, apply_to_frame-selected,
}
use showmesh_fpp_plugin.Brightness.Configure.{IsCurrent, configure_ranges-selected}
use showmesh_fpp_plugin.Brightness.Run.{
  adopt, live, then_live, still, start, then_step, configure, Run-IsCurrent, LiveRun-stays_closed,
}
use showmesh_fpp_plugin.Witnesses.{whole, listed, four_but_one, node, state, later}
use showmesh_fpp_plugin.Witnesses.Parts.{four_but_one-ConfigNoWrap, four_but_one-valid}

node-IsConfigured : IsConfigured node
node-IsConfigured = record {
  fits = four_but_one-ConfigNoWrap;
  counted = omega arith;
  countable = omega arith;
  validated = four_but_one-valid;
  current = inl refl;
}

abbrev channels : List ℕ
channels = 200 ∷ 201 ∷ 202 ∷ []

configure_ranges-selected_example :
    let (error, e') = configure_ranges node four_but_one 8 in
    (error ≡ validate_ranges four_but_one 8)
    × (((error ≢ none) × (e' ≡ node))
        ⊎ ((error ≡ none)
            × (e'.ranges ≡ four_but_one)
            × (e'.total_channels ≡ 8)
            × (get_or (scale_spans 50 e'.scaled_spans channels) 2 0
                ≡ (if selected four_but_one 8 3 then scale_byte 50 202 else 202))))
configure_ranges-selected_example =
    configure_ranges-selected node four_but_one 8 50 channels 2 four_but_one-ConfigNoWrap
      (omega arith) (omega arith)

apply_to_frame-selected_example :
    (length (apply_to_frame whole node channels (pos 1500)).1 ≡ 3)
    × (get_or (apply_to_frame whole node channels (pos 1500)).1 2 0
        ≡ shown_byte true
            (selected four_but_one 8 3)
            (pos_part (effective_percent_at whole node (pos 1500)))
            202)
apply_to_frame-selected_example =
    apply_to_frame-selected whole node channels (pos 1500) 2 node-IsConfigured
      (omega arith, (omega arith, (omega arith, tt)))

effective_percent_at-bounds_example :
    (pos 0 ≤ℤ effective_percent_at whole node (pos 1500))
    × (effective_percent_at whole node (pos 1500) ≤ℤ max_percent)
effective_percent_at-bounds_example = effective_percent_at-bounds whole node (pos 1500)

restore-never_brighter_example :
    NotBrighter whole
      (pos 40)
      (pos 40)
      (classify_fade_window (pos 0) (pos 0))
      (value_at whole (restore_from_persisted whole listed node state later).1.ceiling later)
    × NotBrighter whole
        (pos 95)
        (pos 90)
        (classify_fade_window (pos 978393600000) (pos 978393601000))
        (value_at whole (restore_from_persisted whole listed node state later).1.gain later)
    × ((restore_from_persisted whole listed node state later).1.gate_closed ≡ false)
restore-never_brighter_example = restore-never_brighter whole listed node state later

adopt_state-keeps_closed_example :
    ((adopt_state whole listed node state later).1.gate_closed ≡ true)
    × (3 ≤ (adopt_state whole listed node state later).1.gate_revision)
    × ((adopt_state whole listed node state later).1.gate_revision ≤ max_weather_gate_revision)
adopt_state-keeps_closed_example =
    adopt_state-keeps_closed whole listed node state later refl (omega arith)

set_weather_gate-survives_example :
    (adopt_state whole listed
      (set_weather_gate whole listed node false 9 later)
      state
      later).1.gate_closed
    ≡ false
set_weather_gate-survives_example =
    set_weather_gate-survives whole listed node state false 9 later later (omega arith)
      (omega arith)

perform-Outcome_example :
    Outcome whole listed node (perform whole listed node (ceiling_write (pos 30) (pos 5)) (pos 10))
perform-Outcome_example =
    perform-Outcome whole listed node (ceiling_write (pos 30) (pos 5)) (pos 10)

-- As constructed: no ranges, no spans, no channel count.
abbrev unconfigured : BrightnessEngine ℤ
unconfigured = new_engine whole

unconfigured-IsCurrent : IsCurrent unconfigured
unfolding new_engine validate_ranges validate_one_list check_each check_sorted sort_ranges
unconfigured-IsCurrent = record { validated = refl; current = inl refl }

abbrev reconfigured : BrightnessEngine ℤ
reconfigured = (configure_ranges unconfigured four_but_one 8).1

Run-IsCurrent_example : IsCurrent (adopt_state whole listed reconfigured state later).1
Run-IsCurrent_example =
    Run-IsCurrent whole listed
      (then_step (then_step start (live (configure unconfigured four_but_one 8)))
        (live (adopt reconfigured state later)))
      unconfigured-IsCurrent

LiveRun-stays_closed_example : (adopt_state whole listed node state later).1.gate_closed ≡ true
LiveRun-stays_closed_example =
    LiveRun-stays_closed whole listed (then_live still (adopt node state later)) refl (omega arith)

abbrev delivery : List (Delivery ℤ)
delivery = (state, later) ∷ []

abbrev twice : List (Delivery ℤ)
twice = (state, later) ∷ (state, later) ∷ []

abbrev held : Shared ℤ
held = shared node

abbrev offered : Shared ℤ
offered = offer whole listed state

arrives : IsAcceptable (state, later)
unfolding screen timestamp_is_plausible fade_window_is_plausible ◌+ℤ◌ ◌-ℤ◌
arrives = (refl, refl)

repeated : (u : Shared ℤ) → Memᴰ u (held ∷ offered ∷ []) → Memᴰ u (held ∷ offered ∷ offered ∷ [])
repeated u (Memᴰ.head e) = Memᴰ.head e
repeated u (Memᴰ.tail (Memᴰ.head e)) = Memᴰ.tail (Memᴰ.head e)
repeated u (Memᴰ.tail (Memᴰ.tail m)) = elim m [ ]

once : (u : Shared ℤ) → Memᴰ u (held ∷ offered ∷ offered ∷ []) → Memᴰ u (held ∷ offered ∷ [])
once u (Memᴰ.head e) = Memᴰ.head e
once u (Memᴰ.tail (Memᴰ.head e)) = Memᴰ.tail (Memᴰ.head e)
once u (Memᴰ.tail (Memᴰ.tail (Memᴰ.head e))) = Memᴰ.tail (Memᴰ.head e)
once u (Memᴰ.tail (Memᴰ.tail (Memᴰ.tail m))) = elim m [ ]

keys_differ : held.key ≢ offered.key
unfolding shared offer held_key incoming_key
keys_differ e =
    let at : pos_part held.key.changed_at ≡ pos_part offered.key.changed_at =
      ap (λ k. pos_part k.changed_at) e in
    omega (arith, at)

one_each :
    (u u' : Shared ℤ)
    → Memᴰ u (held ∷ offered ∷ [])
    → Memᴰ u' (held ∷ offered ∷ [])
    → u.key ≡ u'.key
    → u ≡ u'
one_each u u' (Memᴰ.head e) (Memᴰ.head e') k = e ∙ sym e'
one_each u u' (Memᴰ.head e) (Memᴰ.tail (Memᴰ.head e')) k =
    absurd (keys_differ (sym (ap (λ s. s.key) e) ∙ k ∙ ap (λ s. s.key) e'))
one_each u u' (Memᴰ.tail (Memᴰ.head e)) (Memᴰ.head e') k =
    absurd (keys_differ (sym (ap (λ s. s.key) e') ∙ sym k ∙ ap (λ s. s.key) e))
one_each u u' (Memᴰ.tail (Memᴰ.head e)) (Memᴰ.tail (Memᴰ.head e')) k = e ∙ sym e'
one_each u u' (Memᴰ.head e) (Memᴰ.tail (Memᴰ.tail m)) k = elim m [ ]
one_each u u' (Memᴰ.tail (Memᴰ.head e)) (Memᴰ.tail (Memᴰ.tail m)) k = elim m [ ]
one_each u u' (Memᴰ.tail (Memᴰ.tail m)) m' k = elim m [ ]

receive-converge_example :
    shared (receive whole listed node delivery) ≡ shared (receive whole listed node twice)
receive-converge_example =
    receive-converge whole listed node node delivery twice (arrives, tt) (arrives, (arrives, tt))
      repeated once one_each
