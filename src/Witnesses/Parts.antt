-- ===== src/Witnesses/Parts.antt =====
-- Fades, channel ranges, the handoff and the outage detector.
use showmesh_fpp_plugin.Base.{
  ℕ, ℤ, pos, ◌+ℤ◌, Bool, true, false, ◌≡◌, refl, inl, none, List, [], ◌∷◌, get_or, arith,
  if◌then◌else◌,
}
use showmesh_fpp_plugin.Fading.{value_at, fade_to, fade_between}
use showmesh_fpp_plugin.Fading.Laws.{fade_to-continuous, fade-instant, fade_between-continuous}
use showmesh_fpp_plugin.Ranges.{
  validate_ranges, validate_one_list, check_each, check_sorted, check_after, sort_ranges,
  insert_range, end_exclusive, scaled_spans, scale_spans, scale_byte,
}
use showmesh_fpp_plugin.Ranges.Selection.{ConfigNoWrap, selected, scaled_spans-selected}
use showmesh_fpp_plugin.Handoff.{
  CallbackHandoff, Call, offer_call, take_call, offer, take, run, new,
}
use showmesh_fpp_plugin.Handoff.Refinement.{
  IsValid, view, spec_offer, spec_take, spec_run, offer_refines, take_refines, run_refines,
}
use showmesh_fpp_plugin.Handoff.Accounting.{Accounts, offered_in, run-Accounts}
use showmesh_fpp_plugin.Outage.{default_config, confirmed_lost, reachable, replay}
use showmesh_fpp_plugin.Outage.Streak.{streak, is_loss, confirmed_lost-streak}
use showmesh_fpp_plugin.Witnesses.{whole, dimming, four_but_one}

fade_to-continuous_example :
    (value_at whole (fade_to whole dimming (pos 70) (pos 500) (pos 1500)) (pos 1500)
      ≡ value_at whole dimming (pos 1500))
    × (value_at whole (fade_to whole dimming (pos 70) (pos 500) (pos 1500)) (pos 2000) ≡ pos 70)
fade_to-continuous_example =
    fade_to-continuous whole dimming (pos 70) (pos 500) (pos 1500) (pos 2000) (omega arith)
      (unfold ◌+ℤ◌ in omega arith)

fade-instant_example :
    (value_at whole (fade_to whole dimming (pos 70) (pos 0) (pos 1500)) (pos 1500) ≡ pos 70)
    × (value_at whole
          (fade_between whole dimming (pos 70) (pos 900) (pos 1400) (pos 1500))
          (pos 1500)
        ≡ pos 70)
fade-instant_example =
    fade-instant whole dimming (pos 70) (pos 0) (pos 900) (pos 1400) (pos 1500) (pos 1500)
      (omega arith) (inl (omega arith))

fade_between-continuous_example :
    let next = fade_between whole dimming (pos 70) (pos 1800) (pos 2600) (pos 1500) in
    (value_at whole next (pos 1700) ≡ value_at whole dimming (pos 1500))
    × (value_at whole next (pos 1500) ≡ value_at whole dimming (pos 1500))
    × (value_at whole next (pos 2600) ≡ pos 70)
fade_between-continuous_example =
    fade_between-continuous whole dimming (pos 70) (pos 1800) (pos 2600) (pos 1500) (pos 1700)
      (pos 2600) (omega arith) (omega arith) (omega arith) (omega arith)

pub four_but_one-ConfigNoWrap : ConfigNoWrap four_but_one
four_but_one-ConfigNoWrap = record {
  apply_fits = (omega arith, tt);
  exclude_fits = (omega arith, tt);
}

pub four_but_one-valid : validate_ranges four_but_one 8 ≡ none
unfolding validate_ranges validate_one_list check_each check_sorted check_after sort_ranges
    insert_range end_exclusive
four_but_one-valid = refl

abbrev channels : List ℕ
channels = 200 ∷ 201 ∷ 202 ∷ 203 ∷ 204 ∷ []

scaled_spans-selected_example :
    get_or (scale_spans 50 (scaled_spans four_but_one 8) channels) 2 0
    ≡ (if selected four_but_one 8 3 then scale_byte 50 202 else 202)
scaled_spans-selected_example =
    scaled_spans-selected four_but_one 8 50 channels 2 four_but_one-ConfigNoWrap (omega arith)
      (omega arith) four_but_one-valid

-- A handoff of two slots.
abbrev fresh : CallbackHandoff ℕ
fresh = record { slots = 0 ∷ 0 ∷ []; capacity = 2; head = 0; size = 0; coalesced = 0; offered = 0 }

abbrev wrapped : CallbackHandoff ℕ
wrapped = record {
  slots = 9 ∷ 8 ∷ [];
  capacity = 2;
  head = 1;
  size = 2;
  coalesced = 1;
  offered = 3;
}

wrapped-IsValid : IsValid wrapped
wrapped-IsValid = omega arith

abbrev calls : List (Call ℕ)
calls =
    offer_call 5 ∷ offer_call 6 ∷ take_call ∷ offer_call 7 ∷ take_call ∷ take_call ∷ take_call ∷ []

offer_refines_example :
    (view 0 (offer 0 wrapped 10) ≡ spec_offer 2 (view 0 wrapped) 10)
    × IsValid (offer 0 wrapped 10)
    × ((offer 0 wrapped 10).capacity ≡ 2)
offer_refines_example = offer_refines 0 10 wrapped-IsValid

take_refines_example :
    (((take 0 wrapped).0, view 0 (take 0 wrapped).1) ≡ spec_take (view 0 wrapped))
    × IsValid (take 0 wrapped).1
    × ((take 0 wrapped).1.capacity ≡ 2)
take_refines_example = take_refines 0 wrapped-IsValid

run_refines_example :
    ((run 0 wrapped calls).0, view 0 (run 0 wrapped calls).1) ≡ spec_run 2 (view 0 wrapped) calls
run_refines_example = run_refines 0 calls wrapped-IsValid

run-Accounts_example :
    Accounts (offered_in calls) (run 0 (new 0 2) calls).0 (view 0 (run 0 (new 0 2) calls).1)
run-Accounts_example = run-Accounts 0 2 calls (omega arith) (omega arith)

-- An answer, then three failures over sixteen seconds, the newest first.
abbrev probes : List (Bool × ℤ)
probes = (false, pos 36000) ∷ (false, pos 28000) ∷ (false, pos 20000) ∷ (true, pos 15000) ∷ []

confirmed_lost-streak_example :
    (confirmed_lost (replay default_config probes) ≡ is_loss default_config (streak probes))
    × (reachable (replay default_config probes) ≡ (elim probes [ [] ↦ false | p ∷ ps ↦ p.0 ]))
confirmed_lost-streak_example =
    confirmed_lost-streak default_config probes (omega arith)
      (omega arith, (omega arith, (omega arith, tt)))
