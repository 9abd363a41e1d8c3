-- ===== src/Route/TransitionGain.antt =====
-- native/src/transition_gain.cpp: the write of the transition gain. `d` and `r` give the same doubles:
-- `r` has floor and the conversion to an integer.
use showmesh_fpp_plugin.Base.{
  ℤ, pos, ltb, eqb_ℤ, Bool, true, false, ◌≡◌, refl, if◌then◌else◌, length, null, Option, none, some,
  Bytes, eq_bytes, eq_bytes_refl, ltb_ℤ, max_ℤ, ◌*ℤ◌, ◌-ℤ◌, ap, ◌≢◌, ◌⊎◌, inl, inr, Bool-cases,
}
use showmesh_fpp_plugin.Fading.{Double, value_at}
use showmesh_fpp_plugin.Brightness.State.{BrightnessEngine, Digest, max_fade_seconds}
use showmesh_fpp_plugin.Brightness.Commands.{
  ActionError, validate_action_input, set_gain, set_gain_between, effective_percent_at,
}
use showmesh_fpp_plugin.Json.{
  Value, Members, bool_value, number_value, string_value, object_value, no_members, member_then,
  member_of, Parsed, ok, failed, out_of_fuel,
}
use showmesh_fpp_plugin.Json.Number.{NumberText}
use showmesh_fpp_plugin.Json.Parser.{parse}
use showmesh_fpp_plugin.Codec.{Conversions}
use showmesh_fpp_plugin.Route.{
  body_limit, body_too_large, not_a_json_object, not_json, unsupported_version,
  request_id_not_a_string, request_id_empty, starts_needs_ends, refused_action, Answer, refused,
  Checked, accept, refuse, and_then, is_present, to_int_32, whole_number_member, render,
}
use showmesh_fpp_plugin.Route.Names

abbrev pub transition_gain_schema_version : ℤ
transition_gain_schema_version = pos 1

-- The window of a scheduled fade: the start, where it is given, and the end.
pub record Window : Type 0 where
  pub starts_at : Option ℤ
  pub ends_at : ℤ

pub record Request : Type 0 where
  pub request_id : Bytes
  pub target_percent : ℤ
  pub fade_seconds : ℤ
  pub window : Option Window

-- The engine, and the id last applied.
pub record RouteState (Num : Type 0) : Type 0 where
  pub engine : BrightnessEngine Num
  pub last_request_id : Bytes

Option-cases : {A : Type 0} (o : Option A) → (o ≡ none) ⊎ ((a : A) × (o ≡ some a))
Option-cases none = inl refl
Option-cases (some a) = inr (a, refl)

none-ne : {err : ActionError} → Option.some err ≢ none
none-ne h = cc

module _ (d : Double) (digest : Digest d.Num) (t : NumberText d.Num) (r : Conversions d.Num) where
  open d use {Num, of_int, lround}

  unfoldable pub request_id_of : Option (Value Num) → Checked Bytes
  request_id_of (some (string_value id)) = if null id then refuse request_id_empty else accept id
  request_id_of value = refuse request_id_not_a_string

  unfoldable pub start_of : Members Num → Option (Value Num) → Checked (Option ℤ)
  start_of o none = accept none
  start_of o (some value) =
      and_then (whole_number_member t r o Names.starts_at_ms) (λ start. accept (some start))

  unfoldable pub window_of : Members Num → Option (Value Num) → Checked (Option Window)
  window_of o (some value) = and_then (whole_number_member t r o Names.ends_at_ms) (λ end.
      and_then (start_of o (member_of o Names.starts_at_ms))
        (λ start. accept (some (record { starts_at = start; ends_at = end }))))
  window_of o none =
      if is_present (member_of o Names.starts_at_ms) then refuse starts_needs_ends else accept none

  unfoldable pub check_version : ℤ → Checked ℤ
  check_version version =
      if eqb_ℤ version transition_gain_schema_version
      then accept version
      else refuse (unsupported_version version)

  unfoldable pub check_members : Members Num → Checked Request
  check_members o = and_then (whole_number_member t r o Names.schema_version) (λ version.
      and_then (check_version version) (λ same.
        and_then (request_id_of (member_of o Names.request_id)) (λ id.
          and_then (whole_number_member t r o Names.target_percent) (λ target.
            and_then (whole_number_member t r o Names.fade_seconds) (λ seconds.
              and_then (window_of o (member_of o Names.ends_at_ms)) (λ window. accept (record {
                request_id = id;
                target_percent = target;
                fade_seconds = seconds;
                window = window;
              })))))))

  unfoldable pub check_value : Parsed (Value Num) → Checked Request
  check_value (failed problem rest) = refuse (not_json problem rest)
  check_value (ok (object_value o) rest) = check_members o
  check_value (ok value rest) = refuse not_a_json_object
  check_value out_of_fuel = refuse not_a_json_object

  unfoldable pub check_request : Bytes → Checked Request
  check_request body =
      if ltb body_limit (length body) then refuse body_too_large else check_value (parse t body)

  -- `endsAtMs` is 0 where there is no window; the members of the window stand only where it is not 0.
  unfoldable pub window_members : BrightnessEngine Num → ℤ → Members Num → Members Num
  window_members e ends_at others =
      if eqb_ℤ ends_at (pos 0)
      then others
      else member_then Names.starts_at_ms (number_value (of_int e.gain.start_millis))
          (member_then Names.ends_at_ms (number_value (of_int ends_at)) others)

  unfoldable pub render_applied : Bool → BrightnessEngine Num → ℤ → ℤ → ℤ → ℤ → ℤ → Answer
  render_applied applied e gain_start gain_target fade_seconds now ends_at = render t r (
      member_then Names.schema_version (number_value (of_int transition_gain_schema_version)) (
        member_then Names.applied (bool_value applied) (
          member_then Names.gain_start (number_value (of_int gain_start)) (
            member_then Names.gain_target (number_value (of_int gain_target)) (
              member_then Names.fade_seconds (number_value (of_int fade_seconds)) (
                window_members e ends_at (
                  member_then Names.ceiling
                    (number_value (of_int (lround (value_at d e.ceiling now))))
                    (member_then Names.effective_output
                      (number_value (of_int (effective_percent_at d e now))) no_members))))))))

  abbrev pub start_or : Option ℤ → ℤ → ℤ
  start_or none now = now
  start_or (some start) now = start

  unfoldable pub fade :
      BrightnessEngine Num → Request → Option Window → ℤ → Option ActionError × BrightnessEngine Num
  fade e q none now = set_gain d digest e (to_int_32 q.target_percent) q.fade_seconds now
  fade e q (some w) now =
      set_gain_between d digest e (to_int_32 q.target_percent) (start_or w.starts_at now) w.ends_at
        now

  abbrev pub end_or_zero : Option Window → ℤ
  end_or_zero none = pos 0
  end_or_zero (some w) = w.ends_at

  unfoldable pub finish_fade :
      RouteState Num
      → Request
      → ℤ
      → ℤ
      → Option ActionError × BrightnessEngine Num
      → Answer × RouteState Num
  finish_fade state q gain_start now (some err, e) =
      (refused (refused_action err), record state { engine = e })
  finish_fade state q gain_start now (none, e) = (
    render_applied true e gain_start (to_int_32 q.target_percent) q.fade_seconds now
        (end_or_zero q.window),
    record { engine = e; last_request_id = q.request_id },
  )

  unfoldable pub answer : RouteState Num → Checked Request → ℤ → Answer × RouteState Num
  answer state (refuse reason) now = (refused reason, state)
  answer state (accept q) now =
      let gain_now = to_int_32 (lround (value_at d state.engine.gain now)) in
      let done = finish_fade state q gain_now now (fade state.engine q q.window now) in
      if eq_bytes state.last_request_id q.request_id
      then (render_applied false state.engine gain_now gain_now q.fade_seconds now (pos 0), state)
      else done

  unfoldable pub apply_transition_gain_request :
      RouteState Num → Bytes → ℤ → Answer × RouteState Num
  apply_transition_gain_request state body now = answer state (check_request body) now

  -- A refused fade leaves the engine.
  set_gain-refused :
      (e : BrightnessEngine Num) (target seconds now : ℤ)
      → ((set_gain d digest e target seconds now).0 ≡ none)
        ⊎ ((set_gain d digest e target seconds now).1 ≡ e)
  unfolding set_gain
  set_gain-refused e target seconds now =
      elim (Option-cases (validate_action_input target seconds)) [
        | inl h ↦ rw (set_gain, h) (inl refl)
        | inr h ↦ rw (set_gain, h.1) (inr refl)
      ]

  set_gain_between-refused :
      (e : BrightnessEngine Num) (target start end now : ℤ)
      → ((set_gain_between d digest e target start end now).0 ≡ none)
        ⊎ ((set_gain_between d digest e target start end now).1 ≡ e)
  unfolding set_gain_between
  set_gain_between-refused e target start end now =
      elim (Option-cases (validate_action_input target (pos 0))) [
        | inl h ↦
            elim (Bool-cases (ltb_ℤ (max_fade_seconds *ℤ pos 1000) (end -ℤ max_ℤ start now))) [
              | inl k ↦ rw (set_gain_between, h, k) (inr refl)
              | inr k ↦ rw (set_gain_between, h, k) (inl refl)
            ]
        | inr h ↦ rw (set_gain_between, h.1) (inr refl)
      ]

  fade-refused :
      (e : BrightnessEngine Num) (q : Request) (w : Option Window) (now : ℤ)
      → ((fade e q w now).0 ≡ none) ⊎ ((fade e q w now).1 ≡ e)
  unfolding fade
  fade-refused e q none now = set_gain-refused e (to_int_32 q.target_percent) q.fade_seconds now
  fade-refused e q (some w) now =
      set_gain_between-refused e (to_int_32 q.target_percent) (start_or w.starts_at now) w.ends_at
        now

  -- What a repeat of the request finds.
  abbrev Repeats : RouteState Num → Request → RouteState Num → Type 0
  Repeats state q first = (first ≡ state) ⊎ (first.last_request_id ≡ q.request_id)

  finish_fade-Repeats :
      (state : RouteState Num) (q : Request) (gain_start now : ℤ)
      (done : Option ActionError × BrightnessEngine Num)
      → (done.0 ≡ none) ⊎ (done.1 ≡ state.engine)
      → Repeats state q (finish_fade state q gain_start now done).1
  unfolding finish_fade
  finish_fade-Repeats state q gain_start now (none, e) h = inr refl
  finish_fade-Repeats state q gain_start now (some err, e) (inl h) = absurd (none-ne h)
  finish_fade-Repeats state q gain_start now (some err, e) (inr h) =
      inl (ap (λ e'. record state { engine = e' }) h)

  answer-repeat :
      (state : RouteState Num) (checked : Checked Request) (now later : ℤ)
      → let first = (answer state checked now).1 in
        (first ≡ state) ⊎ ((answer first checked later).1 ≡ first)
  unfolding answer
  answer-repeat state (refuse reason) now later = inl refl
  answer-repeat state (accept q) now later =
      elim (Bool-cases (eq_bytes state.last_request_id q.request_id)) [
        | inl h ↦ rw h (inl refl)
        | inr h ↦
            rw h
              (elim (finish_fade-Repeats state q
                (to_int_32 (lround (value_at d state.engine.gain now))) now
                (fade state.engine q q.window now) (fade-refused state.engine q q.window now)) [
                  | inl e ↦ inl e
                  | inr e ↦ inr (rw (e, eq_bytes_refl q.request_id) refl)
                ])
      ]

  -- The same body a second time, whenever it comes, leaves the engine and the last id as the first left
  -- them, or the first had changed nothing: an applied fade is not restarted by a retry.
  pub apply_transition_gain_request-repeat :
      (state : RouteState Num) (body : Bytes) (now later : ℤ)
      → let first = (apply_transition_gain_request state body now).1 in
        (first ≡ state) ⊎ ((apply_transition_gain_request first body later).1 ≡ first)
  unfolding apply_transition_gain_request
  apply_transition_gain_request-repeat state body now later =
      answer-repeat state (check_request body) now later
