-- ===== src/Brightness/Convergence.antt =====
-- adoptState as a merge: nodes that have received the same states hold the same shared state,
-- whatever the order, the repetitions and the arrival times.
use mathlib.Core.List.{Memᴰ}
use showmesh_fpp_plugin.Base.{
  ℤ, pos, true, false, ◌&&◌, ltb, Bool-cases, inl, inr, ◌⊎◌, if◌then◌else◌, ◌≡◌, refl, sym, ◌∙◌, ap,
  List, [], ◌∷◌, All, arith,
}
use showmesh_fpp_plugin.Fading.{Double, FadingValue, restore}
use showmesh_fpp_plugin.Brightness.State.{
  brightness_state_schema_version, BrightnessState, BrightnessEngine, Digest, adopted,
  timestamp_is_plausible, clamp_percent,
}
use showmesh_fpp_plugin.Brightness.Adopt.{
  OrderingKey, newer, held_key, incoming_key, adopt_gate, screen, take_state, adopt_state,
}
use showmesh_fpp_plugin.Brightness.Order.{newer_irrefl, newer_asymm, newer_connex, not_newer_trans}

-- What an engine shares with its group.
pub record Shared (Num : Type 0) : Type 0 where
  pub key : OrderingKey
  pub ceiling : FadingValue Num
  pub gain : FadingValue Num
  pub ceiling_changed_at_millis : ℤ

module _ {Num : Type 0} where
  unfoldable pub shared : BrightnessEngine Num → Shared Num
  shared e = record {
    key = held_key e;
    ceiling = e.ceiling;
    gain = e.gain;
    ceiling_changed_at_millis = e.ceiling_changed_at_millis;
  }

  merge : Shared Num → Shared Num → Shared Num
  merge v w = if newer w.key v.key then w else v

  merge_all : Shared Num → List (Shared Num) → Shared Num
  merge_all v [] = v
  merge_all v (w ∷ ws) = merge_all (merge v w) ws

  merge-eq : (v w : Shared Num) → (merge v w ≡ v) ⊎ (merge v w ≡ w)
  unfolding merge
  merge-eq v w = elim (Bool-cases (newer w.key v.key)) [ inl h ↦ inr (rw h) | inr h ↦ inl (rw h) ]

  -- Neither view outranks the merge.
  merge_bounds :
      (v w : Shared Num)
      → (newer v.key (merge v w).key ≡ false) × (newer w.key (merge v w).key ≡ false)
  unfolding merge
  merge_bounds v w = elim (Bool-cases (newer w.key v.key)) [
    | inl h ↦ rw h (newer_asymm w.key v.key h, newer_irrefl w.key)
    | inr h ↦ rw h (newer_irrefl v.key, h)
  ]

  merge_all-held : (v : Shared Num) (ws : List (Shared Num)) → Memᴰ (merge_all v ws) (v ∷ ws)
  unfolding merge_all
  merge_all-held v [] = Memᴰ.head refl
  merge_all-held v (w ∷ ws) = from_tail (merge-eq v w) (merge_all-held (merge v w) ws)
    where
      from_tail :
          {u : Shared Num}
          → (merge v w ≡ v) ⊎ (merge v w ≡ w)
          → Memᴰ u (merge v w ∷ ws)
          → Memᴰ u (v ∷ w ∷ ws)
      from_tail (inl e) (Memᴰ.head h) = Memᴰ.head (h ∙ e)
      from_tail (inr e) (Memᴰ.head h) = Memᴰ.tail (Memᴰ.head (h ∙ e))
      from_tail c (Memᴰ.tail m) = Memᴰ.tail (Memᴰ.tail m)

  merge_all-first :
      (v : Shared Num) (ws : List (Shared Num)) → newer v.key (merge_all v ws).key ≡ false
  unfolding merge_all
  merge_all-first v [] = newer_irrefl v.key
  merge_all-first v (w ∷ ws) =
      not_newer_trans v.key (merge v w).key _ (merge_bounds v w).0 (merge_all-first (merge v w) ws)

  merge_all-top :
      (v u : Shared Num) (ws : List (Shared Num))
      → Memᴰ u (v ∷ ws)
      → newer u.key (merge_all v ws).key ≡ false
  unfolding merge_all
  merge_all-top v u [] (Memᴰ.head e) = rw e (newer_irrefl v.key)
  merge_all-top v u [] (Memᴰ.tail m) = elim m [ ]
  merge_all-top v u (w ∷ ws) (Memᴰ.head e) = rw e (merge_all-first v (w ∷ ws))
  merge_all-top v u (w ∷ ws) (Memᴰ.tail (Memᴰ.head e)) = rw e (
      not_newer_trans w.key (merge v w).key _ (merge_bounds v w).1 (merge_all-first (merge v w) ws))
  merge_all-top v u (w ∷ ws) (Memᴰ.tail (Memᴰ.tail m)) =
      merge_all-top (merge v w) u ws (Memᴰ.tail m)

  -- Two nodes whose own view and received views are the same collection end with the same view, if
  -- one key stands for one view.
  merge_all_unique :
      (v v' : Shared Num) (ws ws' : List (Shared Num))
      → ((u : Shared Num) → Memᴰ u (v ∷ ws) → Memᴰ u (v' ∷ ws'))
      → ((u : Shared Num) → Memᴰ u (v' ∷ ws') → Memᴰ u (v ∷ ws))
      → ((u u' : Shared Num) → Memᴰ u (v ∷ ws) → Memᴰ u' (v ∷ ws) → u.key ≡ u'.key → u ≡ u')
      → merge_all v ws ≡ merge_all v' ws'
  merge_all_unique v v' ws ws' there back one =
      let m = merge_all-held v ws in
      let m' = back (merge_all v' ws') (merge_all-held v' ws') in
      one (merge_all v ws) (merge_all v' ws') m m' (
        newer_connex _ _ (merge_all-top v' (merge_all v ws) ws' (there (merge_all v ws) m))
          (merge_all-top v (merge_all v' ws') ws m'))

-- A state with the clock of the receiver when it arrives.
abbrev pub Delivery : Type 0 → Type 0
Delivery Num = BrightnessState Num × ℤ

module _ {Num : Type 0} where
  -- The version and screening checks of adoptState pass on arrival.
  abbrev pub IsAcceptable : Delivery Num → Type 0
  IsAcceptable (s, now) =
      (s.schema_version ≡ brightness_state_schema_version) × (screen s now ≡ adopted)

module _ (d : Double) (digest : Digest d.Num) where
  open d use {Num}

  -- The shared view that an adoption of `s` leaves.
  unfoldable pub offer : BrightnessState Num → Shared Num
  offer s = record {
    key = incoming_key digest s;
    ceiling =
        restore (clamp_percent d s.ceiling_start) (clamp_percent d s.ceiling_target)
          s.ceiling_fade_start_millis s.ceiling_fade_end_millis;
    gain =
        restore (clamp_percent d s.gain_start) (clamp_percent d s.gain_target)
          s.gain_fade_start_millis s.gain_fade_end_millis;
    ceiling_changed_at_millis =
        if timestamp_is_plausible s.ceiling_changed_at_millis
        then s.ceiling_changed_at_millis
        else pos 0;
  }

  unfoldable pub receive : BrightnessEngine Num → List (Delivery Num) → BrightnessEngine Num
  receive e [] = e
  receive e ((s, now) ∷ ds) = receive (adopt_state d digest e s now).1 ds

  abbrev pub offers : List (Delivery Num) → List (Shared Num)
  offers [] = []
  offers ((s, now) ∷ ds) = offer s ∷ offers ds

  shared-adopt_gate :
      (e : BrightnessEngine Num) (s : BrightnessState Num) → shared (adopt_gate e s) ≡ shared e
  unfolding adopt_gate shared held_key
  shared-adopt_gate e s =
      elim (Bool-cases (s.weather_gate_closed && ltb e.gate_revision s.weather_gate_revision)) [
        | inl h ↦ rw h
        | inr h ↦ rw h
      ]

  held_key-adopt_gate :
      (e : BrightnessEngine Num) (s : BrightnessState Num) → held_key (adopt_gate e s) ≡ held_key e
  unfolding shared
  held_key-adopt_gate e s = ap (λ v. v.key) (shared-adopt_gate e s)

  shared-take_state :
      (e : BrightnessEngine Num) (s : BrightnessState Num)
      → shared (take_state d digest e s) ≡ offer s
  unfolding take_state shared offer held_key incoming_key
  shared-take_state e s = refl

  screened :
      (e : BrightnessEngine Num) (s : BrightnessState Num) (now : ℤ)
      → IsAcceptable (s, now)
      → let e₁ = adopt_gate e s in
        (adopt_state d digest e s now).1
        ≡ (if newer (incoming_key digest s) (held_key e₁) then take_state d digest e₁ s else e₁)
  unfolding adopt_state
  screened e s now a = ground arith

  merge-offer :
      (e : BrightnessEngine Num) (s : BrightnessState Num)
      → merge (shared e) (offer s)
        ≡ (if newer (incoming_key digest s) (held_key e) then offer s else shared e)
  unfolding merge shared offer
  merge-offer e s = refl

  shared-adopt_state :
      (e : BrightnessEngine Num) (s : BrightnessState Num) (now : ℤ)
      → IsAcceptable (s, now)
      → shared (adopt_state d digest e s now).1 ≡ merge (shared e) (offer s)
  shared-adopt_state e s now a =
      let e₁ = adopt_gate e s in
      ap shared (screened e s now a)
      ∙ elim (Bool-cases (newer (incoming_key digest s) (held_key e₁))) [
        | inl h ↦ rw h (shared-take_state e₁ s ∙ sym (merge-offer e₁ s ∙ (rw h)) ∙ same)
        | inr h ↦ rw h (sym (merge-offer e₁ s ∙ (rw h)) ∙ same)
      ]
    where
      same : merge (shared (adopt_gate e s)) (offer s) ≡ merge (shared e) (offer s)
      same = ap (λ v. merge v (offer s)) (shared-adopt_gate e s)

  adopt_state-cases :
      (e : BrightnessEngine Num) (s : BrightnessState Num) (now : ℤ)
      → ((adopt_state d digest e s now).1 ≡ e)
        ⊎ ((adopt_state d digest e s now).1 ≡ adopt_gate e s)
        ⊎ (newer (incoming_key digest s) (held_key (adopt_gate e s)) ≡ true)
  unfolding adopt_state
  adopt_state-cases e s now = ground arith

  -- A state that does not outrank what is held changes nothing of the shared view.
  pub shared-adopt_state_stale :
      (e : BrightnessEngine Num) (s : BrightnessState Num) (now : ℤ)
      → newer (incoming_key digest s) (held_key e) ≡ false
      → shared (adopt_state d digest e s now).1 ≡ shared e
  shared-adopt_state_stale e s now h = elim (adopt_state-cases e s now) [
    | inl k ↦ ap shared k
    | inr (inl k) ↦ ap shared k ∙ shared-adopt_gate e s
    | inr (inr k) ↦ absurd (absurd_newer k)
  ]
    where
      absurd_newer : newer (incoming_key digest s) (held_key (adopt_gate e s)) ≡ true → ⊥
      absurd_newer k = ground (arith, held_key-adopt_gate e s)

  shared-receive :
      (e : BrightnessEngine Num) (ds : List (Delivery Num))
      → All IsAcceptable ds
      → shared (receive e ds) ≡ merge_all (shared e) (offers ds)
  unfolding receive merge_all
  shared-receive e [] a = refl
  shared-receive e ((s, now) ∷ ds) a =
      shared-receive (adopt_state d digest e s now).1 ds a.1
      ∙ ap (λ v. merge_all v (offers ds)) (shared-adopt_state e s now a.0)

  -- Two nodes end with the same ceiling, gain, key and ceiling stamp when what one started from and
  -- received is what the other did, in any order, with repetitions and at any times, provided the
  -- states are acceptable on arrival and one ordering key stands for one shared state.
  pub receive-converge :
      (e e' : BrightnessEngine Num) (ds ds' : List (Delivery Num))
      → All IsAcceptable ds
      → All IsAcceptable ds'
      → ((u : Shared Num) → Memᴰ u (shared e ∷ offers ds) → Memᴰ u (shared e' ∷ offers ds'))
      → ((u : Shared Num) → Memᴰ u (shared e' ∷ offers ds') → Memᴰ u (shared e ∷ offers ds))
      → ((u u' : Shared Num)
          → Memᴰ u (shared e ∷ offers ds)
          → Memᴰ u' (shared e ∷ offers ds)
          → u.key ≡ u'.key
          → u ≡ u')
      → shared (receive e ds) ≡ shared (receive e' ds')
  receive-converge e e' ds ds' a a' there back one =
      shared-receive e ds a
      ∙ merge_all_unique (shared e) (shared e') (offers ds) (offers ds') there back one
      ∙ sym (shared-receive e' ds' a')
