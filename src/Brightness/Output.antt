-- ===== src/Brightness/Output.antt =====
-- The composed percentage and the frame: bounds, the gate, and which channels are scaled by what.
use showmesh_fpp_plugin.Base.{
  ℕ, zero, suc, ◌+◌, ◌*◌, ◌^◌, ◌≤◌, ◌<◌, ℤ, pos, pos_part, eqb_ℤ, eqb_ℤ→eq, ◌≤ℤ◌, Bool, false,
  Bool-cases, inl, inr, ◌⊎◌, if◌then◌else◌, ◌≡◌, refl, ap, List, [], ◌∷◌, All, length, get_or,
  get_or-out, none, arith,
}
use showmesh_fpp_plugin.Fading.{Double, value_at}
use showmesh_fpp_plugin.Ranges
use showmesh_fpp_plugin.Ranges.{scale_byte, scale_spans, validate_ranges}
use showmesh_fpp_plugin.Ranges.Frame.{scale_byte-zero, length-scale_spans}
use showmesh_fpp_plugin.Ranges.Selection.{selected, ConfigNoWrap, scaled_spans-selected}
use showmesh_fpp_plugin.Brightness.State.{max_percent, BrightnessEngine, clamp_percent}
use showmesh_fpp_plugin.Brightness.Commands.{
  recompute_scaled_spans, spans_ready, fill_zero, effective_percent_at, scale_frame, apply_to_frame,
}

module _ (d : Double) where
  open d use {Num, lt, of_int, mul, div, lround, lt_irrefl, lround_mono, lround-of_int, lt-of_int}

  clamp_percent-bounds :
      (v : Num)
      → lt (of_int max_percent) (of_int (pos 0)) ≡ false
      → (lt (clamp_percent d v) (of_int (pos 0)) ≡ false)
        × (lt (of_int max_percent) (clamp_percent d v) ≡ false)
  unfolding clamp_percent
  clamp_percent-bounds v h =
      ground (arith, lt_irrefl (of_int (pos 0)), lt_irrefl (of_int max_percent))

  of_int-order : lt (of_int max_percent) (of_int (pos 0)) ≡ false
  of_int-order = lt-of_int max_percent (pos 0) (omega arith, omega arith) (omega arith, omega arith)

  -- Whatever finite doubles the two fades hold, where the arithmetic on them stays finite, and for any
  -- time, the composed percentage lies between 0 and 100.
  pub effective_percent_at-bounds :
      (e : BrightnessEngine Num) (now : ℤ)
      → (pos 0 ≤ℤ effective_percent_at d e now) × (effective_percent_at d e now ≤ℤ max_percent)
  unfolding effective_percent_at
  effective_percent_at-bounds e now =
      let composed =
        clamp_percent d
          (div (mul (value_at d e.ceiling now) (value_at d e.gain now)) (of_int (pos 100))) in
      ground (
        arith,
        clamp_percent-bounds
            (div (mul (value_at d e.ceiling now) (value_at d e.gain now)) (of_int (pos 100)))
            of_int-order,
        lt_irrefl (of_int (pos 0)),
        lt_irrefl (of_int max_percent),
        lround_mono (of_int (pos 0)) composed,
        lround_mono composed (of_int max_percent),
        lround-of_int max_percent (omega arith, omega arith),
        lround-of_int (pos 0) (omega arith, omega arith),
      )

abbrev pub IsByte : ℕ → Type 0
IsByte b = b < 256

mul-le : (b p q : ℕ) → p ≤ q → b * p ≤ b * q
mul-le b p q h = grind arith

-- Below 100 percent a byte gets no brighter, at 100 percent it is kept, and it stays a byte.
scale_byte-le :
    (p b : ℕ) → p ≤ 100 → IsByte b → (scale_byte p b ≤ b) × (p ≡ 100 → scale_byte p b ≡ b)
unfolding scale_byte
scale_byte-le p b h k = (omega (arith, mul-le b p 100 h), λ e. rw e (omega arith))

get_or-IsByte : (frame : List ℕ) (i : ℕ) → All IsByte frame → IsByte (get_or frame i 0)
get_or-IsByte [] i h = omega arith
get_or-IsByte (b ∷ frame) zero h = h.0
get_or-IsByte (b ∷ frame) (suc i) h = get_or-IsByte frame i h.1

fill_zero_lem :
    (frame : List ℕ) (i : ℕ)
    → (length (fill_zero frame) ≡ length frame) × (get_or (fill_zero frame) i 0 ≡ 0)
unfolding fill_zero
fill_zero_lem [] i = (refl, refl)
fill_zero_lem (b ∷ frame) zero = (ap suc (fill_zero_lem frame zero).0, refl)
fill_zero_lem (b ∷ frame) (suc i) = (ap suc (fill_zero_lem frame i).0, (fill_zero_lem frame i).1)

-- The engine's ranges pass validateRanges over its channel count, none of their 32-bit ends wraps, the
-- count lies between 1 and 2^32 - 2, and the spans are those of the two, or not computed yet.
pub record IsConfigured {Num : Type 0} (e : BrightnessEngine Num) : Type 0 where
  pub fits : ConfigNoWrap e.ranges
  pub counted : 0 < e.total_channels
  pub countable : e.total_channels + 1 < 2 ^ 32
  pub validated : validate_ranges e.ranges e.total_channels ≡ none
  pub current :
      (e.scaled_spans ≡ []) ⊎ (e.scaled_spans ≡ Ranges.scaled_spans e.ranges e.total_channels)

spans_ready-current :
    {Num : Type 0} (e : BrightnessEngine Num)
    → IsConfigured e
    → (spans_ready e).scaled_spans ≡ Ranges.scaled_spans e.ranges e.total_channels
unfolding spans_ready recompute_scaled_spans
spans_ready-current e c = ground arith

-- One byte of the frame as the documentation describes it.
abbrev pub shown_byte : Bool → Bool → ℕ → ℕ → ℕ
shown_byte closed chosen percent b =
    if closed then 0 else if chosen then scale_byte percent b else b

module _ (d : Double) where
  open d use {Num}

  scale_frame-selected :
      (e : BrightnessEngine Num) (frame : List ℕ) (now : ℤ) (i : ℕ)
      → IsConfigured e
      → All IsByte frame
      → let out = (scale_frame d e frame now).1 in
        (length out ≡ length frame)
        × (get_or out i 0 ≡ (
            if selected e.ranges e.total_channels (i + 1)
            then scale_byte (pos_part (effective_percent_at d e now)) (get_or frame i 0)
            else get_or frame i 0))
  unfolding scale_frame
  scale_frame-selected e frame now i c bytes =
      elim (Bool-cases (eqb_ℤ (effective_percent_at d e now) max_percent)) [
        | inl h ↦ rw h (
          refl,
          ground (
            arith,
            eqb_ℤ→eq (effective_percent_at d e now) max_percent h,
            scale_byte-le 100 (get_or frame i 0) (omega arith) (get_or-IsByte frame i bytes),
          ),
        )
        | inr h ↦
            rw (h, spans_ready-current e c)
              (
                length-scale_spans (pos_part (effective_percent_at d e now)) _ frame,
                scaled_spans-selected e.ranges e.total_channels
                    (pos_part (effective_percent_at d e now)) frame i c.fits c.counted c.countable
                    c.validated,
              )
      ]

  with_applied : BrightnessEngine Num → ℤ → BrightnessEngine Num
  with_applied e now = record e {
    last_applied_ceiling = value_at d e.ceiling now;
    last_applied_gain = value_at d e.gain now;
  }

  with_applied-IsConfigured :
      (e : BrightnessEngine Num) (now : ℤ) → IsConfigured e → IsConfigured (with_applied e now)
  unfolding with_applied
  with_applied-IsConfigured e now c = record {
    fits = c.fits;
    counted = c.counted;
    countable = c.countable;
    validated = c.validated;
    current = c.current;
  }

  effective-with_applied :
      (e : BrightnessEngine Num) (now : ℤ)
      → effective_percent_at d (with_applied e now) now ≡ effective_percent_at d e now
  unfolding with_applied effective_percent_at
  effective-with_applied e now = refl

  -- A frame of bytes keeps its length, and each byte of it is 0 while the gate is closed, and otherwise
  -- scaled once by the composed percentage where the configuration selects its channel and left alone
  -- elsewhere. The condition is on the engine: its ranges pass validateRanges over its channel count,
  -- none of their 32-bit ends wraps, the count lies between 1 and 2^32 - 2, and its spans are empty or
  -- those computed from the ranges and the count.
  pub apply_to_frame-selected :
      (e : BrightnessEngine Num) (frame : List ℕ) (now : ℤ) (i : ℕ)
      → IsConfigured e
      → All IsByte frame
      → let out = (apply_to_frame d e frame now).1 in
        (length out ≡ length frame)
        × (get_or out i 0
            ≡ shown_byte e.gate_closed
                (selected e.ranges e.total_channels (i + 1))
                (pos_part (effective_percent_at d e now))
                (get_or frame i 0))
  unfolding apply_to_frame with_applied
  apply_to_frame-selected e frame now i c bytes =
      let percent = pos_part (effective_percent_at d e now) in
      ground (
        arith,
        get_or-out frame i 0,
        scale_byte-zero percent,
        fill_zero_lem frame i,
        effective-with_applied e now,
        scale_frame-selected (with_applied e now) frame now i (with_applied-IsConfigured e now c)
            bytes,
      )
