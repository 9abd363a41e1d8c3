-- ===== src/Ranges/Frame.antt =====
-- The channel loop of applyToFrame: each channel of the spans is scaled once, the rest is untouched.
use showmesh_fpp_plugin.Base.{
  ℕ, zero, suc, ◌+◌, ◌-◌, ◌≤◌, ltb, leb, ◌&&◌, ◌≡◌, refl, ◌∙◌, ◌⊎◌, if◌then◌else◌, List, [], ◌∷◌,
  length, get_or, set, length-set, get_or-set, get_or-out, arith,
}
use showmesh_fpp_plugin.Ranges.{ChannelRange, scale_byte, scale_loop, clip, scale_span, scale_spans}
use showmesh_fpp_plugin.Ranges.Order.{in_range, covers, Ascending}
use showmesh_fpp_plugin.Ranges.Carve.{covers-below}

pub scale_byte-zero : (scale : ℕ) → scale_byte scale 0 ≡ 0
unfolding scale_byte
scale_byte-zero scale = omega arith

-- The loop changes indices `i` to `i + n - 1` and no length.
length-scale_loop :
    (scale n i : ℕ) (frame : List ℕ) → length (scale_loop scale n i frame) ≡ length frame
unfolding scale_loop
length-scale_loop scale zero i frame = refl
length-scale_loop scale (suc n) i frame = length-scale_loop scale n (suc i) _ ∙ length-set frame i _

scale_loop_lem :
    (scale n i j : ℕ) (frame : List ℕ)
    → i + n ≤ length frame
    → get_or (scale_loop scale n i frame) j 0
      ≡ (if leb i j && ltb j (i + n) then scale_byte scale (get_or frame j 0) else get_or frame j 0)
unfolding scale_loop
scale_loop_lem scale zero i j frame h = ground arith
scale_loop_lem scale (suc n) i j frame h =
    let b = scale_byte scale (get_or frame i 0) in
    ground (
      arith,
      length-set frame i b,
      get_or-set frame i j b 0,
      scale_loop_lem scale n (suc i) j (set frame i b),
    )

clip_lem :
    (count end : ℕ)
    → (clip count end ≤ count)
      × (clip count end ≤ end)
      × ((clip count end ≡ count) ⊎ (clip count end ≡ end))
unfolding clip
clip_lem count end = ground arith

module _ (scale : ℕ) (span : ChannelRange) where
  -- the `rounds` and the first index of the loop over a span
  rounds : List ℕ → ℕ
  rounds frame =
      clip (length frame) (span.start_channel - 1 + span.channel_count) - (span.start_channel - 1)

  length-scale_span : (frame : List ℕ) → length (scale_span scale span frame) ≡ length frame
  unfolding scale_span rounds
  length-scale_span frame =
      ground (arith, length-scale_loop scale (rounds frame) (span.start_channel - 1) frame)

  scale_span_lem :
      (j : ℕ) (frame : List ℕ)
      → 1 ≤ span.start_channel
      → get_or (scale_span scale span frame) j 0
        ≡ (if in_range (j + 1) span then scale_byte scale (get_or frame j 0) else get_or frame j 0)
  unfolding scale_span rounds
  scale_span_lem j frame h = ground (
    arith,
    scale_byte-zero scale,
    clip_lem (length frame) (span.start_channel - 1 + span.channel_count),
    get_or-out frame j 0,
    scale_loop_lem scale (rounds frame) (span.start_channel - 1) j frame,
  )

pub length-scale_spans :
    (scale : ℕ) (spans : List ChannelRange) (frame : List ℕ)
    → length (scale_spans scale spans frame) ≡ length frame
unfolding scale_spans
length-scale_spans scale [] frame = refl
length-scale_spans scale (s ∷ spans) frame =
    length-scale_spans scale spans (scale_span scale s frame) ∙ length-scale_span scale s frame

-- Over ascending spans every covered channel is scaled, and no channel twice.
pub scale_spans_lem :
    (scale : ℕ) (spans : List ChannelRange) (lo hi : ℕ) (frame : List ℕ) (j : ℕ)
    → 1 ≤ lo
    → Ascending lo hi spans
    → get_or (scale_spans scale spans frame) j 0
      ≡ (if covers (j + 1) spans then scale_byte scale (get_or frame j 0) else get_or frame j 0)
unfolding scale_spans
scale_spans_lem scale [] lo hi frame j p h = refl
scale_spans_lem scale (s ∷ spans) lo hi frame j p h =
    let end = s.start_channel + s.channel_count in
    ground (
      arith,
      scale_span_lem scale s j frame,
      scale_spans_lem scale spans end hi (scale_span scale s frame) j (omega (arith, h.0)) h.1,
      covers-below (j + 1) end hi spans h.1,
    )
