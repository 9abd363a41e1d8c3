-- ===== src/Fading/Laws.antt =====
-- What a fade reads at the moments that matter: when it is set, before it starts, once it ends.
use showmesh_fpp_plugin.Base.{
  ℤ, pos, ltb_ℤ, ◌⊎◌, ◌+ℤ◌, ◌≤ℤ◌, ◌<ℤ◌, +ℤ_parts, ◌≡◌, if◌then◌else◌, arith,
}
use showmesh_fpp_plugin.Fading.{
  Double, FadingValue, settle, restore, value_at, fade_to, fade_between,
}

module _ (d : Double) where
  pub value_at-hold :
      (v : FadingValue d.Num) (t : ℤ)
      → v.start_millis <ℤ v.end_millis
      → t ≤ℤ v.start_millis
      → value_at d v t ≡ v.start
  unfolding value_at
  value_at-hold v t h k = ground arith

  pub value_at-done :
      (v : FadingValue d.Num) (t : ℤ) → v.end_millis ≤ℤ t → value_at d v t ≡ v.target
  unfolding value_at
  value_at-done v t h = ground arith

  pub value_at-settle : (x : d.Num) (t : ℤ) → value_at d (settle x) t ≡ x
  unfolding value_at settle
  value_at-settle x t = ground arith

  -- A fade restored to start now shows its start value now.
  pub value_at-restore :
      (x t : d.Num) (now till : ℤ) → now <ℤ till → value_at d (restore x t now till) now ≡ x
  unfolding value_at restore
  value_at-restore x t now till h = ground arith

module _ (d : Double) (v : FadingValue d.Num) (target : d.Num) where
  fade_to-positive :
      (duration now : ℤ)
      → pos 0 <ℤ duration
      → fade_to d v target duration now ≡ record {
        start = value_at d v now;
        target = target;
        start_millis = now;
        end_millis = now +ℤ duration;
      }
  unfolding fade_to
  fade_to-positive duration now h = ground arith

  fade_to-instant :
      (duration now : ℤ) → duration ≤ℤ pos 0 → fade_to d v target duration now ≡ settle target
  unfolding fade_to
  fade_to-instant duration now h = ground arith

  fade_between-over :
      (from till now : ℤ)
      → (till ≤ℤ now) ⊎ (till ≤ℤ from)
      → fade_between d v target from till now ≡ settle target
  unfolding fade_between
  fade_between-over from till now h = ground arith

  fade_between-ahead :
      (from till now : ℤ)
      → now <ℤ till
      → from <ℤ till
      → fade_between d v target from till now ≡ record {
        start = value_at d v now;
        target = target;
        start_millis = if ltb_ℤ from now then now else from;
        end_millis = till;
      }
  unfolding fade_between
  fade_between-ahead from till now h k = ground arith

  -- A fade of positive duration starts at the value that is showing when it is set, and shows the
  -- target at every time from its end on.
  pub fade_to-continuous :
      (duration now t : ℤ)
      → pos 0 <ℤ duration
      → now +ℤ duration ≤ℤ t
      → (value_at d (fade_to d v target duration now) now ≡ value_at d v now)
        × (value_at d (fade_to d v target duration now) t ≡ target)
  fade_to-continuous duration now t h k = rw (fade_to-positive duration now h) (
    value_at-hold d _ now (omega (arith, +ℤ_parts now duration)) (omega arith),
    value_at-done d _ t k,
  )

  -- A fade of no duration, and a scheduled one whose window is over or inverted, show the target at
  -- every time.
  pub fade-instant :
      (duration from till now t : ℤ)
      → duration ≤ℤ pos 0
      → (till ≤ℤ now) ⊎ (till ≤ℤ from)
      → (value_at d (fade_to d v target duration now) t ≡ target)
        × (value_at d (fade_between d v target from till now) t ≡ target)
  fade-instant duration from till now t h k = (
    rw (fade_to-instant duration now h) (value_at-settle d target t),
    rw (fade_between-over from till now k) (value_at-settle d target t),
  )

  -- A scheduled fade whose window is still open leaves the value as it is until the window starts,
  -- starts from the value that is showing, and shows the target from the window's end on.
  pub fade_between-continuous :
      (from till now t u : ℤ)
      → now <ℤ till
      → from <ℤ till
      → t ≤ℤ from
      → till ≤ℤ u
      → (value_at d (fade_between d v target from till now) t ≡ value_at d v now)
        × (value_at d (fade_between d v target from till now) now ≡ value_at d v now)
        × (value_at d (fade_between d v target from till now) u ≡ target)
  fade_between-continuous from till now t u h k l m = rw (fade_between-ahead from till now h k) (
    value_at-hold d _ t (ground arith) (ground arith),
    value_at-hold d _ now (ground arith) (ground arith),
    value_at-done d _ u m,
  )
