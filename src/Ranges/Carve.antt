-- ===== src/Ranges/Carve.antt =====
-- recomputeScaledSpans: the spans cover the channels of the apply ranges outside the exclusions, and
-- no channel twice.
use showmesh_fpp_plugin.Base.{
  ℕ, ◌+◌, ◌^◌, ◌≤◌, ◌<◌, ltb, leb, Bool-cases, inl, inr, ltb→lt, leb→le, leb-false, false, not,
  ◌&&◌, ◌||◌, ◌≡◌, refl, ◌⊎◌, List, [], ◌∷◌, ◌++◌, All, arith,
}
use native.Mathlib.Nat.{le_refl}
use showmesh_fpp_plugin.Ranges.{
  ChannelRange, end_exclusive, advance, last_piece, piece_before, carve, carve_all,
}
use showmesh_fpp_plugin.Ranges.Order.{covers, Ascending, NoWrap, end_exclusive-eq}

-- Below the first range no channel is covered.
pub covers-below :
    (c lo hi : ℕ) (rs : List ChannelRange) → Ascending lo hi rs → c < lo → covers c rs ≡ false
covers-below c lo hi [] h k = refl
covers-below c lo hi (r ∷ rs) h k =
    ground (arith, covers-below c (r.start_channel + r.channel_count) hi rs h.1)

covers-append :
    (c : ℕ) (xs ys : List ChannelRange) → covers c (xs ++ ys) ≡ (covers c xs || covers c ys)
covers-append c [] ys = refl
covers-append c (x ∷ xs) ys = ground (arith, covers-append c xs ys)

pub Ascending-le : (lo hi : ℕ) (rs : List ChannelRange) → Ascending lo hi rs → lo ≤ hi
Ascending-le lo hi [] h = h
Ascending-le lo hi (r ∷ rs) h =
    omega (arith, h.0, Ascending-le (r.start_channel + r.channel_count) hi rs h.1)

Ascending-append :
    (lo mid hi : ℕ) (xs ys : List ChannelRange)
    → Ascending lo mid xs
    → Ascending mid hi ys
    → Ascending lo hi (xs ++ ys)
Ascending-append lo mid hi [] [] h k = omega arith
Ascending-append lo mid hi [] (y ∷ ys) h k = (omega (arith, h, k.0), k.1)
Ascending-append lo mid hi (x ∷ xs) ys h k =
    (h.0, Ascending-append (x.start_channel + x.channel_count) mid hi xs ys h.1 k)

Ascending-weaken :
    (lo lo' hi : ℕ) (rs : List ChannelRange) → lo ≤ lo' → Ascending lo' hi rs → Ascending lo hi rs
Ascending-weaken lo lo' hi [] h k = omega arith
Ascending-weaken lo lo' hi (r ∷ rs) h k = (omega (arith, h, k.0), k.1)

last_piece-Ascending :
    (cursor end : ℕ) → cursor ≤ end → Ascending cursor end (last_piece cursor end)
last_piece-Ascending cursor end h = elim (Bool-cases (ltb cursor end)) [
  | inl e ↦ rw e (omega arith, omega arith)
  | inr e ↦ rw e h
]

last_piece-nil : (cursor end : ℕ) → end ≤ cursor → last_piece cursor end ≡ []
last_piece-nil cursor end h = ground arith

piece_before-Ascending :
    (cursor mid : ℕ) (ex : ChannelRange)
    → cursor ≤ mid
    → ex.start_channel ≤ mid
    → Ascending cursor mid (piece_before cursor ex)
piece_before-Ascending cursor mid ex h k = elim (Bool-cases (ltb cursor ex.start_channel)) [
  | inl e ↦ rw e (omega arith, omega (arith, ltb→lt _ _ e))
  | inr e ↦ rw e h
]

-- An exclusion in the order of the loop moves the cursor to the later of the two.
advance_lem :
    (cursor : ℕ) (ex : ChannelRange)
    → NoWrap ex
    → (cursor ≤ advance cursor ex)
      × (ex.start_channel + ex.channel_count ≤ advance cursor ex)
      × ((advance cursor ex ≡ cursor) ⊎ (advance cursor ex ≡ ex.start_channel + ex.channel_count))
unfolding advance
advance_lem cursor ex w = ground (arith, end_exclusive-eq ex w)

module _ (cursor end lo hi : ℕ) (ex : ChannelRange) (exs : List ChannelRange) (w : hi < 2 ^ 32)
    (h : Ascending lo hi (ex ∷ exs)) where
  ex-NoWrap : NoWrap ex
  ex-NoWrap = omega (arith, Ascending-le (ex.start_channel + ex.channel_count) hi exs h.1)

  covers-carve_step :
      (c : ℕ)
      → covers c (carve cursor end exs) ≡ (leb cursor c && ltb c end && not (covers c exs))
      → covers c (carve (advance cursor ex) end exs)
        ≡ (leb (advance cursor ex) c && ltb c end && not (covers c exs))
      → covers c (carve cursor end (ex ∷ exs))
        ≡ (leb cursor c && ltb c end && not (covers c (ex ∷ exs)))
  unfolding carve
  covers-carve_step c p q = ground (
    arith,
    p,
    q,
    end_exclusive-eq ex ex-NoWrap,
    advance_lem cursor ex ex-NoWrap,
    covers-below c (ex.start_channel + ex.channel_count) hi exs h.1,
    covers-append c (piece_before cursor ex) (carve (advance cursor ex) end exs),
    covers-append c (piece_before cursor ex) (last_piece (advance cursor ex) end),
  )

  carve-Ascending_step :
      cursor ≤ end
      → Ascending cursor end (carve cursor end exs)
      → (advance cursor ex ≤ end
          → Ascending (advance cursor ex) end (carve (advance cursor ex) end exs))
      → Ascending cursor end (carve cursor end (ex ∷ exs))
  unfolding carve
  carve-Ascending_step k p q = elim (Bool-cases (leb (end_exclusive ex) cursor)) [
    | inl e ↦ rw e p
    | inr e ↦ rw e (elim (Bool-cases (leb end ex.start_channel)) [
      | inl e₂ ↦ rw e₂ (last_piece-Ascending cursor end k)
      | inr e₂ ↦ rw e₂ (elim (Bool-cases (leb end (advance cursor ex))) [
        | inl e₃ ↦
            rw (e₃, last_piece-nil (advance cursor ex) end (leb→le _ _ e₃))
              (Ascending-append cursor end end (piece_before cursor ex) []
                (piece_before-Ascending cursor end ex k (omega (arith, leb-false _ _ e₂)))
                (le_refl _))
        | inr e₃ ↦ rw e₃ (
            Ascending-append cursor (advance cursor ex) end (piece_before cursor ex) _
              (piece_before-Ascending cursor (advance cursor ex) ex
                (advance_lem cursor ex ex-NoWrap).0
                (omega (arith, advance_lem cursor ex ex-NoWrap)))
              (q (omega (arith, leb-false _ _ e₃))))
      ])
    ])
  ]

-- What is left of `[cursor, end)` is what the exclusions do not cover.
pub covers-carve :
    (c cursor end lo hi : ℕ) (exs : List ChannelRange)
    → hi < 2 ^ 32
    → Ascending lo hi exs
    → covers c (carve cursor end exs) ≡ (leb cursor c && ltb c end && not (covers c exs))
unfolding carve
covers-carve c cursor end lo hi [] w h = ground arith
covers-carve c cursor end lo hi (ex ∷ exs) w h =
    covers-carve_step cursor end lo hi ex exs w h c
      (covers-carve c cursor end (ex.start_channel + ex.channel_count) hi exs w h.1)
      (covers-carve c (advance cursor ex) end (ex.start_channel + ex.channel_count) hi exs w h.1)

pub carve-Ascending :
    (cursor end lo hi : ℕ) (exs : List ChannelRange)
    → hi < 2 ^ 32
    → cursor ≤ end
    → Ascending lo hi exs
    → Ascending cursor end (carve cursor end exs)
unfolding carve
carve-Ascending cursor end lo hi [] w k h = last_piece-Ascending cursor end k
carve-Ascending cursor end lo hi (ex ∷ exs) w k h =
    carve-Ascending_step cursor end lo hi ex exs w h k
      (carve-Ascending cursor end (ex.start_channel + ex.channel_count) hi exs w k h.1)
      (λ k'.
        carve-Ascending (advance cursor ex) end (ex.start_channel + ex.channel_count) hi exs w k'
          h.1)

-- All the spans: the channels of the apply ranges outside the exclusions, and nothing overlaps.
module _ (excludes : List ChannelRange) (hi : ℕ) (w : hi < 2 ^ 32)
    (h : Ascending 0 hi excludes) where
  pub covers-carve_all :
      (c : ℕ) (spans : List ChannelRange)
      → All NoWrap spans
      → covers c (carve_all excludes spans) ≡ (covers c spans && not (covers c excludes))
  unfolding carve_all
  covers-carve_all c [] n = refl
  covers-carve_all c (s ∷ spans) n = ground (
    arith,
    end_exclusive-eq s n.0,
    covers-append c (carve s.start_channel (end_exclusive s) excludes) (carve_all excludes spans),
    covers-carve c s.start_channel (end_exclusive s) 0 hi excludes w h,
    covers-carve_all c spans n.1,
  )

  pub carve_all-Ascending :
      (lo top : ℕ) (spans : List ChannelRange)
      → All NoWrap spans
      → Ascending lo top spans
      → Ascending lo top (carve_all excludes spans)
  unfolding carve_all
  carve_all-Ascending lo top [] n k = k
  carve_all-Ascending lo top (s ∷ spans) n k =
      let mid = s.start_channel + s.channel_count in
      Ascending-weaken lo s.start_channel top _ k.0 (
        rw (end_exclusive-eq s n.0) (
          Ascending-append s.start_channel mid top (carve s.start_channel mid excludes) _
            (carve-Ascending s.start_channel mid 0 hi excludes w (omega arith) h)
            (carve_all-Ascending mid top spans n.1 k.1)))
