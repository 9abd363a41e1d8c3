-- ===== src/Ranges/Order.antt =====
-- Which channels a list of ranges covers, and what a successful validation says of its order.
use showmesh_fpp_plugin.Base.{
  ℕ, ◌+◌, ◌^◌, ◌≤◌, ◌<◌, ◌-◌, ltb, leb, Bool, true, false, Bool-cases, inl, inr, ◌&&◌, ◌||◌, ◌≡◌,
  refl, none, some, List, [], ◌∷◌, All, if◌then◌else◌, ltb-false, arith,
}
use native.Mathlib.Nat.{le_refl}
use showmesh_fpp_plugin.Ranges.{
  ChannelRange, end_exclusive, ListName, ranges_overlap, check_after, check_sorted, insert_range,
  sort_ranges, validate_one_list,
}

abbrev pub in_range : ℕ → ChannelRange → Bool
in_range c r = leb r.start_channel c && ltb c (r.start_channel + r.channel_count)

abbrev pub covers : ℕ → List ChannelRange → Bool
covers c [] = false
covers c (r ∷ rs) = in_range c r || covers c rs

-- The sum of the two members fits std::uint32_t.
abbrev pub NoWrap : ChannelRange → Type 0
NoWrap r = r.start_channel + r.channel_count < 2 ^ 32

-- The ranges lie between `lo` and `hi`, one after the other.
abbrev pub Ascending : ℕ → ℕ → List ChannelRange → Type 0
Ascending lo hi [] = lo ≤ hi
Ascending lo hi (r ∷ rs) =
    (lo ≤ r.start_channel) × Ascending (r.start_channel + r.channel_count) hi rs

pub end_exclusive-eq :
    (r : ChannelRange) → NoWrap r → end_exclusive r ≡ r.start_channel + r.channel_count
unfolding end_exclusive
end_exclusive-eq r h = omega arith

covers-insert_range :
    (c : ℕ) (r : ChannelRange) (rs : List ChannelRange)
    → covers c (insert_range r rs) ≡ (in_range c r || covers c rs)
unfolding insert_range
covers-insert_range c r [] = refl
covers-insert_range c r (x ∷ xs) = ground (arith, covers-insert_range c r xs)

pub covers-sort_ranges : (c : ℕ) (rs : List ChannelRange) → covers c (sort_ranges rs) ≡ covers c rs
unfolding sort_ranges
covers-sort_ranges c [] = refl
covers-sort_ranges c (r ∷ rs) =
    ground (arith, covers-insert_range c r (sort_ranges rs), covers-sort_ranges c rs)

module _ (P : ChannelRange → Type 0) where
  All-insert_range :
      (r : ChannelRange) (rs : List ChannelRange) → P r → All P rs → All P (insert_range r rs)
  unfolding insert_range
  All-insert_range r [] p h = (p, tt)
  All-insert_range r (x ∷ xs) p h = elim (Bool-cases (ltb x.start_channel r.start_channel)) [
    | inl e ↦ rw e (h.0, All-insert_range r xs p h.1)
    | inr e ↦ rw e (p, h)
  ]

  pub All-sort_ranges : (rs : List ChannelRange) → All P rs → All P (sort_ranges rs)
  unfolding sort_ranges
  All-sort_ranges [] h = tt
  All-sort_ranges (r ∷ rs) h = All-insert_range r (sort_ranges rs) h.0 (All-sort_ranges rs h.1)

abbrev pub top : ℕ
top = 2 ^ 32 - 1

check_after-Ascending :
    (name : ListName) (prev : ChannelRange) (rs : List ChannelRange)
    → NoWrap prev
    → All NoWrap rs
    → check_after name prev rs ≡ none
    → Ascending prev.start_channel top (prev ∷ rs)
unfolding check_after
check_after-Ascending name prev [] w ws h = omega arith
check_after-Ascending name prev (r ∷ rs) w ws h =
    elim (Bool-cases (ltb r.start_channel (end_exclusive prev))) [
      | inl e ↦ absurd (overlap e h)
      | inr e ↦ (
        le_refl _,
        (
          omega (arith, end_exclusive-eq prev w, ltb-false _ _ e),
          (check_after-Ascending name r rs ws.0 ws.1 (rw e at h)).1,
        ),
      )
    ]
  where
    overlap :
        ltb r.start_channel (end_exclusive prev) ≡ true
        → (if ltb r.start_channel (end_exclusive prev)
            then some (ranges_overlap name prev r)
            else check_after name r rs)
          ≡ none
        → ⊥
    overlap e = rw e (λ k. cc)

pub check_sorted-Ascending :
    (name : ListName) (rs : List ChannelRange)
    → All NoWrap rs
    → check_sorted name rs ≡ none
    → Ascending 0 top rs
unfolding check_sorted
check_sorted-Ascending name [] ws h = omega arith
check_sorted-Ascending name (r ∷ rs) ws h =
    (omega arith, (check_after-Ascending name r rs ws.0 ws.1 h).1)

-- A list of ranges that passes validation, sorted, is ascending.
pub validate_one_list-Ascending :
    (name : ListName) (total : ℕ) (rs : List ChannelRange)
    → All NoWrap rs
    → validate_one_list name total rs ≡ none
    → Ascending 0 top (sort_ranges rs)
unfolding validate_one_list
validate_one_list-Ascending name total rs ws h =
    check_sorted-Ascending name (sort_ranges rs) (All-sort_ranges NoWrap rs ws) (ground arith)
