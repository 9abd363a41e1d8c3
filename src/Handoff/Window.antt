-- ===== src/Handoff/Window.antt =====
-- The pending elements of a handoff, oldest first, and what writes and steps do to them.
use native.Mathlib.Nat.{mod-add-mod, mod-eq_of_lt, mod-eq-sub-mod}
use native.Mathlib.Decide.{dec_lt}
use showmesh_fpp_plugin.Base.{
  ℕ, zero, suc, ◌+◌, ◌-◌, ◌%◌, ◌≤◌, ◌<◌, ◌⊎◌, inl, inr, ◌≡◌, refl, sym, ◌∙◌, ap, ap₂, List, [], ◌∷◌,
  ◌++◌, length, get_or, get_or-set, set, arith,
}

-- An index that has gone round at most once.
wrap-cases :
    (room i : ℕ)
    → i < room + room
    → ((i < room) × (i % room ≡ i)) ⊎ ((room ≤ i) × (i % room ≡ i - room))
wrap-cases room i h = elim (dec_lt i room) [
  | yes p ↦ inl (p, mod-eq_of_lt p)
  | no p ↦ inr (
    omega arith,
    mod-eq-sub-mod {n = i} {m = room} (omega arith)
        ∙ mod-eq_of_lt {n = i - room} {m = room} (omega arith),
  )
]

module _ {A : Type 0} (blank : A) where
  -- The elements at places `k`, `k + 1`, … behind `head`, `n` of them.
  abbrev pub gather : List A → ℕ → ℕ → ℕ → ℕ → List A
  gather slots room head k zero = []
  gather slots room head k (suc n) =
      get_or slots ((head + k) % room) blank ∷ gather slots room head (suc k) n

  pub length-gather : (slots : List A) (room head k n : ℕ) → length (gather slots room head k n) ≡ n
  length-gather slots room head k zero = refl
  length-gather slots room head k (suc n) = ap suc (length-gather slots room head (suc k) n)

  -- Moving the head on by one moves every place by one.
  pub gather-step :
      (slots : List A) (room head k n : ℕ)
      → gather slots room ((head + 1) % room) k n ≡ gather slots room head (suc k) n
  gather-step slots room head k zero = refl
  gather-step slots room head k (suc n) =
      ap₂ ◌∷◌
        (ap (λ i. get_or slots i blank)
          (mod-add-mod (head + 1) room k ∙ ap (λ i. i % room) (omega arith)))
        (gather-step slots room head (suc k) n)

  -- A write just behind the pending elements adds the one that it writes.
  pub gather-set :
      (slots : List A) (room head k n i : ℕ) (a : A)
      → length slots ≡ room
      → head < room
      → k + n < room
      → i ≡ (head + (k + n)) % room
      → gather (set slots i a) room head k (suc n) ≡ gather slots room head k n ++ (a ∷ [])
  gather-set slots room head k zero i a l h p e =
      let here : (head + k) % room ≡ i = ap (λ j. j % room) (omega arith) ∙ sym e in
      ap (λ x. x ∷ [])
        (ground (
          arith,
          here,
          wrap-cases room (head + k) (omega arith),
          get_or-set slots i ((head + k) % room) a blank,
        ))
  gather-set slots room head k (suc n) i a l h p e =
      ap₂ ◌∷◌
        (ground (
          arith,
          wrap-cases room (head + k) (omega arith),
          wrap-cases room (head + (k + suc n)) (omega arith),
          get_or-set slots i ((head + k) % room) a blank,
        ))
        (gather-set slots room head (suc k) n i a l h (omega arith)
          (e ∙ ap (λ j. j % room) (omega arith)))
