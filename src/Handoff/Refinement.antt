-- ===== src/Handoff/Refinement.antt =====
-- The handoff as a bounded queue that drops its oldest element, with a count of what it dropped.
use showmesh_fpp_plugin.Base.{
  ℕ, zero, suc, ◌+◌, ◌-◌, ◌%◌, ◌^◌, ◌≤◌, ◌<◌, ◌==◌, Bool-cases, inl, inr, if◌then◌else◌, ◌≡◌, refl,
  sym, ◌∙◌, ap, ap₂, Option, none, some, List, [], ◌∷◌, ◌++◌, length, length-set, get_or, set,
  false, arith,
}
use native.Mathlib.Nat.{mod-eq_of_lt}
use showmesh_fpp_plugin.Handoff.{
  CallbackHandoff, u32, u64, replicate, new, make_room, push_tail, offer, take, Call, offer_call,
  take_call, run,
}
use showmesh_fpp_plugin.Handoff.Window.{gather, length-gather, gather-step, gather-set}

-- What the two threads rely on: the pending observations, oldest first, and the gap before them.
pub record Pending (A : Type 0) : Type 0 where
  pub items : List A
  pub gap : ℕ

module _ {A : Type 0} where
  unfoldable pub newest_kept : List A → List A
  newest_kept [] = []
  newest_kept (x ∷ xs) = xs

  unfoldable pub spec_offer : ℕ → Pending A → A → Pending A
  unfolding newest_kept
  spec_offer capacity q a =
      if length q.items == capacity
      then record { items = newest_kept q.items ++ (a ∷ []); gap = u32 (q.gap + 1) }
      else record { items = q.items ++ (a ∷ []); gap = q.gap }

  unfoldable pub spec_take : Pending A → Option (A × ℕ) × Pending A
  spec_take q = elim q.items [
    | [] ↦ (none, q)
    | x ∷ xs ↦ (some (x, q.gap), record { items = xs; gap = 0 })
  ]

  unfoldable pub spec_run : ℕ → Pending A → List (Call A) → List (Option (A × ℕ)) × Pending A
  spec_run capacity q [] = ([], q)
  spec_run capacity q (offer_call a ∷ calls) = spec_run capacity (spec_offer capacity q a) calls
  spec_run capacity q (take_call ∷ calls) =
      let (r, q') = spec_take q in let (rs, q'') = spec_run capacity q' calls in (r ∷ rs, q'')

  -- The slots are there, and no index or sum of the methods wraps.
  pub record IsValid (h : CallbackHandoff A) : Type 0 where
    pub storage : length h.slots ≡ h.capacity
    pub nonempty : 0 < h.capacity
    pub small : h.capacity ≤ 2 ^ 63
    pub head_in : h.head < h.capacity
    pub size_in : h.size ≤ h.capacity

  length-replicate : (n : ℕ) (a : A) → length (replicate n a) ≡ n
  unfolding replicate
  length-replicate zero a = refl
  length-replicate (suc n) a = ap suc (length-replicate n a)

  pub new-IsValid : (blank : A) (capacity : ℕ) → capacity ≤ 2 ^ 63 → IsValid (new blank capacity)
  unfolding new
  new-IsValid blank capacity h =
      ground (arith, length-replicate (if capacity == 0 then 1 else capacity) blank)

module _ {A : Type 0} (blank : A) where
  unfoldable pub view : CallbackHandoff A → Pending A
  view h = record { items = gather blank h.slots h.capacity h.head 0 h.size; gap = h.coalesced }

  make_room-IsValid :
      {h : CallbackHandoff A}
      → IsValid h
      → IsValid (make_room blank h)
        × ((make_room blank h).size < h.capacity)
        × ((make_room blank h).capacity ≡ h.capacity)
  unfolding make_room
  make_room-IsValid {h} v = (ground arith, ground arith, ground arith)

  push_tail-IsValid :
      {h : CallbackHandoff A} (a : A)
      → IsValid h
      → h.size < h.capacity
      → IsValid (push_tail blank h a)
  unfolding push_tail
  push_tail-IsValid {h} a v p =
      ground (arith, length-set h.slots (u64 (h.head + h.size) % h.capacity) a)

  push_tail-items :
      {h : CallbackHandoff A} (a : A)
      → IsValid h
      → h.size < h.capacity
      → (view (push_tail blank h a)).items ≡ (view h).items ++ (a ∷ [])
  unfolding push_tail view
  push_tail-items {h} a v p =
      let i = u64 (h.head + h.size) % h.capacity in
      let more : u64 (h.size + 1) ≡ suc h.size = omega arith in
      ap (gather blank (set h.slots i a) h.capacity h.head 0) more
      ∙ gather-set blank h.slots h.capacity h.head 0 h.size i a v.storage v.head_in (omega arith)
          (ap (λ j. j % h.capacity) (omega arith))

  take-IsValid : {h : CallbackHandoff A} → IsValid h → IsValid (take blank h).1
  unfolding take
  take-IsValid {h} v = ground arith

  capacity-push_tail : (h : CallbackHandoff A) (a : A) → (push_tail blank h a).capacity ≡ h.capacity
  unfolding push_tail
  capacity-push_tail h a = refl

  newest_kept-gather :
      (slots : List A) (capacity head n : ℕ)
      → gather blank slots capacity ((head + 1) % capacity) 0 (n - 1)
        ≡ newest_kept (gather blank slots capacity head 0 n)
  unfolding newest_kept
  newest_kept-gather slots capacity head zero = refl
  newest_kept-gather slots capacity head (suc n) =
      ap (gather blank slots capacity ((head + 1) % capacity) 0) (omega arith)
      ∙ gather-step blank slots capacity head 0 n

  head_wrap :
      {h : CallbackHandoff A}
      → IsValid h
      → u64 (h.head + 1) % h.capacity ≡ (h.head + 1) % h.capacity
  head_wrap {h} v = ap (λ j. j % h.capacity) (omega arith)

  make_room-view :
      {h : CallbackHandoff A}
      → IsValid h
      → view (make_room blank h) ≡ (
          if length (view h).items == h.capacity
          then record { items = newest_kept (view h).items; gap = u32 (h.coalesced + 1) }
          else view h)
  unfolding make_room view
  make_room-view {h} v =
      rw (length-gather blank h.slots h.capacity h.head 0 h.size)
        (elim (Bool-cases (h.size == h.capacity)) [
          | inl e ↦
              rw (e, head_wrap v)
                (ap (λ xs. record { items = xs; gap = u32 (h.coalesced + 1) })
                  (newest_kept-gather h.slots h.capacity h.head h.size))
          | inr e ↦ rw e
        ])

  push_tail-view :
      {h : CallbackHandoff A} (a : A)
      → IsValid h
      → h.size < h.capacity
      → view (push_tail blank h a)
        ≡ record { items = (view h).items ++ (a ∷ []); gap = (view h).gap }
  unfolding push_tail view
  push_tail-view {h} a v p =
      ap (λ xs. record { items = xs; gap = h.coalesced }) (push_tail-items a v p)

  -- `offer` is the bounded queue's, and keeps the representation in bounds.
  pub offer_refines :
      {h : CallbackHandoff A} (a : A)
      → IsValid h
      → (view (offer blank h a) ≡ spec_offer h.capacity (view h) a)
        × IsValid (offer blank h a)
        × ((offer blank h a).capacity ≡ h.capacity)
  unfolding offer spec_offer
  offer_refines {h} a v =
      let (m, room, same) = make_room-IsValid v in
      let fits : (make_room blank h).size < (make_room blank h).capacity = omega arith in
      (
        push_tail-view a m fits
            ∙ ap (λ q. record { items = q.items ++ (a ∷ []); gap = q.gap }) (make_room-view v)
            ∙ elim (Bool-cases (length (view h).items == h.capacity)) [
              | inl e ↦ rw e (unfold view in refl)
              | inr e ↦ rw e
            ],
        push_tail-IsValid a m fits,
        capacity-push_tail (make_room blank h) a ∙ same,
      )

  spec_take-gather :
      (slots : List A) (room head n g : ℕ)
      → head < room
      → spec_take (record { items = gather blank slots room head 0 n; gap = g }) ≡ (
          if n == 0 then (none, record { items = gather blank slots room head 0 n; gap = g }) else (
            some (get_or slots head blank, g),
            record { items = gather blank slots room ((head + 1) % room) 0 (n - 1); gap = 0 },
          ))
  unfolding spec_take newest_kept
  spec_take-gather slots room head zero g h = refl
  spec_take-gather slots room head (suc n) g h =
      let none_left : (suc n == 0) ≡ false = ground arith in
      let here : (head + 0) % room ≡ head = ap (λ j. j % room) (omega arith) ∙ mod-eq_of_lt h in
      let left : gather blank slots room head 1 n
          ≡ gather blank slots room ((head + 1) % room) 0 (suc n - 1) =
        sym (newest_kept-gather slots room head (suc n)) in
      rw none_left
        (ap₂ (λ j xs. (some (get_or slots j blank, g), record { items = xs; gap = 0 })) here left)

  -- `take` returns what the queue does, and keeps the representation in bounds.
  pub take_refines :
      {h : CallbackHandoff A}
      → IsValid h
      → let (r, h') = take blank h in
        ((r, view h') ≡ spec_take (view h)) × IsValid h' × (h'.capacity ≡ h.capacity)
  unfolding take view
  take_refines {h} v = (
    rw (spec_take-gather h.slots h.capacity h.head h.size h.coalesced v.head_in)
        (elim (Bool-cases (h.size == 0)) [ inl e ↦ rw e | inr e ↦ rw (e, head_wrap v) ]),
    take-IsValid v,
    ground arith,
  )

  -- No sequence of calls from the two threads tells the handoff from the bounded queue.
  pub run_refines :
      (calls : List (Call A)) {h : CallbackHandoff A}
      → IsValid h
      → let (rs, h') = run blank h calls in (rs, view h') ≡ spec_run h.capacity (view h) calls
  unfolding run spec_run
  run_refines [] v = refl
  run_refines (offer_call a ∷ calls) {h} v =
      let (same, valid, room) = offer_refines a v in
      run_refines calls valid ∙ ap₂ (λ c q. spec_run c q calls) room same
  run_refines (take_call ∷ calls) {h} v =
      let (same, valid, room) = take_refines v in
      ap (λ pr. ((take blank h).0 ∷ pr.0, pr.1)) (run_refines calls valid)
      ∙ ap₂ (λ c pr. (pr.0 ∷ (spec_run c pr.1 calls).0, (spec_run c pr.1 calls).1)) room same
