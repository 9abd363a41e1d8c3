-- ===== src/Handoff.antt =====
-- native/include/showmesh/callback_handoff.h and saturating_add.h: the bounded queue between FPP's
-- callback thread and the worker, and the count of what it dropped. Each method holds the mutex for
-- its whole body, so it is one step. An element is a CallbackEvidence, which is only copied.
pub mod Window
pub mod Refinement
pub mod Accounting
pub mod Evidence
use showmesh_fpp_plugin.Base.{
  ℕ, zero, suc, ◌+◌, ◌-◌, ◌%◌, ◌^◌, ltb, ◌==◌, Bool, true, false, if◌then◌else◌, Option, none, some,
  List, [], ◌∷◌, get_or, set,
}

abbrev pub u32 : ℕ → ℕ
u32 n = n % 2 ^ 32

abbrev pub u64 : ℕ → ℕ
u64 n = n % 2 ^ 64

-- `sum < a ? max : sum` with the unsigned sum.
unfoldable pub saturating_add : ℕ → ℕ → ℕ
saturating_add a b = let sum = u32 (a + b) in if ltb sum a then 2 ^ 32 - 1 else sum

-- The members of CallbackHandoff; `slots` has `capacity` elements.
pub record CallbackHandoff (A : Type 0) : Type 0 where
  pub slots : List A
  pub capacity : ℕ
  pub head : ℕ
  pub size : ℕ
  pub coalesced : ℕ
  pub offered : ℕ

pub replicate {ℓ} : {A : Type ℓ} → ℕ → A → List A
replicate zero a = []
replicate (suc n) a = a ∷ replicate n a

module _ {A : Type 0} (blank : A) where
  -- The constructor; `blank` is a value-initialised element.
  unfoldable pub new : ℕ → CallbackHandoff A
  unfolding replicate
  new capacity =
      let c : ℕ = if capacity == 0 then 1 else capacity in
      record {
        slots = replicate c blank;
        capacity = c;
        head = 0;
        size = 0;
        coalesced = 0;
        offered = 0;
      }

  -- The drop of the oldest pending element.
  unfoldable pub make_room : CallbackHandoff A → CallbackHandoff A
  make_room h =
      if h.size == h.capacity
      then record h {
        head = u64 (h.head + 1) % h.capacity;
        size = h.size - 1;
        coalesced = u32 (h.coalesced + 1);
      }
      else h

  unfoldable pub push_tail : CallbackHandoff A → A → CallbackHandoff A
  push_tail h evidence = record h {
    slots = set h.slots (u64 (h.head + h.size) % h.capacity) evidence;
    size = u64 (h.size + 1);
    offered = u64 (h.offered + 1);
  }

  unfoldable pub offer : CallbackHandoff A → A → CallbackHandoff A
  unfolding make_room push_tail
  offer h evidence = push_tail (make_room h) evidence

  -- `none` is `false`; otherwise `*out` and the count are the result.
  unfoldable pub take : CallbackHandoff A → Option (A × ℕ) × CallbackHandoff A
  take h = if h.size == 0 then (none, h) else (
    some (get_or h.slots h.head blank, h.coalesced),
    record h { head = u64 (h.head + 1) % h.capacity; size = h.size - 1; coalesced = 0 },
  )

-- The two threads' calls, in the order in which they get the mutex.
pub data Call (A : Type 0) : Type 0 where
  offer_call : A → Call A
  take_call : Call A

module _ {A : Type 0} (blank : A) where
  -- What each take returned.
  unfoldable pub run : CallbackHandoff A → List (Call A) → List (Option (A × ℕ)) × CallbackHandoff A
  run h [] = ([], h)
  run h (offer_call a ∷ calls) = run (offer blank h a) calls
  run h (take_call ∷ calls) =
      let (r, h') = take blank h in let (rs, h'') = run h' calls in (r ∷ rs, h'')
