-- ===== src/Handoff/Accounting.antt =====
-- What the reported gaps account for: between one delivered observation and the next, exactly as many
-- were dropped as the gap says.
use mathlib.Core.List.{append-nil, append_assoc}
use mathlib.Core.Path.{subst, subst₂}
use native.Mathlib.Decide.{ℕ_discrete}
use showmesh_fpp_plugin.Base.{
  ℕ, ◌+◌, ◌^◌, ◌≤◌, ◌<◌, ◌≢◌, ◌≡◌, refl, sym, ap, Option, none, some, List, [], ◌∷◌, ◌++◌, length,
  length-append, arith,
}
use showmesh_fpp_plugin.Handoff.{Call, offer_call, take_call, run, new}
use showmesh_fpp_plugin.Handoff.Refinement.{
  Pending, spec_offer, spec_take, spec_run, new-IsValid, view, run_refines,
}

regroup :
    {A : Type 0} (skipped x xs a rest : List A)
    → skipped ++ (x ++ xs ++ (a ++ rest)) ≡ (skipped ++ x) ++ ((xs ++ a) ++ rest)
regroup skipped x xs a rest = simp append_assoc

module _ {A : Type 0} where
  -- The observations offered, in order.
  abbrev pub offered_in : List (Call A) → List A
  offered_in [] = []
  offered_in (offer_call a ∷ calls) = a ∷ offered_in calls
  offered_in (take_call ∷ calls) = offered_in calls

  -- `ys` is what was offered and not yet taken when the replies begin: each delivered observation is
  -- the one behind as many skipped ones as its gap, and at the end the pending ones stand behind as
  -- many skipped ones as the gap that is still to be reported.
  abbrev pub Accounts : List A → List (Option (A × ℕ)) → Pending A → Type 0
  Accounts ys [] q = (skipped : List A) × (ys ≡ skipped ++ q.items) × (length skipped ≡ q.gap)
  Accounts ys (none ∷ rs) q = Accounts ys rs q
  Accounts ys (some (x, g) ∷ rs) q =
      (skipped : List A) × (rest : List A) × (ys ≡ skipped ++ (x ∷ rest))
      × (length skipped ≡ g)
      × Accounts rest rs q

  abbrev pending : List A → ℕ → Pending A
  pending items gap = record { items = items; gap = gap }

  -- An offer to a queue of `items`, with what the skipped ones are afterwards.
  spec_offer-full :
      (capacity gap : ℕ) (x a : A) (xs : List A)
      → length (x ∷ xs) ≡ capacity
      → gap + 1 < 2 ^ 32
      → spec_offer capacity (pending (x ∷ xs) gap) a ≡ pending (xs ++ (a ∷ [])) (gap + 1)
  unfolding spec_offer
  spec_offer-full capacity gap x a xs h b = ground arith

  spec_offer-room :
      (capacity gap : ℕ) (a : A) (xs : List A)
      → length xs ≢ capacity
      → spec_offer capacity (pending xs gap) a ≡ pending (xs ++ (a ∷ [])) gap
  unfolding spec_offer
  spec_offer-room capacity gap a xs h = ground arith

  AccountsRun : ℕ → List (Call A) → List A → Pending A → Type 0
  AccountsRun capacity calls ys q = let (rs, q') = spec_run capacity q calls in Accounts ys rs q'

  spec_run-Accounts :
      (capacity : ℕ) (calls : List (Call A)) (skipped items : List A) (gap : ℕ)
      → 0 < capacity
      → length skipped ≡ gap
      → length skipped + length items + length (offered_in calls) < 2 ^ 32
      → AccountsRun capacity calls (skipped ++ (items ++ offered_in calls)) (pending items gap)
  unfolding spec_run spec_take AccountsRun
  spec_run-Accounts capacity [] skipped items gap p e b =
      (skipped, ap (λ xs. skipped ++ xs) (append-nil items), e)
  spec_run-Accounts capacity (take_call ∷ calls) skipped [] gap p e b =
      spec_run-Accounts capacity calls skipped [] gap p e b
  spec_run-Accounts capacity (take_call ∷ calls) skipped (x ∷ xs) gap p e b = (
    skipped,
    xs ++ offered_in calls,
    refl,
    e,
    spec_run-Accounts capacity calls [] xs 0 p refl (omega arith),
  )
  spec_run-Accounts capacity (offer_call a ∷ calls) skipped [] gap p e b =
      subst (AccountsRun capacity calls (skipped ++ (a ∷ offered_in calls)))
        (sym (spec_offer-room capacity gap a [] (omega arith)))
        (spec_run-Accounts capacity calls skipped (a ∷ []) gap p e (omega arith))
  spec_run-Accounts capacity (offer_call a ∷ calls) skipped (x ∷ xs) gap p e b =
      elim (ℕ_discrete (length (x ∷ xs)) capacity) [
        | yes h ↦
            subst₂ (AccountsRun capacity calls)
              (sym (regroup skipped (x ∷ []) xs (a ∷ []) (offered_in calls)))
              (sym (spec_offer-full capacity gap x a xs h (omega arith)))
              (spec_run-Accounts capacity calls (skipped ++ (x ∷ [])) (xs ++ (a ∷ [])) (gap + 1) p
                (omega (arith, length-append {0} skipped (x ∷ [])))
                (omega (arith, length-append {0} skipped (x ∷ []), length-append {0} xs (a ∷ []))))
        | no h ↦
            subst₂ (AccountsRun capacity calls)
              (ap (λ ys. skipped ++ (x ∷ ys)) (append_assoc xs (a ∷ []) (offered_in calls)))
              (sym (spec_offer-room capacity gap a (x ∷ xs) h))
              (spec_run-Accounts capacity calls skipped (x ∷ (xs ++ (a ∷ []))) gap p e
                (omega (arith, length-append {0} xs (a ∷ []))))
      ]

module _ {A : Type 0} (blank : A) where
  -- From a new handoff, any calls of the two threads, fewer than 2 ^ 32 offers among them: the
  -- replies and the reported gaps account for every observation offered, in order.
  pub run-Accounts :
      (capacity : ℕ) (calls : List (Call A))
      → capacity ≤ 2 ^ 63
      → length (offered_in calls) < 2 ^ 32
      → let (rs, h) = run blank (new blank capacity) calls in
        Accounts (offered_in calls) rs (view blank h)
  unfolding new view AccountsRun
  run-Accounts capacity calls h b =
      subst (λ r. Accounts (offered_in calls) r.0 r.1)
        (sym (run_refines blank calls (new-IsValid blank capacity h)))
        (spec_run-Accounts (new blank capacity).capacity calls [] [] 0
          (new-IsValid blank capacity h).nonempty refl (omega arith))
