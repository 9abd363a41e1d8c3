-- ===== src/Republish/Repeat.antt =====
-- A request that arrives again changes nothing.
use showmesh_fpp_plugin.Base.{
  ℤ, false, ◌≡◌, refl, Option, Bytes, eq_bytes, eq_bytes_refl, Bool-cases, inl, inr, ◌⊎◌,
}
use showmesh_fpp_plugin.Json.Number.{NumberText}
use showmesh_fpp_plugin.Republish.{
  DefinitionPublisher, Refusal, refused, rendered, RouteState, Checked, refuse, accept,
  check_request, answer, apply_definition_republish_request,
}

module _ {Num : Type 0} (t : NumberText Num) (as_whole : Num → Option ℤ) {P : Type 0}
    (publisher : DefinitionPublisher P) where
  abbrev Repeats : RouteState P → Checked Bytes → Type 0
  Repeats route checked =
      let first = answer t as_whole publisher route checked in
      let again = answer t as_whole publisher first.1 checked in
      (again.1 ≡ first.1)
      × (((reason : Refusal) × (again.0 ≡ refused reason) × (first.1 ≡ route))
          ⊎ (again.0
              ≡ rendered false
                  (record (publisher.definition_holdings first.1.publisher) { cleared = 0 })
                  first.1.sweep_pending))

  answer-Repeats : (route : RouteState P) (checked : Checked Bytes) → Repeats route checked
  unfolding answer
  answer-Repeats route (refuse reason) = (refl, inl (reason, refl, refl))
  answer-Repeats route (accept id) = elim (Bool-cases (eq_bytes route.last_request_id id)) [
    | inl h ↦ rw (h, h) (refl, inr refl)
    | inr h ↦ rw (h, eq_bytes_refl id) (refl, inr refl)
  ]

  -- The same body a second time leaves the publisher, the owed sweep and the last id as the first
  -- left them; it is refused, and then the first changed nothing either, or it reports the holdings
  -- as they stand, nothing cleared and nothing applied.
  pub apply_definition_republish_request-repeat :
      (route : RouteState P) (body : Bytes)
      → let first = apply_definition_republish_request t as_whole publisher route body in
        let again = apply_definition_republish_request t as_whole publisher first.1 body in
        (again.1 ≡ first.1)
        × (((reason : Refusal) × (again.0 ≡ refused reason) × (first.1 ≡ route))
            ⊎ (again.0
                ≡ rendered false
                    (record (publisher.definition_holdings first.1.publisher) { cleared = 0 })
                    first.1.sweep_pending))
  unfolding apply_definition_republish_request
  apply_definition_republish_request-repeat route body =
      answer-Repeats route (check_request t as_whole body)
