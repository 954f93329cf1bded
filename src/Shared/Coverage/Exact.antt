-- ===== src/Shared/Coverage/Exact.antt =====
-- What the walk of the coverage graph collects (api/shared_contract_v2.go:
-- sharedCoverageRequirements).
use test_defense_validation.Base.{
  ℕ, zero, suc, ◌≡◌, ◌↔◌, inl, inr, true, Option, some, String, str_eq, eq_iff, List, [], ◌∷◌,
  length, arith, ok, Option-cases, ap, sym, ◌∙◌, Result-cases, Result,
}
use test_defense_validation.Payload.Rules.{contains}
use test_defense_validation.Json.{Value, Fields, at}
use test_defense_validation.Shared.{IsIn, first, later, SharedTypedRef, ref_ids}
use test_defense_validation.Shared.Coverage.{
  CoverageError, Required, Graph, Semantics, walk, walk_members, index_by,
  shared_coverage_requirements, nothing, typed_refs, joined,
}
use test_defense_validation.Shared.Coverage.Reach.{
  component, member, Requires, Part, selected, field_of, selected-joined, component-selected,
  walk_ref_cases, walk_sound,
}

kinds_differ : (kind : String) → kind ≡ "component" → kind ≡ "coverage-group" → ⊥
kinds_differ kind a b =
    let equal : str_eq "component" "coverage-group" ≡ true =
      (eq_iff "component" "coverage-group").1 (sym a ∙ b) in
    cc

sole : {A : Type 0} {o : Option A} {a b : A} → o ≡ some a → o ≡ some b → a ≡ b
sole e f = cc

module _ (refs : Fields → String → List SharedTypedRef) (g : Graph) (p : Part) (i : String) where
  abbrev IsCompleteAt : (SharedTypedRef → Result CoverageError Required) → Type 0
  IsCompleteAt deeper =
      (child : SharedTypedRef) (req : Required)
      → deeper child ≡ ok req
      → Requires refs g (field_of p) child i
      → contains i (selected p req) ≡ true

  -- What was found before is kept.
  walk_members_keeps :
      (deeper : SharedTypedRef → Result CoverageError Required) (found : Required)
      (rs : List SharedTypedRef) (req : Required)
      → walk_members refs g deeper found rs ≡ ok req
      → contains i (selected p found) ≡ true
      → contains i (selected p req) ≡ true
  unfolding walk_members
  walk_members_keeps deeper found [] req w k = let same : found ≡ req = cc in rw (← same) k
  walk_members_keeps deeper found (r ∷ rs) req w k = elim (Result-cases (deeper r)) [
    | inr (e, bad) ↦ absurd (ground (arith, bad))
    | inl (child, d) ↦
        walk_members_keeps deeper (joined found child) rs req (ground (arith, d))
          (ground (arith, selected-joined p i found child))
  ]

  walk_members_complete :
      (deeper : SharedTypedRef → Result CoverageError Required)
      → IsCompleteAt deeper
      → (found : Required) (rs : List SharedTypedRef) (req : Required)
      → walk_members refs g deeper found rs ≡ ok req
      → {x : SharedTypedRef} → IsIn x rs
      → Requires refs g (field_of p) x i
      → contains i (selected p req) ≡ true
  unfolding walk_members
  walk_members_complete deeper h found [] req w at_ needs = elim at_ [ ]
  walk_members_complete deeper h found (r ∷ rs) req w first needs = elim (Result-cases (deeper r)) [
    | inr (e, bad) ↦ absurd (ground (arith, bad))
    | inl (child, d) ↦
        walk_members_keeps deeper (joined found child) rs req (ground (arith, d))
          (ground (arith, selected-joined p i found child, h r child d needs))
  ]
  walk_members_complete deeper h found (r ∷ rs) req w (later rest) needs =
      elim (Result-cases (deeper r)) [
        | inr (e, bad) ↦ absurd (ground (arith, bad))
        | inl (child, d) ↦
            walk_members_complete deeper h (joined found child) rs req (ground (arith, d)) rest
              needs
      ]

  walk_complete : (n : ℕ) (visiting : List String) → IsCompleteAt (walk refs g n visiting)
  unfolding walk
  walk_complete zero visiting r req w needs = cc
  walk_complete (suc n) visiting r req w (c, component kind found, named) =
      elim (walk_ref_cases refs g visiting (walk refs g n (r.id ∷ visiting)) r req w) [
        | inl (d, _, found', e) ↦
            let same : c ≡ d = cc in
            component-selected refs g p i d req e
            ∙ ap (λ x. contains i (ref_ids (refs x (field_of p)))) (sym same)
            ∙ named
        | inr (group, other, _, _) ↦ absurd (kinds_differ r.kind kind other)
      ]
  walk_complete (suc n) visiting r req w (c, member kind found at_ leads, named) =
      elim (walk_ref_cases refs g visiting (walk refs g n (r.id ∷ visiting)) r req w) [
        | inl (_, other, _, _) ↦ absurd (kinds_differ r.kind other kind)
        | inr (group, _, found', e) ↦
            walk_members_complete (walk refs g n (r.id ∷ visiting))
              (walk_complete n (r.id ∷ visiting)) nothing (refs group "member_refs") req e
              (rw (sole found' found) at_) (c, leads, named)
      ]

-- What is required of a coverage reference that is accepted is exactly what the components name that
-- it leads to: their inputs and their source members.
pub coverage_exact :
    (decode_ref : Value → Option SharedTypedRef) (root : SharedTypedRef) (s : Semantics)
    (req : Required) (p : Part) (i : String)
    → shared_coverage_requirements decode_ref root s ≡ ok req
    → (components : List (String × Fields)) × (groups : List (String × Fields)) × (index_by
          "component_id" [] s.components
        ≡ some components)
      × (index_by "group_id" [] s.groups ≡ some groups)
      × ((contains i (selected p req) ≡ true)
          ↔ Requires
              (λ f k. typed_refs decode_ref (at f k))
              (record { scope = s.semantics_id; components = components; groups = groups })
              (field_of p)
              root
              i)
unfolding shared_coverage_requirements
coverage_exact decode_ref root s req p i h =
    elim (Option-cases (index_by "component_id" [] s.components)) [
      | inl missing ↦ absurd (ground (arith, missing))
      | inr (components, e) ↦ elim (Option-cases (index_by "group_id" [] s.groups)) [
        | inl missing ↦ absurd (ground (arith, e, missing))
        | inr (groups, f) ↦
            let refs : Fields → String → List SharedTypedRef =
              λ x k. typed_refs decode_ref (at x k) in
            let g : Graph = record {
              scope = s.semantics_id;
              components = components;
              groups = groups;
            } in
            let walked : walk refs g (suc (length groups)) [] root ≡ ok req =
              ground (arith, e, f) in
            (
              components,
              groups,
              e,
              f,
              (
                walk_sound refs g p i (suc (length groups)) [] root req walked,
                walk_complete refs g p i (suc (length groups)) [] root req walked,
              ),
            )
      ]
    ]
