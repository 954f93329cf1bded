-- ===== src/Shared/Coverage.antt =====
-- The inputs and members that a coverage reference requires
-- (api/shared_contract_v2.go: sharedCoverageRequirements, typedRefs). A map that serves as a set is a
-- list without repetition; the order in which `keys` sorts it is left out. The map `visiting` is
-- handed down: a walk that succeeds gives back what it took, and one that fails ends all.
pub mod Total
pub mod Reach
pub mod Exact
use test_defense_validation.Base.{
  ℕ, zero, suc, Bool, true, not, ◌&&◌, ◌||◌, Option, none, some, String, str_eq, List, [], ◌∷◌,
  if◌then◌else◌, length, Result, ok, err, is_some,
}
use test_defense_validation.Payload.Rules.{contains, add_values}
use test_defense_validation.Translation.{lookup}
use test_defense_validation.Json.{Value, Fields, at, string_value, any_slice}
use test_defense_validation.Shared.{SharedTypedRef, ref_ids, same_string_set}

pub data CoverageError : Type 0 where
  out_of_fuel duplicate_component duplicate_group scope_differs unknown_component : CoverageError
  input_differs source_differs cycle unknown_group ancestry_differs kind_differs : CoverageError

-- The part of the semantics that is read.
pub record Semantics : Type 0 where
  pub semantics_id : String
  pub components : List Fields
  pub groups : List Fields

-- The inputs and the members that are required.
pub record Required : Type 0 where
  pub inputs : List String
  pub members : List String

-- What json.Unmarshal makes of an item as a reference is an argument.
module _ (decode_ref : Value → Option SharedTypedRef) where
  unfoldable pub decoded : List Value → List SharedTypedRef
  decoded [] = []
  decoded (v ∷ vs) = elim (decode_ref v) [ none ↦ decoded vs | some r ↦ r ∷ decoded vs ]

  unfoldable pub typed_refs : Value → List SharedTypedRef
  unfolding decoded any_slice
  typed_refs v = decoded (any_slice v)

-- An index by an identifier that is given and not repeated.
unfoldable pub index_by :
    String → List (String × Fields) → List Fields → Option (List (String × Fields))
unfolding at string_value lookup
index_by key seen [] = some seen
index_by key seen (f ∷ fs) =
    let id = string_value (at f key) in
    let rest = index_by key ((id, f) ∷ seen) fs in
    if str_eq id "" || is_some (lookup id seen) then none else rest

-- All references are of one kind and scope.
unfoldable pub are_refs : String → String → List SharedTypedRef → Bool
are_refs kind scope [] = true
are_refs kind scope (r ∷ rs) = str_eq r.kind kind && str_eq r.scope scope && are_refs kind scope rs

-- The coverage graph: its scope, its components and its groups.
pub record Graph : Type 0 where
  pub scope : String
  pub components : List (String × Fields)
  pub groups : List (String × Fields)

abbrev pub joined : Required → Required → Required
joined found child = record {
  inputs = add_values found.inputs child.inputs;
  members = add_values found.members child.members;
}

abbrev pub nothing : Required
nothing = record { inputs = []; members = [] }

module _ (refs : Fields → String → List SharedTypedRef) (g : Graph) where
  unfoldable pub component_requirements : Fields → Result CoverageError Required
  unfolding are_refs ref_ids
  component_requirements c =
      if not (are_refs "test-input" g.scope (refs c "input_refs"))
      then err input_differs
      else if not (are_refs "source-member" g.scope (refs c "source_member_refs"))
      then err source_differs
      else ok (record {
        inputs = add_values [] (ref_ids (refs c "input_refs"));
        members = add_values [] (ref_ids (refs c "source_member_refs"));
      })

  -- The children's requirements, added to what is there.
  unfoldable pub walk_members :
      (SharedTypedRef → Result CoverageError Required)
      → Required
      → List SharedTypedRef
      → Result CoverageError Required
  walk_members walk found [] = ok found
  walk_members walk found (r ∷ rs) = elim (walk r) [
    | err e ↦ err e
    | ok child ↦ walk_members walk (joined found child) rs
  ]

  unfoldable pub checked_group : Fields → Required → Result CoverageError Required
  unfolding ref_ids same_string_set
  checked_group group found =
      if same_string_set found.members (ref_ids (refs group "source_member_refs"))
      then ok found
      else err ancestry_differs

  unfoldable pub group_requirements :
      (SharedTypedRef → Result CoverageError Required) → Fields → Result CoverageError Required
  unfolding walk_members checked_group
  group_requirements walk group = elim (walk_members walk nothing (refs group "member_refs")) [
    | err e ↦ err e
    | ok found ↦ checked_group group found
  ]

  -- One call of `walk`; `deeper` is the call for the members of a group that is entered.
  unfoldable pub walk_ref :
      List String
      → (SharedTypedRef → Result CoverageError Required)
      → SharedTypedRef
      → Result CoverageError Required
  unfolding component_requirements group_requirements lookup
  walk_ref visiting deeper r =
      if not (str_eq r.scope g.scope)
      then err scope_differs
      else if str_eq r.kind "component"
      then elim (lookup r.id g.components) [
        | none ↦ err unknown_component
        | some c ↦ component_requirements c
      ]
      else if str_eq r.kind "coverage-group"
      then if contains r.id visiting then err cycle else elim (lookup r.id g.groups) [
        | none ↦ err unknown_group
        | some group ↦ group_requirements deeper group
      ]
      else err kind_differs

  -- The depth of the calls is bounded by the fuel.
  unfoldable pub walk : ℕ → List String → SharedTypedRef → Result CoverageError Required
  unfolding walk_ref
  walk zero visiting r = err out_of_fuel
  walk (suc n) visiting r = walk_ref visiting (walk n (r.id ∷ visiting)) r

-- One more than there are groups is fuel enough.
unfoldable pub shared_coverage_requirements :
    (Value → Option SharedTypedRef) → SharedTypedRef → Semantics → Result CoverageError Required
unfolding index_by walk typed_refs
shared_coverage_requirements decode_ref root s = elim (index_by "component_id" [] s.components) [
  | none ↦ err duplicate_component
  | some components ↦ elim (index_by "group_id" [] s.groups) [
    | none ↦ err duplicate_group
    | some groups ↦
        walk (λ f k. typed_refs decode_ref (at f k))
          (record { scope = s.semantics_id; components = components; groups = groups })
          (suc (length groups)) [] root
  ]
]
