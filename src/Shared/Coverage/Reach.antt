-- ===== src/Shared/Coverage/Reach.antt =====
-- The components that a coverage reference leads to, and its requirements
-- (api/shared_contract_v2.go: sharedCoverageRequirements).
use test_defense_validation.Base.{
  ℕ, zero, suc, ◌≡◌, ◌⊎◌, inl, inr, refl, true, false, some, String, str_eq, eq_iff, List, [], ◌∷◌,
  arith, ok, Option-cases, Bool-cases, sym, ◌∙◌, ◌||◌, Result-cases, Result, ◌++◌,
}
use test_defense_validation.Payload.Rules.{contains, add_values}
use test_defense_validation.Translation.{lookup}
use test_defense_validation.Json.{Fields}
use test_defense_validation.Shared.{IsIn, first, later, SharedTypedRef, ref_ids}
use test_defense_validation.Shared.Coverage.{
  CoverageError, Required, Graph, walk, walk_ref, walk_members, group_requirements,
  component_requirements, checked_group, nothing, joined,
}

module _ (refs : Fields → String → List SharedTypedRef) (g : Graph) where
  -- A reference leads to the component that it names, or to what a member of its group leads to.
  pub data LeadsTo (c : Fields) : SharedTypedRef → Type 0 where
    component :
        {r : SharedTypedRef}
        → r.kind ≡ "component"
        → lookup r.id g.components ≡ some c
        → LeadsTo c r
    member :
        {r child : SharedTypedRef} {group : Fields}
        → r.kind ≡ "coverage-group"
        → lookup r.id g.groups ≡ some group
        → IsIn child (refs group "member_refs")
        → LeadsTo c child
        → LeadsTo c r

  -- An input is required by a reference if a component that it leads to names it.
  abbrev pub Requires : String → SharedTypedRef → String → Type 0
  Requires key r i = (c : Fields) × LeadsTo c r × (contains i (ref_ids (refs c key)) ≡ true)

contains-append_one :
    (i : String) (vs : List String) (w : String)
    → contains i (vs ++ w ∷ []) ≡ (contains i vs || str_eq w i)
contains-append_one i [] w = ground arith
contains-append_one i (v ∷ vs) w = ground (arith, contains-append_one i vs w)

pub add_values-contains :
    (i : String) (vs ws : List String)
    → contains i (add_values vs ws) ≡ (contains i vs || contains i ws)
unfolding add_values
add_values-contains i vs [] = ground arith
add_values-contains i vs (w ∷ ws) = elim (Bool-cases (contains w vs)) [
  | inl e ↦ rw e (ground (arith, add_values-contains i vs ws, eq_iff w i))
  | inr e ↦
      rw e (ground (arith, add_values-contains i (vs ++ w ∷ []) ws, contains-append_one i vs w))
]

-- The inputs or the members of the requirements, and the field that lists them.
pub data Part : Type 0 where
  inputs members : Part

abbrev pub selected : Part → Required → List String
selected inputs r = r.inputs
selected members r = r.members

abbrev pub field_of : Part → String
field_of inputs = "input_refs"
field_of members = "source_member_refs"

pub selected-joined :
    (p : Part) (i : String) (a b : Required)
    → contains i (selected p (joined a b))
      ≡ (contains i (selected p a) || contains i (selected p b))
selected-joined inputs i a b = add_values-contains i a.inputs b.inputs
selected-joined members i a b = add_values-contains i a.members b.members

selected-nothing : (p : Part) (i : String) → contains i (selected p nothing) ≡ false
selected-nothing inputs i = refl
selected-nothing members i = refl

module _ (refs : Fields → String → List SharedTypedRef) (g : Graph) where
  pub component-selected :
      (p : Part) (i : String) (c : Fields) (req : Required)
      → component_requirements refs g c ≡ ok req
      → contains i (selected p req) ≡ contains i (ref_ids (refs c (field_of p)))
  unfolding component_requirements
  component-selected inputs i c req h =
      ground (arith, add_values-contains i [] (ref_ids (refs c "input_refs")))
  component-selected members i c req h =
      ground (arith, add_values-contains i [] (ref_ids (refs c "source_member_refs")))

  -- How a call of `walk` succeeds.
  pub walk_ref_cases :
      (visiting : List String) (deeper : SharedTypedRef → Result CoverageError Required)
      (r : SharedTypedRef) (req : Required)
      → walk_ref refs g visiting deeper r ≡ ok req
      → ((c : Fields) × (r.kind ≡ "component")
          × (lookup r.id g.components ≡ some c)
          × (component_requirements refs g c ≡ ok req))
        ⊎ ((group : Fields) × (r.kind ≡ "coverage-group")
            × (lookup r.id g.groups ≡ some group)
            × (walk_members refs g deeper nothing (refs group "member_refs") ≡ ok req))
  unfolding walk_ref group_requirements checked_group
  walk_ref_cases visiting deeper r req h = elim (Bool-cases (str_eq r.kind "component")) [
    | inl kind ↦ elim (Option-cases (lookup r.id g.components)) [
      | inl missing ↦ absurd (ground (arith, kind, missing))
      | inr (c, found) ↦
          inl (c, (eq_iff r.kind "component").0 kind, found, ground (arith, kind, found))
    ]
    | inr other ↦ elim (Option-cases (lookup r.id g.groups)) [
      | inl missing ↦ absurd (ground (arith, other, missing))
      | inr (group, found) ↦
          elim (Result-cases (walk_members refs g deeper nothing (refs group "member_refs"))) [
            | inr (e, bad) ↦ absurd (ground (arith, other, found, bad))
            | inl (all, walked) ↦ inr (
              group,
              ground (arith, other, eq_iff r.kind "coverage-group"),
              found,
              ground (arith, other, found, walked),
            )
          ]
    ]
  ]

  module _ (p : Part) (i : String) where
    abbrev pub IsSoundAt : (SharedTypedRef → Result CoverageError Required) → Type 0
    IsSoundAt deeper =
        (child : SharedTypedRef) (req : Required)
        → deeper child ≡ ok req
        → contains i (selected p req) ≡ true
        → Requires refs g (field_of p) child i

    walk_members_sound :
        (deeper : SharedTypedRef → Result CoverageError Required)
        → IsSoundAt deeper
        → (found : Required) (rs : List SharedTypedRef) (req : Required)
        → walk_members refs g deeper found rs ≡ ok req
        → contains i (selected p req) ≡ true
        → (contains i (selected p found) ≡ true)
          ⊎ ((child : SharedTypedRef) × IsIn child rs × Requires refs g (field_of p) child i)
    unfolding walk_members
    walk_members_sound deeper h found [] req w k = inl (let same : found ≡ req = cc in rw same k)
    walk_members_sound deeper h found (r ∷ rs) req w k = elim (Result-cases (deeper r)) [
      | inr (e, bad) ↦ absurd (ground (arith, bad))
      | inl (child, d) ↦
          elim (walk_members_sound deeper h (joined found child) rs req (ground (arith, d)) k) [
            | inr (x, at_, needs) ↦ inr (x, later at_, needs)
            | inl here_ ↦ elim (Bool-cases (contains i (selected p child))) [
              | inl c ↦ inr (r, first, h r child d c)
              | inr c ↦ inl (ground (arith, selected-joined p i found child))
            ]
          ]
    ]

    pub walk_sound : (n : ℕ) (visiting : List String) → IsSoundAt (walk refs g n visiting)
    unfolding walk
    walk_sound zero visiting r req w k = cc
    walk_sound (suc n) visiting r req w k =
        elim (walk_ref_cases visiting (walk refs g n (r.id ∷ visiting)) r req w) [
          | inl (c, kind, found, e) ↦
              (c, component kind found, sym (component-selected p i c req e) ∙ k)
          | inr (group, kind, found, e) ↦
              elim (walk_members_sound (walk refs g n (r.id ∷ visiting))
                (walk_sound n (r.id ∷ visiting)) nothing (refs group "member_refs") req e k) [
                  | inl none_ ↦ absurd (ground (arith, selected-nothing p i))
                  | inr (child, at_, needs) ↦ (needs.0, member kind found at_ needs.1, needs.2)
                ]
        ]
