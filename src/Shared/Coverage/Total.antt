-- ===== src/Shared/Coverage/Total.antt =====
-- The end of the walk of the coverage graph, and its fuel (api/shared_contract_v2.go:
-- sharedCoverageRequirements).
use test_defense_validation.Base.{
  ℕ, zero, suc, ◌+◌, ◌≡◌, ◌≢◌, ◌≤◌, ◌<◌, inl, inr, refl, true, false, Option, String, eq_iff, List,
  [], ◌∷◌, length, arith, err, Option-cases, Bool-cases, ap, Result-cases, Result, is_some,
}
use test_defense_validation.Payload.Rules.{contains}
use test_defense_validation.Translation.{lookup}
use test_defense_validation.Json.{Value, Fields, at}
use test_defense_validation.Shared.{SharedTypedRef, take_one}
use test_defense_validation.Shared.Sets.{count, take_one-count, take_one-length, take_one-some}
use test_defense_validation.Shared.Coverage.{
  CoverageError, Required, Graph, Semantics, walk, walk_ref, walk_members, group_requirements,
  component_requirements, checked_group, index_by, shared_coverage_requirements, out_of_fuel,
  nothing, typed_refs, joined,
}

module _ {ℓ} {A : Type ℓ} where
  abbrev keys : List (String × A) → List String
  keys [] = []
  keys ((k, a) ∷ m) = k ∷ keys m

  keys-length : (m : List (String × A)) → length (keys m) ≡ length m
  keys-length [] = refl
  keys-length ((k, a) ∷ m) = ap suc (keys-length m)

  known-count :
      (k : String) (m : List (String × A)) → is_some (lookup k m) ≡ true → 1 ≤ count k (keys m)
  unfolding lookup
  known-count k [] h = cc
  known-count k ((j, a) ∷ m) h = ground (arith, known-count k m, eq_iff j k)

length-le_of_counts :
    (vs ks : List String) → ((w : String) → count w vs ≤ count w ks) → length vs ≤ length ks
length-le_of_counts [] ks h = omega arith
length-le_of_counts (v ∷ vs) ks h = elim (Option-cases (take_one v ks)) [
  | inl missing ↦ absurd (ground (arith, h v, take_one-some v ks missing, eq_iff v v))
  | inr (rest, e) ↦ omega (
    arith,
    take_one-length v ks rest e,
    length-le_of_counts vs rest (λ w. omega (arith, h w, take_one-count v ks rest w e)),
  )
]

absent-count : (v : String) (vs : List String) → contains v vs ≡ false → count v vs ≡ 0
absent-count v [] h = refl
absent-count v (w ∷ ws) h = ground (arith, absent-count v ws, eq_iff w v)

module _ (refs : Fields → String → List SharedTypedRef) (g : Graph) where
  -- The groups that are being visited: known ones, each once.
  abbrev IsPath : List String → Type 0
  IsPath [] = Unit
  IsPath (v ∷ vs) = (contains v vs ≡ false) × (is_some (lookup v g.groups) ≡ true) × IsPath vs

  IsPath-count :
      (vs : List String) → IsPath vs → (w : String) → count w vs ≤ count w (keys g.groups)
  IsPath-count [] p w = omega arith
  IsPath-count (v ∷ vs) p w =
      ground (
        arith,
        eq_iff v w,
        IsPath-count vs p.2 w,
        absent-count v vs p.0,
        known-count v g.groups p.1,
      )

  IsPath-length : (vs : List String) → IsPath vs → length vs ≤ length g.groups
  IsPath-length vs p =
      omega
        (arith, length-le_of_counts vs (keys g.groups) (IsPath-count vs p), keys-length g.groups)

  walk_members_ends :
      (deeper : SharedTypedRef → Result CoverageError Required)
      → ((r : SharedTypedRef) → deeper r ≢ err out_of_fuel)
      → (found : Required) (rs : List SharedTypedRef)
      → walk_members refs g deeper found rs ≢ err out_of_fuel
  unfolding walk_members
  walk_members_ends deeper h found [] e = cc
  walk_members_ends deeper h found (r ∷ rs) e = elim (Result-cases (deeper r)) [
    | inl (child, d) ↦ walk_members_ends deeper h (joined found child) rs (ground (arith, d))
    | inr (x, d) ↦ h r (ground (arith, d))
  ]

  walk_ref_ends :
      (visiting : List String) (deeper : SharedTypedRef → Result CoverageError Required)
      (r : SharedTypedRef)
      → (contains r.id visiting ≡ false
          → is_some (lookup r.id g.groups) ≡ true
          → (child : SharedTypedRef) → deeper child ≢ err out_of_fuel)
      → walk_ref refs g visiting deeper r ≢ err out_of_fuel
  unfolding walk_ref component_requirements group_requirements checked_group
  walk_ref_ends visiting deeper r h e = elim (Bool-cases (contains r.id visiting)) [
    | inl entered ↦ ground (arith, entered)
    | inr fresh ↦ elim (Option-cases (lookup r.id g.groups)) [
      | inl missing ↦ ground (arith, fresh, missing)
      | inr (group, found) ↦ ground (
        arith,
        fresh,
        found,
        walk_members_ends deeper (h fresh (rw found refl)) nothing (refs group "member_refs"),
      )
    ]
  ]

  walk_ends :
      (n : ℕ) (visiting : List String) (r : SharedTypedRef)
      → IsPath visiting
      → length g.groups < n + length visiting
      → walk refs g n visiting r ≢ err out_of_fuel
  unfolding walk
  walk_ends zero visiting r p h e = omega (arith, IsPath-length visiting p)
  walk_ends (suc n) visiting r p h e =
      walk_ref_ends visiting (walk refs g n (r.id ∷ visiting)) r
        (λ fresh known child. walk_ends n (r.id ∷ visiting) child (fresh, known, p) (omega arith)) e

-- The walk always ends by an answer of its own: the calls are nested at most once for each group, and
-- once more.
pub coverage_ends :
    (decode_ref : Value → Option SharedTypedRef) (root : SharedTypedRef) (s : Semantics)
    → shared_coverage_requirements decode_ref root s ≢ err out_of_fuel
unfolding shared_coverage_requirements
coverage_ends decode_ref root s h = elim (Option-cases (index_by "component_id" [] s.components)) [
  | inl missing ↦ ground (arith, missing)
  | inr (components, e) ↦ elim (Option-cases (index_by "group_id" [] s.groups)) [
    | inl missing ↦ ground (arith, e, missing)
    | inr (groups, f) ↦
        walk_ends (λ x k. typed_refs decode_ref (at x k))
          (record { scope = s.semantics_id; components = components; groups = groups })
          (suc (length groups)) [] root tt (omega arith) (ground (arith, e, f))
  ]
]
