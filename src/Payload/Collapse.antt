-- ===== src/Payload/Collapse.antt =====
-- The collapse is right where it is claimed to be (api/janus_payload.go: mergeAlternatives).
use test_defense_validation.Base.{
  ℕ, suc, ◌≡◌, refl, Bool, true, false, String, eq_iff, List, [], ◌∷◌, map, All, arith, none, ok,
  ◌≤◌, Bool-antisym, sym, ◌∙◌,
}
use test_defense_validation.Payload.Rules.{
  AkamaiCondition, AkamaiAlternative, value_at, contains, add_values, union_at, varies,
  align_alternatives, to_structured, merge_alternatives, JanusStructuredCondition, merge_positions,
}
use test_defense_validation.Payload.Meaning.{matches, any_matches, matches_merged, IsPositive}
use test_defense_validation.Payload.Unions.{union_at-grows}
use test_defense_validation.Payload.Positions.{
  any_at, aligned_matches, base_matches, merged_matches, any_at-merged,
}
use test_defense_validation.Payload.Uniform.{Covers, IsUniform, merged-any_at}

-- The base lists no value twice, and where the union counts as not varying each other alternative
-- has all of the base's values.
abbrev pub IsSteady : ℕ → AkamaiAlternative → List AkamaiAlternative → List AkamaiCondition → Type 0
IsSteady i base others [] = Unit
IsSteady i base others (b ∷ bs) =
    (add_values [] b.value ≡ b.value)
    × (varies i (base ∷ others) b ≡ false → All (Covers i b.value) others)
    × IsSteady (suc i) base others bs

abbrev ReadsAt : ℕ → List AkamaiCondition → List AkamaiCondition → Type 0
ReadsAt i cs [] = Unit
ReadsAt i cs (b ∷ bs) = (value_at i cs ≡ b.value) × ReadsAt (suc i) cs bs

ReadsAt-suc :
    (i : ℕ) (c : AkamaiCondition) (cs bs : List AkamaiCondition)
    → ReadsAt i cs bs
    → ReadsAt (suc i) (c ∷ cs) bs
ReadsAt-suc i c cs [] r = tt
ReadsAt-suc i c cs (b ∷ bs) r = (r.0, ReadsAt-suc (suc i) c cs bs r.1)

ReadsAt-self : (bs : List AkamaiCondition) → ReadsAt 0 bs bs
ReadsAt-self [] = tt
ReadsAt-self (b ∷ bs) = (refl, ReadsAt-suc 0 b bs bs (ReadsAt-self bs))

contains-weaken :
    (w : String) (ws vs : List String)
    → All (λ v. contains v ws ≡ true) vs
    → All (λ v. contains v (w ∷ ws) ≡ true) vs
contains-weaken w ws [] c = tt
contains-weaken w ws (v ∷ vs) c = (ground arith, contains-weaken w ws vs c.1)

contains_self : (vs : List String) → All (λ v. contains v vs ≡ true) vs
contains_self [] = tt
contains_self (v ∷ vs) = (ground (arith, eq_iff v v), contains-weaken v vs vs (contains_self vs))

union_of_base :
    (i : ℕ) (base : AkamaiAlternative) (others : List AkamaiAlternative) (b : AkamaiCondition)
    → value_at i base.conditions ≡ b.value
    → add_values [] b.value ≡ b.value
    → union_at i (base ∷ others) [] ≡ union_at i others b.value
unfolding union_at
union_of_base i base others b r d = rw (r, d)

IsUniform-of_IsSteady :
    (i : ℕ) (base : AkamaiAlternative) (others : List AkamaiAlternative) (bs : List AkamaiCondition)
    → ReadsAt i base.conditions bs
    → IsSteady i base others bs
    → IsUniform i (base ∷ others) bs
IsUniform-of_IsSteady i base others [] r s = tt
IsUniform-of_IsSteady i base others (b ∷ bs) r s = (
  λ e. (
    ground (arith, e, union_of_base i base others b r.0 s.0, union_at-grows i others b.value),
    (rw r.0 (contains_self b.value), s.1 e),
  ),
  IsUniform-of_IsSteady (suc i) base others bs r.1 s.2,
)

module _ (hit : List ℕ → String → Bool) where
  aligned_any :
      (base : List AkamaiCondition) (rules : List AkamaiAlternative)
      → align_alternatives base rules ≡ none
      → All IsPositive rules
      → any_matches hit rules ≡ any_at hit 0 rules base
  unfolding align_alternatives
  aligned_any base [] e p = refl
  aligned_any base (a ∷ rules) e p =
      ground (arith, aligned_any base rules, aligned_matches hit 0 a.conditions base)

  single_exact :
      (cs : List AkamaiCondition) → matches_merged hit cs (map to_structured cs) ≡ matches hit cs
  single_exact [] = refl
  single_exact (c ∷ cs) = ground (arith, single_exact cs)

-- What a successful collapse of two alternatives or more has checked and built.
abbrev Collapsed :
    AkamaiAlternative → List AkamaiAlternative → List JanusStructuredCondition → Type 0
Collapsed base others ms =
    (align_alternatives base.conditions others ≡ none)
    × (ms ≡ (merge_positions 0 (base ∷ others) base.conditions).0)
    × ((merge_positions 0 (base ∷ others) base.conditions).1 ≤ 1)

collapse_inv :
    (op : String) (base a : AkamaiAlternative) (rest : List AkamaiAlternative)
    (ms : List JanusStructuredCondition)
    → merge_alternatives op base (a ∷ rest) ≡ ok ms
    → Collapsed base (a ∷ rest) ms
unfolding merge_alternatives
collapse_inv op base a rest ms h = ground arith

collapse_one :
    (op : String) (base : AkamaiAlternative) (ms : List JanusStructuredCondition)
    → merge_alternatives op base [] ≡ ok ms
    → ms ≡ map to_structured base.conditions
unfolding merge_alternatives
collapse_one op base ms h = ground arith

module _ (hit : List ℕ → String → Bool) (op : String) (base : AkamaiAlternative) where
  base_any :
      (others : List AkamaiAlternative)
      → align_alternatives base.conditions others ≡ none
      → All IsPositive (base ∷ others)
      → any_matches hit (base ∷ others) ≡ any_at hit 0 (base ∷ others) base.conditions
  base_any others e p =
      ground
        (arith, base_matches hit base.conditions p.0, aligned_any hit base.conditions others e p.1)

  -- A rule set of positive conditions that is collapsed loses nothing: a request that one of the
  -- alternatives matches is matched by the structured rule, whose conditions are read in the places
  -- of the first alternative's for what they do not say themselves.
  pub merge_covers :
      (others : List AkamaiAlternative) (ms : List JanusStructuredCondition)
      → merge_alternatives op base others ≡ ok ms
      → All IsPositive (base ∷ others)
      → any_matches hit (base ∷ others) ≡ true
      → matches_merged hit base.conditions ms ≡ true
  merge_covers [] ms h p m =
      rw (collapse_one op base ms h, single_exact hit base.conditions) (ground arith)
  merge_covers (a ∷ rest) ms h p m =
      let (e, same, few) = collapse_inv op base a rest ms h in
      rw (same, merged_matches hit 0 (base ∷ a ∷ rest) base.conditions p.0)
        (any_at-merged hit 0 (base ∷ a ∷ rest) base.conditions (sym (base_any (a ∷ rest) e p) ∙ m))

  -- Where all conditions are positive, the base lists no value twice, and each other alternative has
  -- all of the base's values at the positions that do not vary, the structured rule matches exactly
  -- what the rule set does, its conditions being read in the places of the base's for what they do
  -- not say themselves.
  pub merge_exact :
      (others : List AkamaiAlternative) (ms : List JanusStructuredCondition)
      → merge_alternatives op base others ≡ ok ms
      → All IsPositive (base ∷ others)
      → IsSteady 0 base others base.conditions
      → matches_merged hit base.conditions ms ≡ any_matches hit (base ∷ others)
  merge_exact [] ms h p s =
      rw (collapse_one op base ms h, single_exact hit base.conditions) (ground arith)
  merge_exact (a ∷ rest) ms h p s =
      let (e, same, few) = collapse_inv op base a rest ms h in
      let u =
        IsUniform-of_IsSteady 0 base (a ∷ rest) base.conditions (ReadsAt-self base.conditions) s in
      rw (same, merged_matches hit 0 (base ∷ a ∷ rest) base.conditions p.0, base_any (a ∷ rest) e p)
        (Bool-antisym _ _
          (merged-any_at hit 0 (base ∷ a ∷ rest) base.conditions u few (omega arith))
          (any_at-merged hit 0 (base ∷ a ∷ rest) base.conditions))
