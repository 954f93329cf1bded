-- ===== src/Payload/Uniform.antt =====
-- When the collapse adds nothing (api/janus_payload.go).
use test_defense_validation.Base.{
  ℕ, suc, ◌≤◌, ◌<◌, ◌≡◌, refl, inl, inr, Bool, true, false, String, List, [], ◌∷◌, All, arith,
  length, Bool-cases,
}
use test_defense_validation.Payload.Rules.{
  AkamaiCondition, AkamaiAlternative, shape, value_at, contains, union_at, varies, merge_positions,
}
use test_defense_validation.Payload.Meaning.{any_hit}
use test_defense_validation.Payload.Unions.{some_at, union_at-hit, covered-hit}
use test_defense_validation.Payload.Positions.{matches_at, merged_at, any_at}

-- The alternative has all the values of the list at position `i`.
abbrev pub Covers : ℕ → List String → AkamaiAlternative → Type 0
Covers i vs a = All (λ v. contains v (value_at i a.conditions) ≡ true) vs

-- At each position that is not counted as varying, the union is the base's values and every
-- alternative has all of these.
abbrev pub IsUniform : ℕ → List AkamaiAlternative → List AkamaiCondition → Type 0
IsUniform i rules [] = Unit
IsUniform i rules (b ∷ bs) =
    (varies i rules b ≡ false → (union_at i rules [] ≡ b.value) × All (Covers i b.value) rules)
    × IsUniform (suc i) rules bs

module _ (hit : List ℕ → String → Bool) where
  abbrev pub AllAt : ℕ → List AkamaiAlternative → List AkamaiCondition → Type 0
  AllAt i rules bs = All (λ a. matches_at hit i a.conditions bs ≡ true) rules

  AllAt-nil : (i : ℕ) (rules : List AkamaiAlternative) → AllAt i rules []
  AllAt-nil i [] = tt
  AllAt-nil i (a ∷ rules) = (refl, AllAt-nil i rules)

  steady-AllAt :
      (i : ℕ) (rules : List AkamaiAlternative) (b : AkamaiCondition) (bs : List AkamaiCondition)
      → any_hit hit (shape b) b.value ≡ true
      → All (Covers i b.value) rules
      → AllAt (suc i) rules bs
      → AllAt i rules (b ∷ bs)
  steady-AllAt i [] b bs h c s = tt
  steady-AllAt i (a ∷ rules) b bs h c s = (
    ground (arith, covered-hit hit (shape b) b.value (value_at i a.conditions) c.0),
    steady-AllAt i rules b bs h c.1 s.1,
  )

  steady_any :
      (i : ℕ) (rules : List AkamaiAlternative) (b : AkamaiCondition) (bs : List AkamaiCondition)
      → any_hit hit (shape b) b.value ≡ true
      → All (Covers i b.value) rules
      → any_at hit (suc i) rules bs ≡ true
      → any_at hit i rules (b ∷ bs) ≡ true
  steady_any i [] b bs h c s = cc
  steady_any i (a ∷ rules) b bs h c s = ground (
    arith,
    covered-hit hit (shape b) b.value (value_at i a.conditions) c.0,
    steady_any i rules b bs h c.1,
  )

  varying_any :
      (i : ℕ) (rules : List AkamaiAlternative) (b : AkamaiCondition) (bs : List AkamaiCondition)
      → some_at hit (shape b) i rules ≡ true
      → AllAt (suc i) rules bs
      → any_at hit i rules (b ∷ bs) ≡ true
  varying_any i [] b bs h s = cc
  varying_any i (a ∷ rules) b bs h s = ground (arith, varying_any i rules b bs)

  all_steady :
      (i : ℕ) (rules : List AkamaiAlternative) (bs : List AkamaiCondition)
      → IsUniform i rules bs
      → (merge_positions i rules bs).1 ≡ 0
      → merged_at hit i rules bs ≡ true
      → AllAt i rules bs
  unfolding merge_positions
  all_steady i rules [] u z m = AllAt-nil i rules
  all_steady i rules (b ∷ bs) u z m = elim (Bool-cases (varies i rules b)) [
    | inl e ↦ absurd (ground (arith, e))
    | inr e ↦
        let (same, c) = u.0 e in
        steady-AllAt i rules b bs (ground (arith, same)) c
          (all_steady (suc i) rules bs u.1 (ground (arith, e)) (ground arith))
  ]

  -- With one varying position at most, what the merged rule matches, some alternative does.
  pub merged-any_at :
      (i : ℕ) (rules : List AkamaiAlternative) (bs : List AkamaiCondition)
      → IsUniform i rules bs
      → (merge_positions i rules bs).1 ≤ 1
      → 0 < length rules
      → merged_at hit i rules bs ≡ true
      → any_at hit i rules bs ≡ true
  unfolding merge_positions
  merged-any_at i [] [] u z n m = absurd (omega arith)
  merged-any_at i (a ∷ rules) [] u z n m = refl
  merged-any_at i rules (b ∷ bs) u z n m = elim (Bool-cases (varies i rules b)) [
    | inl e ↦
        varying_any i rules b bs (ground (arith, union_at-hit hit (shape b) i rules []))
          (all_steady (suc i) rules bs u.1 (ground (arith, e)) (ground arith))
    | inr e ↦
        let (same, c) = u.0 e in
        steady_any i rules b bs (ground (arith, same)) c
          (merged-any_at (suc i) rules bs u.1 (ground (arith, e)) n (ground arith))
  ]
