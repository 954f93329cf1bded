-- ===== src/Payload/Unions.antt =====
-- The values of a position, united over the alternatives (api/janus_payload.go).
use test_defense_validation.Base.{
  ℕ, suc, ◌<◌, ◌≡◌, refl, ◌⊎◌, inl, inr, Bool, true, false, ◌||◌, String, eq_iff, List, [], ◌∷◌,
  ◌++◌, All, arith, length, Bool-cases,
}
use test_defense_validation.Payload.Rules.{
  AkamaiAlternative, value_at, contains, add_values, union_at,
}
use test_defense_validation.Payload.Meaning.{any_hit}

module _ (hit : List ℕ → String → Bool) (s : List ℕ) where
  contains-hit :
      (v : String) (ws : List String)
      → contains v ws ≡ true
      → hit s v ≡ true
      → any_hit hit s ws ≡ true
  contains-hit v [] c h = cc
  contains-hit v (w ∷ ws) c h = ground (arith, contains-hit v ws, eq_iff w v)

  any_hit-append :
      (vs ws : List String) → any_hit hit s (vs ++ ws) ≡ (any_hit hit s vs || any_hit hit s ws)
  any_hit-append [] ws = refl
  any_hit-append (v ∷ vs) ws = ground (arith, any_hit-append vs ws)

  add_values-hit :
      (vs ws : List String)
      → any_hit hit s (add_values vs ws) ≡ (any_hit hit s vs || any_hit hit s ws)
  unfolding add_values
  add_values-hit vs [] = ground arith
  add_values-hit vs (w ∷ ws) = elim (Bool-cases (contains w vs)) [
    | inl e ↦ rw e (ground (arith, add_values-hit vs ws, contains-hit w vs e))
    | inr e ↦ rw e (ground (arith, add_values-hit (vs ++ w ∷ []) ws, any_hit-append vs (w ∷ [])))
  ]

  -- Some alternative has a value at position `i` that is met.
  abbrev pub some_at : ℕ → List AkamaiAlternative → Bool
  some_at i [] = false
  some_at i (a ∷ rest) = any_hit hit s (value_at i a.conditions) || some_at i rest

  pub union_at-hit :
      (i : ℕ) (rules : List AkamaiAlternative) (vs : List String)
      → any_hit hit s (union_at i rules vs) ≡ (any_hit hit s vs || some_at i rules)
  unfolding union_at
  union_at-hit i [] vs = ground arith
  union_at-hit i (a ∷ rest) vs = ground (
    arith,
    union_at-hit i rest (add_values vs (value_at i a.conditions)),
    add_values-hit vs (value_at i a.conditions),
  )

  -- Values that another list holds are met where that list's are.
  pub covered-hit :
      (vs ws : List String)
      → All (λ v. contains v ws ≡ true) vs
      → any_hit hit s vs ≡ true
      → any_hit hit s ws ≡ true
  covered-hit [] ws c h = cc
  covered-hit (v ∷ vs) ws c h = ground (arith, contains-hit v ws c.0, covered-hit vs ws c.1)

length-append_one : (vs : List String) (w : String) → length (vs ++ w ∷ []) ≡ suc (length vs)
length-append_one [] w = refl
length-append_one (v ∷ vs) w = omega (arith, length-append_one vs w)

add_values-grows :
    (vs ws : List String) → (add_values vs ws ≡ vs) ⊎ (length vs < length (add_values vs ws))
unfolding add_values
add_values-grows vs [] = inl refl
add_values-grows vs (w ∷ ws) = elim (Bool-cases (contains w vs)) [
  | inl e ↦ rw e (add_values-grows vs ws)
  | inr e ↦ rw e (ground (arith, add_values-grows (vs ++ w ∷ []) ws, length-append_one vs w))
]

-- A union is longer than its first part, unless it adds nothing to it.
pub union_at-grows :
    (i : ℕ) (rules : List AkamaiAlternative) (vs : List String)
    → (union_at i rules vs ≡ vs) ⊎ (length vs < length (union_at i rules vs))
unfolding union_at
union_at-grows i [] vs = inl refl
union_at-grows i (a ∷ rest) vs = ground (
  arith,
  union_at-grows i rest (add_values vs (value_at i a.conditions)),
  add_values-grows vs (value_at i a.conditions),
)
