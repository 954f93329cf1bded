-- ===== src/Payload/Positions.antt =====
-- The merged conditions, position by position (api/janus_payload.go).
use test_defense_validation.Base.{
  ℕ, suc, ◌≡◌, refl, Bool, true, false, ◌&&◌, ◌||◌, String, List, [], ◌∷◌, All, arith, length, none,
}
use test_defense_validation.Text.{eq_codes_sound}
use test_defense_validation.Payload.Rules.{
  AkamaiCondition, AkamaiAlternative, shape, value_at, union_at, merge_positions, align_conditions,
}
use test_defense_validation.Payload.Meaning.{any_hit, matches, matches_merged}
use test_defense_validation.Payload.Unions.{some_at, union_at-hit}

abbrev pub Positive : List AkamaiCondition → Type 0
Positive = All (λ c. c.positive_match ≡ true)

module _ (hit : List ℕ → String → Bool) where
  -- An alternative read at the base's places, from position `i`.
  abbrev pub matches_at : ℕ → List AkamaiCondition → List AkamaiCondition → Bool
  matches_at i cs [] = true
  matches_at i cs (b ∷ bs) = any_hit hit (shape b) (value_at i cs) && matches_at (suc i) cs bs

  -- The merged rule read at the base's places.
  abbrev pub merged_at : ℕ → List AkamaiAlternative → List AkamaiCondition → Bool
  merged_at i rules [] = true
  merged_at i rules (b ∷ bs) =
      any_hit hit (shape b) (union_at i rules []) && merged_at (suc i) rules bs

  abbrev pub any_at : ℕ → List AkamaiAlternative → List AkamaiCondition → Bool
  any_at i [] bs = false
  any_at i (a ∷ rest) bs = matches_at i a.conditions bs || any_at i rest bs

  matches_at-suc :
      (i : ℕ) (c : AkamaiCondition) (cs bs : List AkamaiCondition)
      → matches_at (suc i) (c ∷ cs) bs ≡ matches_at i cs bs
  matches_at-suc i c cs [] = refl
  matches_at-suc i c cs (b ∷ bs) = rw (matches_at-suc (suc i) c cs bs)

  pub aligned_matches :
      (i : ℕ) (cs bs : List AkamaiCondition)
      → length cs ≡ length bs
      → align_conditions i cs bs ≡ none
      → Positive cs
      → matches hit cs ≡ matches_at 0 cs bs
  unfolding align_conditions
  aligned_matches i [] [] e a p = refl
  aligned_matches i [] (b ∷ bs) e a p = absurd (omega arith)
  aligned_matches i (c ∷ cs) [] e a p = absurd (omega arith)
  aligned_matches i (c ∷ cs) (b ∷ bs) e a p = ground (
    arith,
    eq_codes_sound (shape c) (shape b),
    aligned_matches (suc i) cs bs,
    matches_at-suc 0 c cs bs,
  )

  pub base_matches : (bs : List AkamaiCondition) → Positive bs → matches hit bs ≡ matches_at 0 bs bs
  base_matches [] p = refl
  base_matches (b ∷ bs) p = ground (arith, base_matches bs p.1, matches_at-suc 0 b bs bs)

  pub merged_matches :
      (i : ℕ) (rules : List AkamaiAlternative) (bs : List AkamaiCondition)
      → Positive bs
      → matches_merged hit bs (merge_positions i rules bs).0 ≡ merged_at i rules bs
  unfolding merge_positions
  merged_matches i rules [] p = refl
  merged_matches i rules (b ∷ bs) p = ground (arith, merged_matches (suc i) rules bs p.1)

  -- No alternative is lost.
  some_at_first :
      (s : List ℕ) (i : ℕ) (a : AkamaiAlternative) (rules : List AkamaiAlternative)
      → any_hit hit s (value_at i a.conditions) ≡ true
      → some_at hit s i (a ∷ rules) ≡ true
  some_at_first s i a rules h = rw h

  merged_mono :
      (i : ℕ) (a : AkamaiAlternative) (rules : List AkamaiAlternative) (bs : List AkamaiCondition)
      → merged_at i rules bs ≡ true
      → merged_at i (a ∷ rules) bs ≡ true
  merged_mono i a rules [] h = refl
  merged_mono i a rules (b ∷ bs) h = ground (
    arith,
    union_at-hit hit (shape b) i rules [],
    union_at-hit hit (shape b) i (a ∷ rules) [],
    merged_mono (suc i) a rules bs,
  )

  merged_first :
      (i : ℕ) (a : AkamaiAlternative) (rules : List AkamaiAlternative) (bs : List AkamaiCondition)
      → matches_at i a.conditions bs ≡ true
      → merged_at i (a ∷ rules) bs ≡ true
  merged_first i a rules [] h = refl
  merged_first i a rules (b ∷ bs) h =
      ground (arith, union_at-hit hit (shape b) i (a ∷ rules) [], merged_first (suc i) a rules bs)

  pub any_at-merged :
      (i : ℕ) (rules : List AkamaiAlternative) (bs : List AkamaiCondition)
      → any_at i rules bs ≡ true
      → merged_at i rules bs ≡ true
  any_at-merged i [] bs h = cc
  any_at-merged i (a ∷ rules) bs h =
      ground (arith, merged_first i a rules bs, merged_mono i a rules bs, any_at-merged i rules bs)
