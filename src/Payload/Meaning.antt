-- ===== src/Payload/Meaning.antt =====
-- What a rule set and a structured rule match: the independent description that
-- mergeAlternatives is held against (api/janus_payload.go, its comment on soundness).
use test_defense_validation.Base.{
  ℕ, ◌≡◌, Bool, true, false, not, ◌&&◌, ◌||◌, String, List, [], ◌∷◌, All, if◌then◌else◌,
}
use test_defense_validation.Payload.Rules.{
  AkamaiCondition, AkamaiAlternative, JanusStructuredCondition, shape,
}

-- A structured condition in the place of a condition: its own fields, and the place's other ones.
abbrev pub placed : AkamaiCondition → JanusStructuredCondition → AkamaiCondition
placed c m = record c {
  type = m.type;
  positive_match = m.positive_match;
  value_wildcard = m.value_wildcard;
}

-- `hit s v` tells whether the request has the value `v` where a condition of shape `s` looks.
module _ (hit : List ℕ → String → Bool) where
  abbrev pub any_hit : List ℕ → List String → Bool
  any_hit s [] = false
  any_hit s (v ∷ vs) = hit s v || any_hit s vs

  -- A negated condition holds where none of its values is met.
  abbrev pub holds : List ℕ → Bool → List String → Bool
  holds s positive vs = if positive then any_hit s vs else not (any_hit s vs)

  -- An alternative is a conjunction, and the set is the disjunction of its alternatives.
  abbrev pub matches : List AkamaiCondition → Bool
  matches [] = true
  matches (c ∷ cs) = holds (shape c) c.positive_match c.value && matches cs

  abbrev pub any_matches : List AkamaiAlternative → Bool
  any_matches [] = false
  any_matches (a ∷ rest) = matches a.conditions || any_matches rest

  -- The structured rule is one conjunction. A structured condition says itself what type it has
  -- and whether its values are wildcards; the rest of where it looks it leaves to its place, which
  -- is that of the first alternative's condition. What it leaves out asks for nothing, and what has
  -- no place is not matched.
  abbrev pub matches_merged : List AkamaiCondition → List JanusStructuredCondition → Bool
  matches_merged [] [] = true
  matches_merged [] (m ∷ ms) = false
  matches_merged (c ∷ cs) [] = true
  matches_merged (c ∷ cs) (m ∷ ms) =
      holds (shape (placed c m)) m.positive_match m.value && matches_merged cs ms

abbrev pub IsPositive : AkamaiAlternative → Type 0
IsPositive a = All (λ c. c.positive_match ≡ true) a.conditions
