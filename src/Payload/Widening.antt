-- ===== src/Payload/Widening.antt =====
-- Rule sets that the collapse changes although it accepts them (api/janus_payload.go:
-- mergeAlternatives counts a position as varying by the length of the union, and unites the values
-- of negated conditions too).
use test_defense_validation.Base.{
  ◌≡◌, refl, String, eq_iff, List, [], ◌∷◌, arith, ok, ◌≢◌, true, ℕ, Bool, false,
}
use test_defense_validation.Text.{eq_codes_refl, upper_word, eq_codes, codes}
use test_defense_validation.Payload.Rules.{
  AkamaiCondition, AkamaiAlternative, shape, to_structured, merge_alternatives,
  JanusStructuredCondition,
}
use test_defense_validation.Payload.Meaning.{any_matches, matches_merged}

-- A condition with other values.
abbrev with_values : AkamaiCondition → List String → AkamaiCondition
with_values c vs = record c { value = vs }

abbrev alternative : String → List AkamaiCondition → AkamaiAlternative
alternative name cs = record {
  name = name;
  operation = "AND";
  source_action = "block";
  conditions = cs;
}

-- (c ∈ {a, b} ∧ e ∈ {x}) ∨ (c ∈ {a} ∧ e ∈ {x, y}).
abbrev pub first_of_two :
    AkamaiCondition → AkamaiCondition → String → String → String → AkamaiAlternative
first_of_two c e a b x =
    alternative "first" (with_values c (a ∷ b ∷ []) ∷ with_values e (x ∷ []) ∷ [])

abbrev pub second_of_two :
    AkamaiCondition → AkamaiCondition → String → String → String → AkamaiAlternative
second_of_two c e a x y =
    alternative "second" (with_values c (a ∷ []) ∷ with_values e (x ∷ y ∷ []) ∷ [])

shape-values : (c : AkamaiCondition) (vs : List String) → shape (with_values c vs) ≡ shape c
unfolding shape
shape-values c vs = refl

and_word : eq_codes (upper_word "AND") (codes "AND") ≡ true
unfolding upper_word eq_codes
and_word = refl

or_word : eq_codes (upper_word "OR") (codes "OR") ≡ true
unfolding upper_word eq_codes
or_word = refl

two_merged :
    (c e : AkamaiCondition) (a b x y : String)
    → b ≢ a
    → y ≢ x
    → merge_alternatives "OR" (first_of_two c e a b x) (second_of_two c e a x y ∷ [])
      ≡ ok (
          to_structured (with_values c (a ∷ b ∷ []))
          ∷ to_structured (with_values e (x ∷ y ∷ []))
          ∷ [])
unfolding merge_alternatives
two_merged c e a b x y n m = ground (
  arith,
  and_word,
  or_word,
  shape-values c (a ∷ b ∷ []),
  shape-values c (a ∷ []),
  shape-values e (x ∷ []),
  shape-values e (x ∷ y ∷ []),
  eq_codes_refl (shape c),
  eq_codes_refl (shape e),
  eq_iff a a,
  eq_iff x x,
  eq_iff a b,
  eq_iff x y,
)

-- The collapse can widen a rule set: with values {a, b} and {x} in the first alternative and {a}
-- and {x, y} in the second it is accepted, since only the second union is longer than the first
-- alternative's list, and the result matches every request with b and y but neither a nor x, which
-- no alternative does.
pub merge_widens :
    (hit : List ℕ → String → Bool) (c e : AkamaiCondition) (a b x y : String)
    → b ≢ a
    → y ≢ x
    → c.positive_match ≡ true
    → e.positive_match ≡ true
    → hit (shape c) a ≡ false
    → hit (shape c) b ≡ true
    → hit (shape e) x ≡ false
    → hit (shape e) y ≡ true
    → let base = first_of_two c e a b x in
      let other = second_of_two c e a x y in
      (ms : List JanusStructuredCondition) × (merge_alternatives "OR" base (other ∷ []) ≡ ok ms)
      × (matches_merged hit base.conditions ms ≡ true)
      × (any_matches hit (base ∷ other ∷ []) ≡ false)
merge_widens hit c e a b x y n m pc pe ha hb hx hy = (
  _,
  two_merged c e a b x y n m,
  ground (arith, shape-values c (a ∷ b ∷ []), shape-values e (x ∷ [])),
  ground (
    arith,
    shape-values c (a ∷ b ∷ []),
    shape-values c (a ∷ []),
    shape-values e (x ∷ []),
    shape-values e (x ∷ y ∷ []),
  ),
)

abbrev pub one_condition : String → AkamaiCondition → String → AkamaiAlternative
one_condition name c v = alternative name (with_values c (v ∷ []) ∷ [])

one_merged :
    (c : AkamaiCondition) (a b : String)
    → b ≢ a
    → merge_alternatives "OR" (one_condition "first" c a) (one_condition "second" c b ∷ [])
      ≡ ok (to_structured (with_values c (a ∷ b ∷ [])) ∷ [])
unfolding merge_alternatives
one_merged c a b n = ground (
  arith,
  and_word,
  or_word,
  shape-values c (a ∷ []),
  shape-values c (b ∷ []),
  eq_codes_refl (shape c),
  eq_iff a b,
)

-- The collapse of a negated condition that differs in one position drops requests: "not a" or
-- "not b" becomes "neither a nor b", so every request with a and without b is lost.
pub merge_negated_narrows :
    (hit : List ℕ → String → Bool) (c : AkamaiCondition) (a b : String)
    → b ≢ a
    → c.positive_match ≡ false
    → hit (shape c) a ≡ true
    → hit (shape c) b ≡ false
    → let base = one_condition "first" c a in
      let other = one_condition "second" c b in
      (ms : List JanusStructuredCondition) × (merge_alternatives "OR" base (other ∷ []) ≡ ok ms)
      × (any_matches hit (base ∷ other ∷ []) ≡ true)
      × (matches_merged hit base.conditions ms ≡ false)
merge_negated_narrows hit c a b n p ha hb = (
  _,
  one_merged c a b n,
  ground (arith, shape-values c (a ∷ []), shape-values c (b ∷ [])),
  ground (arith, shape-values c (a ∷ [])),
)
