-- ===== src/Payload/Rules.antt =====
-- The rule set of a control-translation artifact and the collapse of its alternatives
-- (api/janus_payload.go: akamaiRuleSet to shape, mergeAlternatives, toStructuredConditions,
-- policyActionFor).
use test_defense_validation.Base.{
  zero, suc, ℕ, ◌+◌, Bool, true, false, not, ◌&&◌, ◌||◌, Option, none, some, String, str_eq, List,
  [], ◌∷◌, ◌++◌, map, length, if◌then◌else◌, ◌==◌, ltb, Result, ok, err, suc,
}
use test_defense_validation.Text.{codes, eq_codes, upper_word, lower_word, join}

pub record AkamaiCondition : Type 0 where
  pub type : String
  pub match_operator : String
  pub positive_match : Bool
  pub value : List String
  pub value_case : Bool
  pub value_wildcard : Bool
  pub source_carrier : String
  pub source_selector : String
  pub transformations : List String

pub record AkamaiAlternative : Type 0 where
  pub name : String
  pub operation : String
  pub source_action : String
  pub conditions : List AkamaiCondition

pub record AkamaiRuleSet : Type 0 where
  pub configuration_type : String
  pub combination_operation : String
  pub description : String
  pub rules : List AkamaiAlternative
  pub source_candidate_id : String

pub record JanusStructuredCondition : Type 0 where
  pub type : String
  pub positive_match : Bool
  pub value : List String
  pub value_wildcard : Bool

-- The refusals, with what their messages name.
pub data MergeError : Type 0 where
  bad_operation : String → String → MergeError
  no_conditions : String → MergeError
  bad_combination : String → ℕ → MergeError
  differ_in_structure : ℕ → ℕ → MergeError
  differ_at_condition : ℕ → MergeError
  differ_in_positions : ℕ → MergeError
  no_action disagreeing_actions unsupported_action : MergeError

-- fmt.Sprint of a bool.
sprint : Bool → List ℕ
sprint true = codes "true"
sprint false = codes "false"

-- Everything about a condition except its values, joined by NUL and the transformations by '|'.
unfoldable pub shape : AkamaiCondition → List ℕ
unfolding sprint join
shape c = join (0 ∷ []) (
    codes c.type
    ∷ codes c.match_operator
    ∷ sprint c.positive_match
    ∷ sprint c.value_case
    ∷ sprint c.value_wildcard
    ∷ codes c.source_carrier
    ∷ codes c.source_selector
    ∷ join (b'|' ∷ []) (map codes c.transformations)
    ∷ [])

-- The first loop of mergeAlternatives.
unfoldable pub check_alternatives : List AkamaiAlternative → Option MergeError
check_alternatives [] = none
check_alternatives (a ∷ rest) =
    let op = upper_word a.operation in
    if not (eq_codes op (codes "AND")) && not (eq_codes op [])
    then some (bad_operation a.name a.operation)
    else elim a.conditions [ [] ↦ some (no_conditions a.name) | _ ∷ _ ↦ check_alternatives rest ]

-- The loop over the conditions of one alternative, from position `i`.
unfoldable pub align_conditions :
    ℕ → List AkamaiCondition → List AkamaiCondition → Option MergeError
align_conditions i [] base = none
align_conditions i (c ∷ cs) [] = none
align_conditions i (c ∷ cs) (b ∷ bs) =
    let rest = align_conditions (suc i) cs bs in
    if eq_codes (shape c) (shape b) then rest else some (differ_at_condition i)

unfoldable pub align_alternatives :
    List AkamaiCondition → List AkamaiAlternative → Option MergeError
unfolding align_conditions
align_alternatives base [] = none
align_alternatives base (a ∷ rest) =
    if length a.conditions == length base
    then elim (align_conditions 0 a.conditions base) [
      | some e ↦ some e
      | none ↦ align_alternatives base rest
    ]
    else some (differ_in_structure (length a.conditions) (length base))

-- `alternative.Conditions[i].Value`; align_alternatives leaves no index out of range.
abbrev pub value_at : ℕ → List AkamaiCondition → List String
value_at i [] = []
value_at zero (c ∷ cs) = c.value
value_at (suc i) (c ∷ cs) = value_at i cs

abbrev pub contains : String → List String → Bool
contains v [] = false
contains v (w ∷ ws) = str_eq w v || contains v ws

-- `for _, v := range …Value { if !seen[v] { seen[v] = true; values = append(values, v) } }`,
-- where `values` holds exactly what `seen` does.
unfoldable pub add_values : List String → List String → List String
add_values values [] = values
add_values values (v ∷ vs) = add_values (if contains v values then values else values ++ v ∷ []) vs

unfoldable pub union_at : ℕ → List AkamaiAlternative → List String → List String
unfolding add_values
union_at i [] values = values
union_at i (a ∷ rest) values = union_at i rest (add_values values (value_at i a.conditions))

abbrev pub to_structured : AkamaiCondition → JanusStructuredCondition
to_structured c = record {
  type = c.type;
  positive_match = c.positive_match;
  value = c.value;
  value_wildcard = c.value_wildcard;
}

-- `if len(values) != len(base.Conditions[i].Value) { varying++ }`.
abbrev pub varies : ℕ → List AkamaiAlternative → AkamaiCondition → Bool
varies i rules c = not (length (union_at i rules []) == length c.value)

-- The union loop, from position `i`: the merged conditions and the count of varying positions.
unfoldable pub merge_positions :
    ℕ → List AkamaiAlternative → List AkamaiCondition → List JanusStructuredCondition × ℕ
unfolding union_at
merge_positions i rules [] = ([], 0)
merge_positions i rules (c ∷ cs) =
    let (merged, varying) = merge_positions (suc i) rules cs in
    (
      record (to_structured c) { value = union_at i rules [] } ∷ merged,
      if varies i rules c then varying + 1 else varying,
    )

-- mergeAlternatives after its first loop, on the first alternative and the others. The set has a
-- rule: JanusPayloadFromCustomWAFRule refuses an empty one before.
unfoldable pub collapse :
    String
    → AkamaiAlternative
    → List AkamaiAlternative
    → Result MergeError (List JanusStructuredCondition)
unfolding align_alternatives merge_positions
collapse op base [] = ok (map to_structured base.conditions)
collapse op base (a ∷ rest) =
    if not (eq_codes (upper_word op) (codes "OR"))
    then err (bad_combination op (length (base ∷ a ∷ rest)))
    else elim (align_alternatives base.conditions (a ∷ rest)) [
      | some e ↦ err e
      | none ↦
          let (merged, varying) = merge_positions 0 (base ∷ a ∷ rest) base.conditions in
          if ltb 1 varying then err (differ_in_positions varying) else ok merged
    ]

unfoldable pub merge_alternatives :
    String
    → AkamaiAlternative
    → List AkamaiAlternative
    → Result MergeError (List JanusStructuredCondition)
unfolding check_alternatives collapse
merge_alternatives op base others = elim (check_alternatives (base ∷ others)) [
  | some e ↦ err e
  | none ↦ collapse op base others
]

-- Every alternative has the word as its action.
abbrev pub agree : List ℕ → List AkamaiAlternative → Bool
agree word [] = true
agree word (a ∷ rest) = eq_codes (lower_word a.source_action) word && agree word rest

-- policyActionFor: the set of actions has one member exactly if all agree with the first.
unfoldable pub policy_action_for :
    AkamaiAlternative → List AkamaiAlternative → Result MergeError String
policy_action_for base others =
    let word = lower_word base.source_action in
    if not (agree word others)
    then err disagreeing_actions
    else if eq_codes word (codes "block") || eq_codes word (codes "deny")
    then ok "deny"
    else if eq_codes word (codes "alert") || eq_codes word (codes "monitor")
    then ok "alert"
    else if eq_codes word []
    then err no_action
    else err unsupported_action
