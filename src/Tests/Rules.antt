-- ===== src/Tests/Rules.antt =====
-- Concrete rule sets (api/janus_payload.go).
use test_defense_validation.Base.{
  ◌≡◌, String, All, List, ◌∷◌, ℕ, true, Bool, [], some, false, ok, str_eq, refl, ◌||◌, ◌≢◌, arith,
  eq_iff, Option,
}
use test_defense_validation.Payload.Meaning.{any_matches, matches_merged, IsPositive}
use test_defense_validation.Payload.Rules.{
  merge_alternatives, AkamaiAlternative, policy_action_for, AkamaiCondition, shape,
  JanusStructuredCondition, to_structured, AkamaiRuleSet,
}
use test_defense_validation.Payload.Action.{asked_action}
use test_defense_validation.Payload.Collapse.{IsSteady, merge_covers, merge_exact}
use test_defense_validation.Payload.Widening.{
  one_condition, first_of_two, merge_negated_narrows, second_of_two, merge_widens,
}
use test_defense_validation.Text.{eq_codes, lower_word, upper_word, is_blank}
use test_defense_validation.Payload.Assembly.{
  JanusPayloadOptions, janus_payload, JanusStructuredRule, CustomWafRule, JanusPayload, assembled,
  no_metadata,
}
use test_defense_validation.Payload.Carried.{IsCarried, payload_carries}

abbrev path_condition : List String → AkamaiCondition
path_condition vs = record {
  type = "pathMatch";
  match_operator = "";
  positive_match = true;
  value = vs;
  value_case = false;
  value_wildcard = true;
  source_carrier = "path";
  source_selector = "";
  transformations = [];
}

abbrev method_condition : AkamaiCondition
method_condition = record (path_condition ("POST" ∷ [])) { type = "requestMethodMatch" }

abbrev rule : String → List AkamaiCondition → AkamaiAlternative
rule name cs = record { name = name; operation = "AND"; source_action = "Block"; conditions = cs }

-- Two alternatives that differ in the path only.
abbrev first_rule : AkamaiAlternative
first_rule = rule "first" (path_condition ("/a" ∷ "/b" ∷ []) ∷ method_condition ∷ [])

abbrev second_rule : AkamaiAlternative
second_rule = rule "second" (path_condition ("/a" ∷ "/b" ∷ "/c" ∷ []) ∷ method_condition ∷ [])

abbrev merged : List JanusStructuredCondition
merged =
    to_structured (path_condition ("/a" ∷ "/b" ∷ "/c" ∷ [])) ∷ to_structured method_condition ∷ []

collapses : merge_alternatives " or " first_rule (second_rule ∷ []) ≡ ok merged
unfolding merge_alternatives shape eq_codes upper_word
collapses = refl

both-IsPositive : All IsPositive (first_rule ∷ second_rule ∷ [])
both-IsPositive = ((refl, (refl, tt)), ((refl, (refl, tt)), tt))

steady : IsSteady 0 first_rule (second_rule ∷ []) first_rule.conditions
unfolding merge_alternatives
steady = (refl, (λ e. cc), (refl, (λ e. ((refl, tt), tt)), tt))

-- A request of the path "/c" by POST.
abbrev request : List ℕ → String → Bool
request s v = str_eq v "/c" || str_eq v "POST"

request_matches : any_matches request (first_rule ∷ second_rule ∷ []) ≡ true
request_matches = refl

merge_covers_example : matches_merged request first_rule.conditions merged ≡ true
merge_covers_example =
    merge_covers request " or " first_rule (second_rule ∷ []) merged collapses both-IsPositive
      request_matches

merge_exact_example :
    matches_merged request first_rule.conditions merged
    ≡ any_matches request (first_rule ∷ second_rule ∷ [])
merge_exact_example =
    merge_exact request " or " first_rule (second_rule ∷ []) merged collapses both-IsPositive steady

abbrev text_a : String
text_a = "/a"

abbrev text_b : String
text_b = "/b"

abbrev text_x : String
text_x = "POST"

abbrev text_y : String
text_y = "PUT"

b_differs : text_b ≢ text_a
b_differs h = ground (arith, eq_iff text_b text_a)

y_differs : text_y ≢ text_x
y_differs h = ground (arith, eq_iff text_y text_x)

-- PUT of "/b", which no alternative lists together.
abbrev put_b : List ℕ → String → Bool
put_b s v = str_eq v "/b" || str_eq v "PUT"

merge_widens_example :
    let base = first_of_two (path_condition []) method_condition text_a text_b text_x in
    let other = second_of_two (path_condition []) method_condition text_a text_x text_y in
    (ms : List JanusStructuredCondition) × (merge_alternatives "OR" base (other ∷ []) ≡ ok ms)
    × (matches_merged put_b base.conditions ms ≡ true)
    × (any_matches put_b (base ∷ other ∷ []) ≡ false)
merge_widens_example =
    merge_widens put_b (path_condition []) method_condition text_a text_b text_x text_y b_differs
      y_differs refl refl refl refl refl refl

abbrev negated : AkamaiCondition
negated = record (path_condition []) { positive_match = false }

-- A request of the path "/a".
abbrev path_a : List ℕ → String → Bool
path_a s v = str_eq v "/a"

merge_negated_narrows_example :
    let base = one_condition "first" negated text_a in
    let other = one_condition "second" negated text_b in
    (ms : List JanusStructuredCondition) × (merge_alternatives "OR" base (other ∷ []) ≡ ok ms)
    × (any_matches path_a (base ∷ other ∷ []) ≡ true)
    × (matches_merged path_a base.conditions ms ≡ false)
merge_negated_narrows_example =
    merge_negated_narrows path_a negated text_a text_b b_differs refl refl refl

abbrev rule_set : AkamaiRuleSet
rule_set = record {
  configuration_type = "akamai-custom-rule-set";
  combination_operation = " or ";
  description = "";
  rules = first_rule ∷ second_rule ∷ [];
  source_candidate_id = "candidate-1";
}

abbrev artifact : CustomWafRule
artifact = record {
  artifact_id = "artifact-1";
  artifact_type = "akamai-waf-rule-set";
  candidate_id = "";
  technology = "akamai-waf";
  control_class = "waf";
  content = "{}";
  content_hash = "sha256:1";
  metadata = no_metadata;
}

abbrev options : JanusPayloadOptions
options = record {
  cve = "CVE-2026-0001";
  policy_version = 3;
  policy_id = "policy";
  rule_id = 7;
  control_instance_id = "control";
  protected_hostname = "example.org";
  target_scope_id = "scope";
  expected_current_action = "";
  expected_live_state_hash = "";
  recovery_spec_ref = "";
}

abbrev read_set : String → Option AkamaiRuleSet
read_set content = some rule_set

abbrev write_rule : JanusStructuredRule → Option String
write_rule r = some r.name

abbrev digest : String → String
digest text = text

abbrev payload : JanusPayload
payload = assembled artifact options rule_set merged "deny" "Janus-Block-CVE-2026-0001"

builds : janus_payload read_set write_rule digest artifact options ≡ ok payload
unfolding janus_payload is_blank shape eq_codes upper_word lower_word merge_alternatives
    policy_action_for
builds = refl

payload_carries_example :
    (set : AkamaiRuleSet) × (base : AkamaiAlternative) × (others : List AkamaiAlternative)
    × (read_set artifact.content ≡ some set)
    × (set.rules ≡ base ∷ others)
    × IsCarried read_set write_rule digest artifact set base others payload
    × All (λ a. asked_action a ≡ some payload.desired_action) (base ∷ others)
payload_carries_example = payload_carries read_set write_rule digest artifact options payload builds
