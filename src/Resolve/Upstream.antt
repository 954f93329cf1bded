-- ===== src/Resolve/Upstream.antt =====
-- The rule that a request's upstream inputs name (api/executor_upstream.go, api/databricks.go:
-- backtick, api/resolve_inline.go). Log lines are left out.
use Prim.Native.Char.{Char, code}
use Prim.Native.String.{◌++◌ as append}
use test_defense_validation.Base.{
  ℕ, Bool, not, ◌&&◌, ◌||◌, Option, none, some, String, List, [], ◌∷◌, ◌++◌, map, leb, ◌==◌,
  if◌then◌else◌, Result, ok, err, str_eq, ◌+◌,
}
use test_defense_validation.Text.{codes, lower_word, eq_codes, is_blank, trim_space}
use test_defense_validation.Text.Strings.{concat, trim, to_lower_by, trim_suffix, starts, occurs}
use test_defense_validation.Translation.{TranslationCodec, ExtractError, extract_custom_waf_rule}
use test_defense_validation.Payload.Assembly.{CustomWafRule}
use test_defense_validation.Outcome.{RunOutcome, CandidateSpec}
use test_defense_validation.Resolve.Action.{derive_rule_action}
use test_defense_validation.Resolve.Report.{resolution_failed, report_resolved_rule, base_outcome}
use test_defense_validation.Resolve.Request.{UpstreamRef, SubmitDefenseValidationRequest}

pub record UpstreamInput : Type 0 where
  pub capability : String
  pub contract_id : String
  pub result_id : String
  pub result_ref : UpstreamRef
  pub evidence_refs : List String

pub record PrimaryCandidate : Type 0 where
  pub artifact_content : String
  pub artifact_type : String
  pub candidate_id : String
  pub candidate_kind : String
  pub discriminator : String
  pub selected_control_class : String

abbrev double_ticks : String → String
double_ticks String.[] = ""
double_ticks (String.◌∷◌ c s) =
    if code c == b'`'
    then String.◌∷◌ c (String.◌∷◌ c (double_ticks s))
    else String.◌∷◌ c (double_ticks s)

unfoldable pub backtick : String → String
backtick id = concat ("`" ∷ double_ticks id ∷ "`" ∷ [])

unfoldable pub qualified : UpstreamRef → String
unfolding backtick
qualified r =
    let table = backtick r.table in
    let in_schema =
      if str_eq r.schema "" then table else concat (backtick r.schema ∷ "." ∷ table ∷ []) in
    if str_eq r.catalog "" then in_schema else concat (backtick r.catalog ∷ "." ∷ in_schema ∷ [])

-- The shape of a ModSecurity rule.
unfoldable pub is_sec_rule : String → Bool
unfolding starts occurs trim_space
is_sec_rule rule =
    starts (codes "SecRule") (trim_space (codes rule)) || occurs (codes "@rx") (codes rule)

unfoldable pub candidate_kind : PrimaryCandidate → String → String
unfolding is_sec_rule eq_codes lower_word
candidate_kind pc rule =
    let class = lower_word pc.selected_control_class in
    if eq_codes class (codes "firewall")
    then "firewall-rule"
    else if eq_codes class (codes "waf")
    then "waf-rule"
    else if is_sec_rule rule
    then "waf-rule"
    else "firewall-rule"

unfoldable pub candidate_engine : (Char → Char) → PrimaryCandidate → String → String
unfolding is_sec_rule trim to_lower_by trim_suffix
candidate_engine other pc rule =
    let kind = to_lower_by other (trim pc.artifact_type) in
    if not (str_eq kind "")
    then trim_suffix (trim_suffix kind "-rule-set") "-rule"
    else if is_sec_rule rule
    then "modsecurity"
    else if occurs (codes "-j ") (codes rule) || occurs (codes "iptables") (codes rule)
    then "iptables"
    else ""

-- Simple case folding, as far as it leads to ASCII letters.
unfoldable pub fold : ℕ → ℕ
fold c =
    if leb b'A' c && leb c b'Z'
    then c + 32
    else if c == 0x17f
    then b's'
    else if c == 0x212a
    then b'k'
    else c

-- strings.EqualFold(strings.TrimSpace(s), t) for a lower-case ASCII text t.
unfoldable pub names : String → String → Bool
unfolding fold trim_space eq_codes
names s t = eq_codes (map fold (trim_space (codes s))) (codes t)

unfoldable pub is_selected : String → UpstreamInput → Bool
unfolding names
is_selected capability e = names e.capability capability && not (is_blank e.result_ref.key)

unfoldable pub select_by_capability : String → List UpstreamInput → Option UpstreamInput
unfolding is_selected
select_by_capability capability [] = none
select_by_capability capability (e ∷ es) =
    if is_selected capability e then some e else select_by_capability capability es

pub data InputsError : Type 0 where
  no_inputs not_an_array no_entries : InputsError

pub data ReadError : Type 0 where
  not_read : String → ReadError
  not_parsed : ReadError
  other_producer : String → ReadError
  not_extracted : ExtractError → ReadError

-- What the executor calls: encoding/json, unicode.ToLower outside ASCII, the database, which answers
-- a query and its key with the result_json of the row or with an error's text, and the texts of the
-- errors.
pub record UpstreamCalls : Type 0 where
  pub codec : TranslationCodec
  pub lower_other : Char → Char
  pub decode_inputs : String → Option (List UpstreamInput)
  pub reader : Option (String → String → Result String String)
  pub show_inputs : InputsError → String
  pub show_read : ReadError → String
  pub decode_candidate : String → Result String CandidateSpec

abbrev pub candidate_from : CustomWafRule → PrimaryCandidate
candidate_from rule = record {
  artifact_content = rule.content;
  artifact_type = rule.artifact_type;
  candidate_id = rule.candidate_id;
  candidate_kind = "";
  discriminator = "";
  selected_control_class = rule.control_class;
}

abbrev pub query_of : UpstreamRef → String
query_of ref =
    concat ("SELECT result_json FROM " ∷ qualified ref ∷ " WHERE result_id = ? LIMIT 1" ∷ [])

abbrev pub upstream_spec : (Char → Char) → PrimaryCandidate → CandidateSpec
upstream_spec other pc = record {
  kind = candidate_kind pc (trim pc.artifact_content);
  engine = candidate_engine other pc (trim pc.artifact_content);
  rule_id = "";
  rule = trim pc.artifact_content;
  action = derive_rule_action (trim pc.artifact_content);
}

abbrev pub row_named : UpstreamRef → String
row_named ref = concat (qualified ref ∷ " where result_id=" ∷ ref.key ∷ [])

abbrev pub not_verified : String
not_verified =
    "Inline mode carries no producer lineage: the rule was not verified against an upstream result."

module _ (calls : UpstreamCalls) where
  unfoldable pub parse_upstream_inputs : Option String → Result InputsError (List UpstreamInput)
  parse_upstream_inputs none = err no_inputs
  parse_upstream_inputs (some raw) = elim (calls.decode_inputs raw) [
    | none ↦ err not_an_array
    | some entries ↦ elim entries [ [] ↦ err no_entries | e ∷ es ↦ ok (e ∷ es) ]
  ]

  unfoldable pub primary_candidate_from_result_json : String → Result ReadError PrimaryCandidate
  primary_candidate_from_result_json js = elim (calls.codec.decode_capability js) [
    | none ↦ err not_parsed
    | some capability ↦
        if not (str_eq capability "control-translation")
        then err (other_producer capability)
        else elim (extract_custom_waf_rule calls.codec js) [
          | err e ↦ err (not_extracted e)
          | ok rule ↦ ok (candidate_from rule)
        ]
  ]

  unfoldable pub read_candidate :
      (String → String → Result String String) → UpstreamRef → Result ReadError PrimaryCandidate
  unfolding primary_candidate_from_result_json
  read_candidate read ref = elim (read (query_of ref) ref.key) [
    | err e ↦ err (not_read e)
    | ok js ↦ primary_candidate_from_result_json js
  ]

  -- After the inputs and the reader.
  unfoldable pub resolve_entries :
      RunOutcome → (String → String → Result String String) → List UpstreamInput → RunOutcome
  resolve_entries base read entries = elim (select_by_capability "control-translation" entries) [
    | none ↦
        resolution_failed base "no control-translation entry in upstream_inputs (need the rule)"
    | some entry ↦ elim (read_candidate read entry.result_ref) [
      | err e ↦ resolution_failed base (
          concat (
            "could not read rule from Databricks "
            ∷ row_named entry.result_ref
            ∷ ": "
            ∷ calls.show_read e
            ∷ []))
      | ok pc ↦
          report_resolved_rule base (upstream_spec calls.lower_other pc) "control-translation"
            (append "Databricks " (row_named entry.result_ref))
    ]
  ]

  unfoldable pub execute_scenario_upstream :
      SubmitDefenseValidationRequest → String → String → RunOutcome
  unfolding parse_upstream_inputs resolve_entries
  execute_scenario_upstream req run_id result_id =
      let base = base_outcome run_id result_id "" in
      elim (parse_upstream_inputs req.upstream_inputs) [
        | err e ↦ resolution_failed base (append "upstream_inputs: " (calls.show_inputs e))
        | ok entries ↦ elim calls.reader [
          | none ↦ resolution_failed base "Databricks reader not configured (DATABRICKS_DSN unset)"
          | some read ↦ resolve_entries base read entries
        ]
      ]

  unfoldable pub report_inline_candidate :
      SubmitDefenseValidationRequest → String → String → RunOutcome
  report_inline_candidate req run_id result_id =
      let base = base_outcome run_id result_id "" in
      elim req.candidate [
        | none ↦
            resolution_failed base
              "no candidate supplied: provide candidate inline, or a defense_result/check_result locator, or upstream_inputs"
        | some raw ↦ elim (calls.decode_candidate raw) [
          | err e ↦ resolution_failed base (append "candidate is not valid: " e)
          | ok cand ↦
              if is_blank cand.rule
              then resolution_failed base "candidate.rule is empty"
              else let out = report_resolved_rule base cand "inline request" "the request body" in
                record out { limitations = out.limitations ++ not_verified ∷ [] }
        ]
      ]
