-- ===== src/Resolve/CheckRow.antt =====
-- The verification of a Check Generation row (api/executor_locator.go: verifyCheckRow).
use Prim.Native.String.{◌++◌ as append, slice}
use test_defense_validation.Base.{
  ℕ, Bool, true, false, not, ◌&&◌, ◌||◌, Option, none, some, String, str_eq, List, [], ◌∷◌,
  if◌then◌else◌, ◌==◌, length, Result, ok, err,
}
use test_defense_validation.Text.Strings.{after_prefix, reverse_onto, concat, reverse_text}
use test_defense_validation.Json.{
  Value, Fields, field, no_fields, object, text, null, at, string_value, map_value,
  string_array_value, has_exact_fields, numeral, boolean, array, to_list,
}
use test_defense_validation.Json.Canonical.{write_value}
use test_defense_validation.Resolve.Request.{ImmutableResultLocator}
use test_defense_validation.Resolve.Locator.{valid_sha256, locator_catalog}
use test_defense_validation.Resolve.Rows.{
  CheckRow, VolumeManifest, RowCalls, digest_of, is_manifest_valid, same_timestamp, has_digest,
}

abbrev pub same_check_row : CheckRow → ImmutableResultLocator → Bool
same_check_row row l =
    str_eq row.result_id l.result_id
    && str_eq row.run_id l.run_id
    && str_eq row.request_id l.request_id
    && str_eq row.correlation_id l.correlation_id
    && str_eq row.capability l.capability
    && str_eq row.terminal_state l.terminal_state
    && str_eq row.status l.status

abbrev pub completion_fields : List String
completion_fields =
    "capability" ∷ "contract_id" ∷ "run_id" ∷ "result_id" ∷ "terminal_state" ∷ "status"
    ∷ "request_id" ∷ "correlation_id" ∷ "result_ref" ∷ "upstream_result_refs" ∷ "evidence_refs"
    ∷ "characterization_revision_id" ∷ "result_contract_type" ∷ "result_contract_version"
    ∷ "subject_record_revision_id" ∷ "content_sha256" ∷ "size_bytes" ∷ "created_at" ∷ []

-- The members of the completion that the logical result repeats.
abbrev pub core_keys : List String
core_keys =
    "capability" ∷ "result_id" ∷ "run_id" ∷ "request_id" ∷ "correlation_id" ∷ "terminal_state"
    ∷ "status" ∷ "upstream_result_refs" ∷ "evidence_refs" ∷ "subject_record_revision_id"
    ∷ "characterization_revision_id" ∷ []

unfoldable pub copied : Fields → List String → Fields → Fields
unfolding at
copied from [] rest = rest
copied from (k ∷ ks) rest = field k (at from k) (copied from ks rest)

-- The logical result: `created_at` is given apart.
unfoldable pub core : Fields → Value → Value → Fields
unfolding copied
core completion created_at run_result = field "created_at" created_at (
    field "contract_id" (text "check-generation-result@1.0")
      (field "run_result" run_result (copied completion core_keys no_fields)))

-- What json.Unmarshal makes of a value as a map.
unfoldable pub as_map : Value → Option Fields
as_map (object fs) = some fs
as_map null = some no_fields
as_map (boolean b) = none
as_map (numeral n) = none
as_map (text s) = none
as_map (array xs) = none

unfoldable pub one_ref : Value → Bool
unfolding to_list
one_ref (array xs) = length (to_list xs) == 1
one_ref null = false
one_ref (boolean b) = false
one_ref (numeral n) = false
one_ref (text s) = false
one_ref (object fs) = false

unfoldable pub is_ref_to : Fields → ImmutableResultLocator → Bool
unfolding at string_value
is_ref_to ref l =
    str_eq (string_value (at ref "system")) "databricks"
    && str_eq (string_value (at ref "catalog")) locator_catalog
    && str_eq (string_value (at ref "schema")) "check_generation"
    && str_eq (string_value (at ref "table")) "check_generation_results"
    && str_eq (string_value (at ref "key")) l.result_id

unfoldable pub contract_of : ImmutableResultLocator → String × String
contract_of l =
    if str_eq l.contract_id "check-generation@2.1"
    then ("check-generation", "2.1")
    else ("check-generation-result", "1.0")

unfoldable pub same_nested : Value → ImmutableResultLocator → Bool
unfolding map_value at string_value
same_nested nested l =
    str_eq (string_value (at (map_value nested) "contract_id")) "check-generation@2.1"
    && str_eq (string_value (at (map_value nested) "run_id")) l.run_id
    && str_eq (string_value (at (map_value nested) "request_id")) l.request_id
    && str_eq (string_value (at (map_value nested) "run_status")) "completed"

-- The other spelling of a created_at with the suffix Z.
unfoldable pub offset_spelling : Value → Option Value
unfolding after_prefix reverse_onto
offset_spelling (text s) = elim (after_prefix "Z" (reverse_text s)) [
  | none ↦ none
  | some rest ↦ some (text (append (reverse_text rest) "+00:00"))
]
offset_spelling null = none
offset_spelling (boolean b) = none
offset_spelling (numeral n) = none
offset_spelling (array xs) = none
offset_spelling (object fs) = none

abbrev pub volume_path : VolumeManifest → String
volume_path m = concat (
    "/Volumes/36889_janus_dev/check_generation/payloads/sha256/"
    ∷ slice (digest_of m) 0 2
    ∷ "/"
    ∷ slice (digest_of m) 2 4
    ∷ "/"
    ∷ digest_of m
    ∷ [])

module _ (calls : RowCalls) where
  unfoldable pub manifest_in : String → Option VolumeManifest
  manifest_in physical = elim (calls.decode_manifest physical) [
    | none ↦ none
    | some m ↦ if str_eq m.contract_type "janus-volume-payload-manifest" then some m else none
  ]

  unfoldable pub volume_payload : String → VolumeManifest → Result String String
  unfolding is_manifest_valid has_digest
  volume_payload physical m =
      if not (calls.has_manifest_shape physical) || not (is_manifest_valid m)
      then err "Check Generation Volume manifest"
      else elim (calls.volume (volume_path m) m.size_bytes) [
        | err e ↦ err (append "read Check Generation Volume payload: " e)
        | ok payload ↦
            if has_digest calls payload m.content_sha256 m.size_bytes
            then ok payload
            else err "Check Generation Volume payload integrity verification failed"
      ]

  -- The bytes of the stored result: those of the row, or those that its manifest names.
  unfoldable pub stored_payload : CheckRow → Result String String
  unfolding manifest_in volume_payload has_digest valid_sha256
  stored_payload row = elim (calls.canonical_sorted row.result_json) [
    | none ↦ err "canonicalize Check Generation result_json"
    | some physical ↦
        let matches = has_digest calls physical row.result_sha256 row.result_size_bytes in
        elim (manifest_in physical) [
          | none ↦
              if not matches && (not (valid_sha256 row.result_sha256) || row.result_size_bytes == 0)
              then err "Check Generation physical result integrity metadata is invalid"
              else ok physical
          | some m ↦
              if not matches
              then err "Check Generation physical result integrity verification failed"
              else volume_payload physical m
        ]
  ]

  unfoldable pub run_result_of : String → ImmutableResultLocator → Result String String
  run_result_of payload l = elim (calls.decode_stored payload) [
    | none ↦ err "Check Generation stored result has no run_result"
    | some stored ↦ elim stored.run_result [
      | none ↦ err "Check Generation stored result has no run_result"
      | some raw ↦
          if str_eq stored.contract_type "check-generation-persisted-result"
            && str_eq stored.contract_version "1.0"
            && str_eq stored.result_id l.result_id
          then ok raw
          else err "Check Generation persisted wrapper identity is invalid"
    ]
  ]

  unfoldable pub has_size : Value → ℕ → Bool
  has_size (numeral n) size = elim (calls.natural n) [ none ↦ false | some k ↦ k == size ]
  has_size null size = false
  has_size (boolean b) size = false
  has_size (text s) size = false
  has_size (array xs) size = false
  has_size (object fs) size = false

  unfoldable pub same_completion : Fields → ImmutableResultLocator → Bool
  unfolding at string_value contract_of has_size is_ref_to map_value
  same_completion c l =
      str_eq (string_value (at c "capability")) l.capability
      && str_eq (string_value (at c "contract_id")) "capability-completion@1.0"
      && str_eq (string_value (at c "result_contract_type")) (contract_of l).0
      && str_eq (string_value (at c "result_contract_version")) (contract_of l).1
      && str_eq (string_value (at c "result_id")) l.result_id
      && str_eq (string_value (at c "run_id")) l.run_id
      && str_eq (string_value (at c "request_id")) l.request_id
      && str_eq (string_value (at c "correlation_id")) l.correlation_id
      && str_eq (string_value (at c "terminal_state")) l.terminal_state
      && str_eq (string_value (at c "status")) l.status
      && str_eq (string_value (at c "content_sha256")) l.content_sha256
      && has_size (at c "size_bytes") l.size_bytes
      && is_ref_to (map_value (at c "result_ref")) l

  -- The completion's members, with its evidence.
  unfoldable pub checked_completion :
      CheckRow → ImmutableResultLocator → Result String (Fields × List String)
  unfolding as_map has_exact_fields same_completion one_ref string_array_value at
  checked_completion row l = elim (calls.decode_value row.completion_json) [
    | none ↦ err "decode Check Generation completion_json"
    | some v ↦ elim (as_map v) [
      | none ↦ err "decode Check Generation completion_json"
      | some c ↦
          if not (has_exact_fields c completion_fields)
          then err "Check Generation completion contract shape is invalid"
          else if not (same_completion c l)
          then err "Check Generation completion identity differs from locator"
          else if not (one_ref (at c "upstream_result_refs"))
          then err "Check Generation completion lineage is invalid"
          else elim (string_array_value (at c "evidence_refs")) [
            | none ↦ err "Check Generation completion lineage is invalid"
            | some evidence ↦ ok (c, evidence)
          ]
    ]
  ]

  unfoldable pub logical_matches : Fields → Value → Value → ImmutableResultLocator → Option Bool
  unfolding core write_value has_digest
  logical_matches c created_at nested l =
      elim (write_value calls.number calls.quote (object (core c created_at nested))) [
        | none ↦ none
        | some logical ↦ some (has_digest calls logical l.content_sha256 l.size_bytes)
      ]

  -- The spelling of created_at under which the logical result has the locator's digest.
  unfoldable pub matching_spelling : Fields → Value → ImmutableResultLocator → Result String Value
  unfolding logical_matches offset_spelling at
  matching_spelling c nested l =
      let failed = err "Check Generation logical result integrity verification failed" in
      let unwritten = err "Check Generation logical result could not be encoded" in
      elim (logical_matches c (at c "created_at") nested l) [
        | none ↦ unwritten
        | some true ↦ ok (at c "created_at")
        | some false ↦ elim (offset_spelling (at c "created_at")) [
          | none ↦ failed
          | some other ↦ elim (logical_matches c other nested l) [
            | none ↦ unwritten
            | some true ↦ ok other
            | some false ↦ failed
          ]
        ]
      ]

  unfoldable pub verify_logical :
      CheckRow → ImmutableResultLocator → Fields → String → Result String Value
  unfolding same_nested matching_spelling same_timestamp string_value
  verify_logical row l c raw = elim (calls.decode_value raw) [
    | none ↦ err "decode Check Generation run_result"
    | some nested ↦
        if not (same_nested nested l)
        then err "Check Generation nested run identity differs from locator"
        else elim (matching_spelling c nested l) [
          | err e ↦ err e
          | ok created_at ↦
              if same_timestamp calls (string_value created_at) l.created_at
                && same_timestamp calls row.created_at l.created_at
              then ok nested
              else err "Check Generation created_at differs from locator"
        ]
  ]

  unfoldable pub verify_check_row :
      CheckRow → ImmutableResultLocator → Result String (String × List String)
  unfolding stored_payload run_result_of checked_completion verify_logical
  verify_check_row row l =
      if not (same_check_row row l)
      then err "Check Generation physical row identity differs from locator"
      else elim (stored_payload row) [
        | err e ↦ err e
        | ok payload ↦ elim (run_result_of payload l) [
          | err e ↦ err e
          | ok raw ↦ elim (checked_completion row l) [
            | err e ↦ err e
            | ok (c, evidence) ↦ elim (verify_logical row l c raw) [
              | err e ↦ err e
              | ok nested ↦ ok (raw, evidence)
            ]
          ]
        ]
      ]
