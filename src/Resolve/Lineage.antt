-- ===== src/Resolve/Lineage.antt =====
-- What a verified Check Generation row is.
use Prim.Native.String.{len}
use test_defense_validation.Base.{
  ◌≡◌, ◌⊎◌, inl, inr, refl, true, false, some, String, List, arith, ok, Option-cases, Result-cases,
  ◌∙◌, ap,
}
use test_defense_validation.Json.{Value, Fields, object, at, string_value}
use test_defense_validation.Json.Canonical.{write_value}
use test_defense_validation.Resolve.Request.{ImmutableResultLocator}
use test_defense_validation.Resolve.Rows.{CheckRow, RowCalls, same_timestamp}
use test_defense_validation.Resolve.CheckRow.{
  core, offset_spelling, logical_matches, matching_spelling, stored_payload, run_result_of,
  checked_completion, same_nested, verify_logical, verify_check_row,
}
use test_defense_validation.Resolve.Pinned.{has_digest_sound}

module _ (calls : RowCalls) where
  -- The RFC 8785 form of the logical result has the digest and the size that the locator pins.
  abbrev pub HasLogical : Fields → Value → Value → ImmutableResultLocator → Type 0
  HasLogical c created_at nested l =
      (logical : String) × (write_value calls.number calls.quote (object (core c created_at nested))
        ≡ some logical)
      × (calls.digest logical ≡ l.content_sha256)
      × (len logical ≡ l.size_bytes)

  -- The spelling of the creation time: the completion's, or with +00:00 for its Z.
  abbrev pub IsSpelling : Fields → Value → Type 0
  IsSpelling c v = (v ≡ at c "created_at") ⊎ (offset_spelling (at c "created_at") ≡ some v)

  abbrev pub IsLineage : CheckRow → ImmutableResultLocator → List String → Type 0
  IsLineage row l evidence =
      (raw : String) × (payload : String) × (c : Fields) × (nested : Value) × (created_at : Value)
      × (stored_payload calls row ≡ ok payload)
      × (run_result_of calls payload l ≡ ok raw)
      × (checked_completion calls row l ≡ ok (c, evidence))
      × (calls.decode_value raw ≡ some nested)
      × (same_nested nested l ≡ true)
      × IsSpelling c created_at
      × HasLogical c created_at nested l
      × (same_timestamp calls (string_value created_at) l.created_at ≡ true)

  logical_matches_sound :
      (c : Fields) (created_at nested : Value) (l : ImmutableResultLocator)
      → logical_matches calls c created_at nested l ≡ some true
      → HasLogical c created_at nested l
  unfolding logical_matches
  logical_matches_sound c created_at nested l h =
      elim (Option-cases
        (write_value calls.number calls.quote (object (core c created_at nested)))) [
          | inl missing ↦ absurd (ground (arith, missing))
          | inr (logical, written) ↦
              let (d, s) =
                has_digest_sound calls logical l.content_sha256 l.size_bytes
                  (ground (arith, written)) in
              (logical, written, d, s)
        ]

  matching_spelling_sound :
      (c : Fields) (nested : Value) (l : ImmutableResultLocator) (v : Value)
      → matching_spelling calls c nested l ≡ ok v
      → IsSpelling c v × HasLogical c v nested l
  unfolding matching_spelling
  matching_spelling_sound c nested l v h =
      elim (Option-cases (logical_matches calls c (at c "created_at") nested l)) [
        | inl missing ↦ absurd (ground (arith, missing))
        | inr (true, yes_) ↦
            let same : at c "created_at" ≡ v = ground (arith, yes_) in
            rw (← same) (inl refl, logical_matches_sound c (at c "created_at") nested l yes_)
        | inr (false, no_) ↦ elim (Option-cases (offset_spelling (at c "created_at"))) [
          | inl missing ↦ absurd (ground (arith, no_, missing))
          | inr (other, spelled) ↦ elim (Option-cases (logical_matches calls c other nested l)) [
            | inl missing ↦ absurd (ground (arith, no_, spelled, missing))
            | inr (false, no') ↦ absurd (ground (arith, no_, spelled, no'))
            | inr (true, yes') ↦
                let same : other ≡ v = ground (arith, no_, spelled, yes') in
                rw (← same) (inr spelled, logical_matches_sound c other nested l yes')
          ]
        ]
      ]

  verify_logical_sound :
      (row : CheckRow) (l : ImmutableResultLocator) (c : Fields) (raw : String) (nested : Value)
      → verify_logical calls row l c raw ≡ ok nested
      → (created_at : Value) × (calls.decode_value raw ≡ some nested)
        × (same_nested nested l ≡ true)
        × IsSpelling c created_at
        × HasLogical c created_at nested l
        × (same_timestamp calls (string_value created_at) l.created_at ≡ true)
  unfolding verify_logical
  verify_logical_sound row l c raw nested h = elim (Option-cases (calls.decode_value raw)) [
    | inl missing ↦ absurd (ground (arith, missing))
    | inr (n, decoded) ↦ elim (Result-cases (matching_spelling calls c n l)) [
      | inr (e, bad) ↦ absurd (ground (arith, decoded, bad))
      | inl (v, spelled) ↦
          let same : n ≡ nested = ground (arith, decoded, spelled) in
          let (spelling, logical) = matching_spelling_sound c n l v spelled in
          (
            v,
            decoded ∙ ap some same,
            rw (← same) (ground (arith, decoded, spelled)),
            spelling,
            rw (← same) logical,
            ground (arith, decoded, spelled),
          )
    ]
  ]

  pub verify_check_row_sound :
      (row : CheckRow) (l : ImmutableResultLocator) (result : String) (evidence : List String)
      → verify_check_row calls row l ≡ ok (result, evidence)
      → IsLineage row l evidence
  unfolding verify_check_row
  verify_check_row_sound row l result evidence h = elim (Result-cases (stored_payload calls row)) [
    | inr (e, bad) ↦ absurd (ground (arith, bad))
    | inl (payload, stored) ↦ elim (Result-cases (run_result_of calls payload l)) [
      | inr (e, bad) ↦ absurd (ground (arith, stored, bad))
      | inl (raw, ran) ↦ elim (Result-cases (checked_completion calls row l)) [
        | inr (e, bad) ↦ absurd (ground (arith, stored, ran, bad))
        | inl ((c, found), completed) ↦ elim (Result-cases (verify_logical calls row l c raw)) [
          | inr (e, bad) ↦ absurd (ground (arith, stored, ran, completed, bad))
          | inl (nested, verified) ↦
              let same : found ≡ evidence = ground (arith, stored, ran, completed, verified) in
              let (v, decoded, ids, spelled, logical, time) =
                verify_logical_sound row l c raw nested verified in
              (
                raw,
                payload,
                c,
                nested,
                v,
                stored,
                ran,
                rw (← same) completed,
                decoded,
                ids,
                spelled,
                logical,
                time,
              )
        ]
      ]
    ]
  ]
