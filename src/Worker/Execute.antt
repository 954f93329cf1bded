-- ===== src/Worker/Execute.antt =====
-- executeOne, reconcilePublication, retryVerification and verificationDelay (api/worker.go), with
-- the tests that StageOutcome, FailOutcome and CompletePublished make before their statement
-- (api/lifecycle_store.go). Logging is left out.
use test_defense_validation.Base.{
  ℕ, zero, suc, ◌*◌, Bool, true, false, not, ◌&&◌, ◌||◌, Option, none, some, String, str_eq,
  if◌then◌else◌, ltb, ok, err,
}
use test_defense_validation.Outcome.{
  RunOutcome, Codec, Completion, validate_canonical_result_payload, canonical_result_payload,
}
use test_defense_validation.Ledger.Row.{Row, RunFailure}
use test_defense_validation.Ledger.Steps.{
  WorkerCall, stages, completes, fails, fails_outcome, cancels_run, marks_pending, retries,
  conflicts,
}
use test_defense_validation.Worker.Program.{
  Program, done, execute, cancellation, abandoned, write, beat, publish, verify, Reply, written,
  unwritten, db_error, Beat, owned, unknown, absent, conflict, PublishReply, published, refused,
  unverified,
}

-- RunWorker: durations are in milliseconds. `has_publisher` is `w.publisher != nil`, `can_verify`
-- whether it is a ResultVerifier.
pub record Config : Type 0 where
  pub codec : Codec
  pub has_publisher : Bool
  pub can_verify : Bool
  pub verification_backoff : ℕ

-- The fields of the DurableRun that executeOne reads.
pub record Claimed : Type 0 where
  pub result : Option RunOutcome
  pub result_payload : String
  pub publication_pending : Bool
  pub verification_attempt : ℕ

-- getDurable's Result and ResultPayload: result_payload first, then a response of more than "{}". A
-- stored result_payload is not empty: validateCanonicalResultPayload refuses empty bytes.
unfoldable pub claimed : Codec → Row → Claimed
claimed codec r = record {
  result = elim r.result_payload [
    | some p ↦ codec.unmarshal p
    | none ↦ elim r.response [ none ↦ none | some p ↦ codec.unmarshal p ]
  ];
  result_payload = elim r.result_payload [ some p ↦ p | none ↦ "" ];
  publication_pending = r.publication_pending;
  verification_attempt = r.verification_attempt;
}

abbrev pub five_minutes : ℕ
five_minutes = 300000

-- `for i := 0; i < attempt && delay < 5*time.Minute; i++`.
unfoldable pub double_delay : ℕ → ℕ → ℕ
double_delay zero delay = delay
double_delay (suc left) delay =
    let longer = double_delay left (delay * 2) in
    if ltb delay five_minutes
    then if ltb five_minutes (delay * 2) then five_minutes else longer
    else delay

unfoldable pub verification_delay : ℕ → ℕ → ℕ
unfolding double_delay
verification_delay backoff attempt = double_delay attempt backoff

abbrev pub execution_failed : RunFailure
execution_failed = record {
  code = "execution_failed";
  detail = "Defense validation execution failed";
  retryable = false;
}

abbrev pub malfunction_failure : RunFailure
malfunction_failure = record {
  code = "defense_validation_malfunction";
  detail = "Defense validation reported a malfunction";
  retryable = false;
}

abbrev pub store_unavailable : RunFailure
store_unavailable = record {
  code = "result_store_unavailable";
  detail = "Authoritative Databricks result publication is unavailable";
  retryable = true;
}

abbrev pub conflict_failure : RunFailure
conflict_failure = record {
  code = "result_publication_conflict";
  detail = "Authoritative Databricks result conflicts with the staged canonical result";
  retryable = false;
}

abbrev pub verification_failure : RunFailure
verification_failure = record {
  code = "publication_verification_failed";
  detail =
      "Immutable Databricks result publication could not be verified within the bounded retry policy";
  retryable = false;
}

-- A write after which executeOne only logs.
unfoldable pub finish : WorkerCall → Program
finish c = write c (λ _. done)

-- `out.ResultRef == nil || out.ResultRef.System != "databricks" || … Key != out.ResultID`.
unfoldable pub lacks_reference : RunOutcome → Bool
lacks_reference o = elim o.result_ref [
  | none ↦ true
  | some ref ↦ not (str_eq ref.system "databricks") || not (str_eq ref.key o.result_id)
]

abbrev pub completion_of : RunOutcome → Completion
completion_of o = record {
  capability = "defense-validation";
  contract_id = "capability-completion@1.0";
  request_id = o.request_id;
  correlation_id = o.correlation_id;
  run_id = o.run_id;
  result_id = o.result_id;
  status = "completed";
  terminal_state = o.terminal_state;
  result_ref = o.result_ref;
  evidence_refs = o.evidence_refs;
  content_sha256 = o.content_sha256;
  size_bytes = o.size_bytes;
  created_at = o.created_at;
}

module _ (w : Config) where
  -- CompletePublished; each of its refusals is logged by the caller.
  unfoldable pub complete_program : RunOutcome → String → Program
  unfolding finish lacks_reference
  complete_program o payload =
      if lacks_reference o
      then done
      else elim (validate_canonical_result_payload w.codec o payload) [
        | some e ↦ done
        | none ↦ elim (w.codec.marshal_completion (completion_of o)) [
          | none ↦ done
          | some completion ↦ finish (completes o.terminal_state payload completion)
        ]
      ]

  -- FailOutcome.
  unfoldable pub fail_outcome_program : RunOutcome → RunFailure → Program
  unfolding finish
  fail_outcome_program o f = elim (w.codec.marshal o) [
    | none ↦ done
    | some result ↦ finish (fails_outcome result f)
  ]

module _ (w : Config) (run : Claimed) where
  unfoldable pub retry_program : Program
  unfolding finish verification_delay
  retry_program = finish (
      retries (verification_delay w.verification_backoff run.verification_attempt)
        verification_failure)

  -- reconcilePublication.
  unfoldable pub reconciled : RunOutcome → String → PublishReply → Program
  unfolding complete_program retry_program finish
  reconciled o payload published = complete_program w o payload
  reconciled o payload (unverified absent) = retry_program
  reconciled o payload (unverified conflict) = finish (conflicts conflict_failure)
  reconciled o payload (unverified unknown) = retry_program
  reconciled o payload refused = retry_program

  unfoldable pub reconcile : RunOutcome → String → Program
  unfolding reconciled
  reconcile o payload = verify o payload (reconciled o payload)

  -- After Publish.
  unfoldable pub after_publish : RunOutcome → String → PublishReply → Program
  unfolding complete_program retry_program reconcile
  after_publish o payload published = complete_program w o payload
  after_publish o payload (unverified s) =
      if w.can_verify then reconcile o payload else retry_program
  after_publish o payload refused = retry_program

  unfoldable pub after_mark : RunOutcome → String → Reply → Program
  unfolding after_publish
  after_mark o payload written = publish o payload (after_publish o payload)
  after_mark o payload _ = done

  -- The publication fence of a run that is not pending yet.
  unfoldable pub after_fence : RunOutcome → String → Beat → Program
  unfolding after_mark finish
  after_fence o payload (owned true) = finish cancels_run
  after_fence o payload (owned false) = write marks_pending (after_mark o payload)
  after_fence o payload _ = done

  -- From the staged result on.
  unfoldable pub publish_program : RunOutcome → String → Program
  unfolding complete_program fail_outcome_program retry_program reconcile after_fence
  publish_program o payload = elim o.result_ref [
    | none ↦
        if run.publication_pending
        then retry_program
        else fail_outcome_program w o store_unavailable
    | some ref ↦
        if ref.placeholder
        then complete_program w o payload
        else if not w.has_publisher
        then if run.publication_pending
          then retry_program
          else fail_outcome_program w o store_unavailable
        else if run.publication_pending
        then if w.can_verify then reconcile o payload else retry_program
        else beat (after_fence o payload)
  ]

  unfoldable pub after_stage_beat : Beat → Program
  unfolding finish
  after_stage_beat (owned true) = finish cancels_run
  after_stage_beat _ = done

  unfoldable pub after_stage : RunOutcome → String → Reply → Program
  unfolding publish_program after_stage_beat
  after_stage o payload written = publish_program o payload
  after_stage o payload unwritten = beat after_stage_beat
  after_stage o payload db_error = done

  -- canonicalResultPayload and StageOutcome, which validates the payload once more.
  unfoldable pub stage_program : RunOutcome → Program
  unfolding after_stage
  stage_program o = elim (canonical_result_payload w.codec o) [
    | err e ↦ done
    | ok payload ↦ elim (validate_canonical_result_payload w.codec o payload) [
      | some e ↦ done
      | none ↦ write (stages payload) (after_stage o payload)
    ]
  ]

  -- `none` is an error or a panic of the executor.
  unfoldable pub after_execution : Bool → Option RunOutcome → Bool → Program
  unfolding finish fail_outcome_program publish_program stage_program
  after_execution fresh outcome true = done
  after_execution fresh none false = finish (fails execution_failed)
  after_execution fresh (some o) false =
      if str_eq o.terminal_state "malfunction"
      then fail_outcome_program w o malfunction_failure
      else if fresh
      then stage_program o
      else publish_program o run.result_payload

  unfoldable pub after_flags : Bool → Option RunOutcome → Bool → Program
  unfolding finish after_execution
  after_flags fresh outcome requested =
      if requested && not run.publication_pending
      then finish cancels_run
      else abandoned (after_execution fresh outcome)

  unfoldable pub execute_one : Program
  unfolding after_flags
  execute_one = elim run.result [
    | some o ↦ cancellation (after_flags false (some o))
    | none ↦ execute (λ outcome. cancellation (after_flags true outcome))
  ]
