-- ===== src/Worker/Order.antt =====
-- executeOne makes its calls in the order of the protocol (api/worker.go).
use test_defense_validation.Base.{
  ◌≡◌, refl, Bool, true, false, Option, none, some, String, inl, inr, Option-cases, ◌∙◌,
  if◌then◌else◌, Result-cases, ◌&&◌, str_eq, not, arith,
}
use test_defense_validation.Outcome.{
  RunOutcome, ResultRef, canonical_result_payload, validate_canonical_result_payload,
}
use test_defense_validation.Worker.Program.{
  beat, Reply, written, unwritten, db_error, Beat, beat_error, not_owned, owned, unknown, absent,
  conflict, PublishReply, published, refused, unverified,
}
use test_defense_validation.Worker.Execute.{
  Config, Claimed, fail_outcome_program, retry_program, reconciled, reconcile, after_publish,
  after_mark, after_fence, publish_program, after_stage_beat, after_stage, stage_program,
  after_execution, after_flags, execute_one, verification_delay, store_unavailable,
  conflict_failure, execution_failed, verification_failure, malfunction_failure,
}
use test_defense_validation.Worker.Protocol.{
  Progress, is_placeholder, Follows, start, finish-Follows, complete-Follows, after_answer,
  after_write, if-Follows,
}
use test_defense_validation.Ledger.Steps.{
  cancels_run, fails_outcome, marks_pending, stages, fails, conflicts, retries,
}
use test_defense_validation.Ledger.Row.{RunFailure}

module _ (w : Config) where
  fail-Follows :
      (m : Progress) (o : RunOutcome) (f : RunFailure)
      → m.over ≡ false
      → Follows m (fail_outcome_program w o f)
  unfolding fail_outcome_program
  fail-Follows m o f v = elim (Option-cases (w.codec.marshal o)) [
    | inl e ↦ rw (e, fail_outcome_program) tt
    | inr (p, e) ↦ rw (e, fail_outcome_program) (finish-Follows m (fails_outcome p f) v tt)
  ]

module _ (w : Config) (run : Claimed) where
  retry-Follows :
      (m : Progress) → m.over ≡ false → m.pending ≡ true → Follows m (retry_program w run)
  unfolding retry_program
  retry-Follows m v p =
      finish-Follows m
        (retries (verification_delay w.verification_backoff run.verification_attempt)
          verification_failure)
        v p

  reconciled-Follows :
      (m : Progress) (o : RunOutcome) (p : String) (r : PublishReply)
      → m.over ≡ false
      → m.staged ≡ some p
      → m.pending ≡ true
      → Follows (after_answer r m) (reconciled w run o p r)
  unfolding reconciled
  reconciled-Follows m o p published v s d = complete-Follows w _ o p v s (inl refl)
  reconciled-Follows m o p (unverified absent) v s d = retry-Follows m v d
  reconciled-Follows m o p (unverified conflict) v s d =
      finish-Follows m (conflicts conflict_failure) v d
  reconciled-Follows m o p (unverified unknown) v s d = retry-Follows m v d
  reconciled-Follows m o p refused v s d = retry-Follows m v d

  reconcile-Follows :
      (m : Progress) (o : RunOutcome) (p : String)
      → m.over ≡ false
      → m.staged ≡ some p
      → m.pending ≡ true
      → Follows m (reconcile w run o p)
  unfolding reconcile
  reconcile-Follows m o p v s d = (s, d, v, λ r. reconciled-Follows m o p r v s d)

  verify-Follows :
      (m : Progress) (o : RunOutcome) (p : String)
      → m.over ≡ false
      → m.staged ≡ some p
      → m.pending ≡ true
      → Follows m (if w.can_verify then reconcile w run o p else retry_program w run)
  verify-Follows m o p v s d =
      if-Follows m w.can_verify _ _ (λ e. reconcile-Follows m o p v s d) (λ e. retry-Follows m v d)

  after_publish-Follows :
      (m : Progress) (o : RunOutcome) (p : String) (r : PublishReply)
      → m.over ≡ false
      → m.staged ≡ some p
      → m.pending ≡ true
      → Follows (after_answer r m) (after_publish w run o p r)
  unfolding after_publish
  after_publish-Follows m o p published v s d = complete-Follows w _ o p v s (inl refl)
  after_publish-Follows m o p (unverified x) v s d = verify-Follows m o p v s d
  after_publish-Follows m o p refused v s d = retry-Follows m v d

  after_mark-Follows :
      (m : Progress) (o : RunOutcome) (p : String) (r : Reply)
      → m.over ≡ false
      → m.staged ≡ some p
      → Follows (after_write marks_pending r m) (after_mark w run o p r)
  unfolding after_mark
  after_mark-Follows m o p written v s =
      (s, refl, v, λ r. after_publish-Follows (record m { pending = true }) o p r v s refl)
  after_mark-Follows m o p unwritten v s = tt
  after_mark-Follows m o p db_error v s = tt

  after_fence-Follows :
      (m : Progress) (o : RunOutcome) (p : String) (r : Beat)
      → m.over ≡ false
      → m.staged ≡ some p
      → m.pending ≡ false
      → Follows m (after_fence w run o p r)
  unfolding after_fence
  after_fence-Follows m o p (owned true) v s d = finish-Follows m cancels_run v d
  after_fence-Follows m o p (owned false) v s d =
      (v, (rw s, d), λ r. after_mark-Follows m o p r v s)
  after_fence-Follows m o p beat_error v s d = tt
  after_fence-Follows m o p not_owned v s d = tt

  -- From the staged result on.
  unavailable-Follows :
      (m : Progress) (o : RunOutcome)
      → m.over ≡ false
      → m.pending ≡ run.publication_pending
      → Follows m (
          if run.publication_pending
          then retry_program w run
          else fail_outcome_program w o store_unavailable)
  unavailable-Follows m o v d =
      if-Follows m run.publication_pending _ _ (λ e. retry-Follows m v (d ∙ e))
        (λ e. fail-Follows w m o store_unavailable v)

  fence-Follows :
      (m : Progress) (o : RunOutcome) (p : String)
      → m.over ≡ false
      → m.staged ≡ some p
      → m.pending ≡ run.publication_pending
      → Follows m (
          if run.publication_pending
          then (if w.can_verify then reconcile w run o p else retry_program w run)
          else beat (after_fence w run o p))
  fence-Follows m o p v s d =
      if-Follows m run.publication_pending _ _ (λ e. verify-Follows m o p v s (d ∙ e))
        (λ e. (v, λ r. after_fence-Follows m o p r v s (d ∙ e)))

  publish-Follows :
      (m : Progress) (o : RunOutcome) (p : String)
      → m.over ≡ false
      → m.staged ≡ some p
      → m.pending ≡ run.publication_pending
      → m.placeholder ≡ is_placeholder (some o)
      → Follows m (publish_program w run o p)
  unfolding publish_program
  publish-Follows m o p v s d h = elim (Option-cases o.result_ref) [
    | inl e ↦ rw (e, publish_program) (unavailable-Follows m o v d)
    | inr (ref, e) ↦
        rw (e, publish_program)
          (if-Follows m ref.placeholder _ _
            (λ f. complete-Follows w m o p v s (inr (h ∙ placeholder_of ref e ∙ f)))
            (λ f.
              if-Follows m (not w.has_publisher) _ _ (λ g. unavailable-Follows m o v d)
                (λ g. fence-Follows m o p v s d)))
  ]
    where
      placeholder_of :
          (ref : ResultRef) → o.result_ref ≡ some ref → is_placeholder (some o) ≡ ref.placeholder
      placeholder_of ref e = rw e

  after_stage-Follows :
      (m : Progress) (o : RunOutcome) (p : String) (r : Reply)
      → m.over ≡ false
      → m.pending ≡ run.publication_pending
      → m.pending ≡ false
      → m.placeholder ≡ is_placeholder (some o)
      → Follows (after_write (stages p) r m) (after_stage w run o p r)
  unfolding after_stage
  after_stage-Follows m o p written v d n h =
      publish-Follows (record m { staged = some p }) o p v refl d h
  after_stage-Follows m o p unwritten v d n h = (v, beaten)
    where
      beaten : (r : Beat) → Follows m (after_stage_beat w run r)
      beaten (owned true) = finish-Follows m cancels_run v n
      beaten (owned false) = tt
      beaten beat_error = tt
      beaten not_owned = tt
  after_stage-Follows m o p db_error v d n h = tt

  stage-Follows :
      (m : Progress) (o : RunOutcome)
      → m.over ≡ false
      → m.staged ≡ none
      → m.pending ≡ run.publication_pending
      → m.pending ≡ false
      → m.placeholder ≡ is_placeholder (some o)
      → Follows m (stage_program w run o)
  unfolding stage_program
  stage-Follows m o v s d n h = elim (Result-cases (canonical_result_payload w.codec o)) [
    | inr (x, e) ↦ rw (e, stage_program) tt
    | inl (p, e) ↦
        rw (e, stage_program)
          (elim (Option-cases (validate_canonical_result_payload w.codec o p)) [
            | inr (x, f) ↦ rw f tt
            | inl f ↦ rw f (v, (s, n), λ r. after_stage-Follows m o p r v d n h)
          ])
  ]

  executed-Follows :
      (m : Progress) (o : Option RunOutcome) (c : Bool)
      → m.over ≡ false
      → m.staged ≡ none
      → m.pending ≡ run.publication_pending
      → m.pending ≡ false
      → m.placeholder ≡ is_placeholder o
      → Follows m (after_execution w run true o c)
  unfolding after_execution
  executed-Follows m none true v s d n h = tt
  executed-Follows m (some o) true v s d n h = tt
  executed-Follows m none false v s d n h = finish-Follows m (fails execution_failed) v (s, n)
  executed-Follows m (some o) false v s d n h =
      if-Follows m (str_eq o.terminal_state "malfunction") _ _
        (λ e. fail-Follows w m o malfunction_failure v) (λ e. stage-Follows m o v s d n h)

  recovered-Follows :
      (m : Progress) (o : RunOutcome) (c : Bool)
      → m.over ≡ false
      → m.staged ≡ some run.result_payload
      → m.pending ≡ run.publication_pending
      → m.placeholder ≡ is_placeholder (some o)
      → Follows m (after_execution w run false (some o) c)
  unfolding after_execution
  recovered-Follows m o true v s d h = tt
  recovered-Follows m o false v s d h =
      if-Follows m (str_eq o.terminal_state "malfunction") _ _
        (λ e. fail-Follows w m o malfunction_failure v)
        (λ e. publish-Follows m o run.result_payload v s d h)

  flags-Follows :
      (m : Progress) (fresh : Bool) (o : Option RunOutcome) (c : Bool)
      → m.over ≡ false
      → m.pending ≡ run.publication_pending
      → ((lost : Bool) → Follows m (after_execution w run fresh o lost))
      → Follows m (after_flags w run fresh o c)
  unfolding after_flags
  flags-Follows m fresh o c v d k =
      if-Follows m (c && not run.publication_pending) _ _
        (λ e. finish-Follows m cancels_run v (d ∙ not_pending run.publication_pending e)) (λ e. k)
    where
      not_pending : (b : Bool) → (c && not b) ≡ true → b ≡ false
      not_pending true e = ground (arith, e)
      not_pending false e = refl

  -- With no staged result at the start, or with one.
  pub started-Follows :
      (run.result ≡ none → run.publication_pending ≡ false)
      → Follows (start run) (execute_one w run)
  unfolding execute_one
  started-Follows f = elim (Option-cases run.result) [
    | inl e ↦
        rw (e, execute_one)
          (
            refl,
            f e,
            λ x c.
                flags-Follows (record none_staged { placeholder = is_placeholder x }) true x c refl
                  refl
                  (λ lost.
                    executed-Follows (record none_staged { placeholder = is_placeholder x }) x lost
                      refl refl refl (f e) refl),
          )
    | inr (o, e) ↦
        rw (e, execute_one)
          (λ c.
            flags-Follows (some_staged o) false (some o) c refl refl
              (λ lost. recovered-Follows (some_staged o) o lost refl refl refl refl))
  ]
    where
      none_staged : Progress
      none_staged = record {
        staged = none;
        pending = run.publication_pending;
        acknowledged = false;
        placeholder = false;
        over = false;
      }

      some_staged : RunOutcome → Progress
      some_staged o = record {
        staged = some run.result_payload;
        pending = run.publication_pending;
        acknowledged = false;
        placeholder = is_placeholder (some o);
        over = false;
      }

pub execute_one-Follows :
    (w : Config) (run : Claimed)
    → (run.result ≡ none → run.publication_pending ≡ false)
    → Follows (start run) (execute_one w run)
execute_one-Follows w run f = started-Follows w run f
