-- ===== src/Service/Reached.antt =====
-- What the addresses of a submission lead to (api/lifecycle.go: handleAsyncSubmit, submissionFrom,
-- handleRunItem).
use Prim.Native.String.{◌++◌ as append}
use test_defense_validation.Base.{
  ℕ, ◌≡◌, refl, Bool, Option, some, String, List, [], ◌∷◌, arith, Result-cases, inl, inr, eq_iff,
  ap, ◌∙◌,
}
use test_defense_validation.Ledger.Row.{Row, Submission}
use test_defense_validation.Ledger.Update.{Table}
use test_defense_validation.Ledger.Tables.{get_by_request, get_durable, IsKeyed, Fault}
use test_defense_validation.Ledger.Tables.Creation.{create_or_get-IsKeyed, create_or_get_again}
use test_defense_validation.Outcome.{Codec, Completion}
use test_defense_validation.Service.Submit.{
  Body, Incoming, Fresh, SubmissionResponse, submitted, submission_from, stored_reply, store_run,
  check_submission, handle_async_submit, runs_path,
}
use test_defense_validation.Service.Idempotence.{stored_by}
use test_defense_validation.Service.Items.{
  shows_status, public_run_status, get_status, result_reply, handle_run_status, handle_run_result,
  handle_run_cancel,
}
use test_defense_validation.Service.Routes.{route_parts, routed, handle_run_item, drop_slashes}
use test_defense_validation.Service.Addresses.{IsPart, route_status, route_part, has_slash}
use test_defense_validation.Text.Strings.{reverse_onto}

-- On a table with unique keys a row that is found by its request id is found by its run id.
keyed_found :
    (v : String) (t : Table) (r : Row)
    → IsKeyed t
    → get_by_request v t ≡ some r
    → get_durable r.run_id t ≡ some r
unfolding get_by_request get_durable
keyed_found v [] r k h = absurd (ground arith)
keyed_found v (q ∷ t) r k h =
    ground (arith, keyed_found v t r (k.2), eq_iff q.run_id r.run_id, eq_iff r.run_id r.run_id)

reply_row :
    (s : Submission) (stored : Row) (created : Bool) (code : ℕ) (resp : SubmissionResponse)
    → stored_reply s stored created ≡ submitted code resp
    → submission_from stored ≡ resp
unfolding stored_reply
reply_row s stored created code resp h = ground arith

stored_found :
    (fault : Fault) (s : Submission) (t t' : Table) (code : ℕ) (resp : SubmissionResponse)
    → IsKeyed t
    → store_run fault s t ≡ (submitted code resp, t')
    → (r : Row) × (submission_from r ≡ resp) × (get_durable r.run_id t' ≡ some r)
stored_found fault s t t' code resp k h =
    let (stored, created, made, reply) = stored_by fault s t t' code resp h in
    let keyed = create_or_get-IsKeyed s t t' stored created k made in
    let (_, found) = create_or_get_again s s t t' stored created made refl in
    (
      stored,
      reply_row s stored created code resp reply,
      keyed_found s.request_id t' stored keyed found,
    )

module _ (read : String → Option Completion) (codec : Codec) (view : String → String) where
  -- A request to the address of a row, of its result or of its cancellation reaches the handler of
  -- that run.
  pub addresses_reached :
      (now : ℕ) (r : Row) (t : Table)
      → IsPart r.run_id
      → (handle_run_item read codec view now "GET" ((submission_from r).status_url) t
          ≡ (handle_run_status read r.run_id t, t))
        × (handle_run_item read codec view now "GET" ((submission_from r).result_url) t
            ≡ (handle_run_result codec view r.run_id t, t))
        × (handle_run_item read codec view now "POST"
              (append runs_path (append "/" (append r.run_id "/cancel")))
              t
            ≡ handle_run_cancel codec now r.run_id t)
  unfolding handle_run_item routed submission_from route_parts has_slash drop_slashes reverse_onto
  addresses_reached now r t p = (
    ap (λ x. routed read codec view now x t) (route_status "GET" r.run_id p),
    ap (λ x. routed read codec view now x t)
        (route_part "GET" r.run_id "result" p refl (λ u. refl)),
    ap (λ x. routed read codec view now x t)
        (route_part "POST" r.run_id "cancel" p refl (λ u. refl)),
  )

  row_reached :
      (now : ℕ) (r : Row) (t : Table)
      → IsPart ((submission_from r).run_id)
      → get_durable r.run_id t ≡ some r
      → (get_durable ((submission_from r).run_id) t ≡ some r)
        × (handle_run_item read codec view now "GET" ((submission_from r).status_url) t
            ≡ (shows_status (public_run_status (get_status read r)), t))
        × (handle_run_item read codec view now "GET" ((submission_from r).result_url) t
            ≡ (result_reply codec view r, t))
  unfolding submission_from handle_run_status handle_run_result
  row_reached now r t p found =
      let (status, result, _) = addresses_reached now r t p in
      (
        found,
        status ∙ rw (handle_run_status, found) refl,
        result ∙ rw (handle_run_result, found) refl,
      )

module _ (read : String → Option Completion) (codec : Codec) (view : String → String)
    (validate : Body → List String) (normalized : Body → Option (String × String)) where
  -- After a submission that was accepted, new or repeated, the addresses of the answer show the
  -- status and the result of the run that it names, which is there. The table's keys are taken to
  -- be unique, and the run id to be one part of a path.
  pub submission_reached :
      (fault : Fault) (i : Incoming) (f : Fresh) (t t' : Table) (code now : ℕ)
      (resp : SubmissionResponse)
      → IsKeyed t
      → handle_async_submit validate normalized fault i f t ≡ (submitted code resp, t')
      → IsPart resp.run_id
      → (r : Row) × (get_durable resp.run_id t' ≡ some r)
        × (handle_run_item read codec view now "GET" resp.status_url t'
            ≡ (shows_status (public_run_status (get_status read r)), t'))
        × (handle_run_item read codec view now "GET" resp.result_url t'
            ≡ (result_reply codec view r, t'))
  unfolding handle_async_submit
  submission_reached fault i f t t' code now resp k h p =
      elim (Result-cases (check_submission validate normalized i f)) [
        | inr (x, n) ↦ absurd (ground (arith, n))
        | inl (s, n) ↦
            let (r, same, found) = stored_found fault s t t' code resp k (ground (arith, n)) in
            let part : IsPart ((submission_from r).run_id) = rw same p in
            let (here, status, result) = row_reached read codec view now r t' part found in
            rw (← same) (r, here, status, result)
      ]
