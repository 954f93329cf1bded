-- ===== src/Lib.antt =====
-- The defense-validation service (Go, api/): its durable run ledger, the worker that executes and
-- publishes runs, the resolution of the rule that a run asks for, the callback outbox, the result
-- envelope and the collapse of WAF rule sets.
--
-- Parts and how they interact. A client's POST creates a row of the PostgreSQL table
-- defense_validation_run (RunStore.CreateOrGet). RunWorker leases rows (LeaseNext), executes them and
-- moves them by UPDATE statements that are guarded by the lease (api/worker.go: executeOne). To
-- execute a row is to resolve the rule that its request names (executeDurableRun): by immutable
-- locators of producers' rows, which are verified, by the shared contract's resolver, by an upstream
-- control-translation result, or inline. A resolved rule is written and then handed off as an
-- enforcement issue, which carries the single structured rule that api/janus_payload.go builds from
-- the rule set. The result is staged as canonical bytes, published to an external sink and then
-- completed. What ends a run makes its outbox event due, which CallbackDispatcher claims and delivers.
--
-- Files.
--   Base         names and small lemmas that the parts share.
--   Text         what the code uses of Go's strings package, over code points; Strings has the
--                functions whose result is a text again.
--   Json         map[string]any and what is read of it; Canonical is writeRFC8785 of
--                api/executor_locator.go, Order and Reordered are about it.
--   Ledger       api/lifecycle_store.go. Row is a row of the table and Update one UPDATE; Lease
--                (LeaseNext, Heartbeat, UpdateProgress), Finish (StageOutcome to MarkCanceled,
--                MarkPublicationPending, RetryVerification, FailPublicationConflict), Recovery
--                (FailExhausted, RecoverCanceled, Cancel) and Outbox (the callback methods) have one
--                function per method: it is `none` where the WHERE clause fails, and else the row
--                after the SET clause. Steps makes them one step relation, where a step
--                of MarkPublicationPending finds a result and one of CompletePublished has its bytes;
--                in Writes nothing is asked of the row, but of the order of the statements. Diagram,
--                Invariant, Reachable, Terminal, Fencing, Progress and Notify are about one row;
--                Tables and its children about the whole table (CreateOrGet with the errors of its
--                transaction, RowsAffected, ORDER BY … LIMIT 1).
--   Outcome      api/result.go, setCanonicalIntegrity of api/lifecycle.go, and
--                canonicalResultPayload and validateCanonicalResultPayload of api/lifecycle_store.go.
--   Worker       api/worker.go. Program is a tree of the calls that executeOne makes, with a
--                continuation for each answer; Execute translates executeOne, reconcilePublication,
--                retryVerification and verificationDelay into it. Protocol and Order are about the
--                order of the calls, Interleaving runs the tree on a ledger row between the
--                statements of everybody else, Backoff is about the retry delay.
--   Resolve      executeDurableRun and what it calls. Report has resolutionFailed,
--                reportResolvedRule and enrichEnvelope, Request the types of the request.
--                Upstream is executeScenarioUpstream with ReadCandidate, and the inline executor
--                (api/executor_upstream.go, api/resolve_inline.go), Action is deriveRuleAction.
--                Locator is the validation of locators and of requests that carry them, Rows is
--                verifyDefenseRow, CheckRow is verifyCheckRow, Locate is Resolve and
--                executeScenarioByLocator (api/executor_locator.go). Durable is executeDurableRun,
--                persistResolvedRule (api/lifecycle.go) and postEnforcementIssue
--                (api/enforcement.go). Verified, Lineage, Located, Pinned, Admitted, Published and
--                HandedOff are about them.
--   Translation  ExtractCustomWAFRule of api/control_translation.go; Accepted is about it.
--   Shared       api/shared_contract_v2.go: typed references and sets of texts (Sets is about the
--                latter); Coverage is sharedCoverageRequirements, and its children are about its end
--                and its result; Unit is sharedV2ApplicationUnit, and its children are about it;
--                Execute is executeSharedContractV2.
--   Payload      api/janus_payload.go: Rules has mergeAlternatives, policyActionFor and shape;
--                Meaning is an independent description of what rules match; Unions, Positions,
--                Uniform, Collapse, Widening and Action relate the two. Assembly is
--                JanusPayloadFromCustomWAFRule, and Carried is about it.
--   Callback     api/callback.go. Headers has callbackMetadataFromHeaders and callbackHostAllowed,
--                Dispatch has deliver, retry, retryableCallbackStatus, callbackRetryDelay and
--                retryAfter, with the float64 arithmetic in Jitter; a delivery ends in a report,
--                which `recorded` turns into the outbox statement that it makes. Acceptance, Retry
--                and Outcomes are about them.
--   Service      api/lifecycle.go. Submit has handleAsyncSubmit and submissionFrom, Items has
--                handleRunStatus, handleRunResult, handleRunCancel and publicRunStatus, with GetStatus
--                and setCompletion of api/lifecycle_store.go, as functions from the table to the
--                answer and the table. Routes is handleRunsCollection and handleRunItem with
--                runIDFromPath of api/main.go, Validate is validate of api/main.go. Idempotence,
--                Answers, Admission, Addresses and Reached are about them.
--   Tests        concrete runs.
--
-- Correspondence. Times and durations are natural numbers, in nanoseconds in Callback and in
-- milliseconds in Worker; the ledger does not depend on the unit. now() is an argument of
-- each statement, and tokens that newID makes are arguments. NULL is `none`; a comparison with NULL
-- is not true. JSON columns are texts. Rows that another transaction has locked (SKIP LOCKED) are an
-- arbitrary predicate. A database error leaves open whether the statement ran. The resolution of a
-- rule is an argument of executeOne, as are the publisher, encoding/json, and SHA-256; what is relied
-- on of encoding/json is Outcome.IsFaithful. url.Parse, http.ParseTime, simple case folding and the
-- number that rand.Float64 gives are arguments too.
--
-- In Resolve, Translation and Shared the decoders of encoding/json into each type, SHA-256,
-- time.Parse, unicode.ToLower outside ASCII, the formatting of numbers, of fields' names and the
-- quoting of texts are arguments; so are the sources of the producers' rows and of volumes, the
-- resolver of the shared contract (an interface of the source, ResolveV2), the rule sink and the
-- client that posts an issue. Sizes are natural numbers: a negative size_bytes is not represented.
-- What would dereference a nil pointer, and end the goroutine, has the result `none`. Progress
-- reports and log lines are left out. A map that is used as a set is a list without repetition, and
-- where the source sorts its keys only to have an order, the sorting is left out.
--
-- The tree of executeOne has no loop and needs no fuel; the one loop, of verificationDelay, recurses
-- on the number of attempts, which bounds it. The walk of sharedCoverageRequirements recurses on
-- fuel, one more than the number of groups, which is enough since a group that is being visited is
-- refused; that the fuel ran out is an error of the model's own. Rounding to float64 counts at most
-- 160 halvings, more than any number there has binary digits. All else recurses on its data.
--
-- Not modelled: the resolution of shared-contract inputs (ResolveV2: validateSharedBundle,
-- validateSharedCompleteness, validateSharedCGDocument, validateSharedDefenseRow and the catalog in
-- api/shared_contract_catalog.go), the decoding of bodies and the synchronous handlers
-- (api/main.go), the list of all runs, the polling loops of the worker and the dispatcher, the
-- building and posting of the XSIAM issue (api/xsiam_issue*.go), the Databricks client, the rule
-- sink's statement and the database migration's statements: these are glue around the parts above,
-- or wait for them; api/third_party is another project's library. The heartbeat goroutine of
-- executeOne is present as statements at any time and as arbitrary answers of the flags that it
-- sets.
pub mod Base
pub mod Ledger
pub mod Text
pub mod Payload
pub mod Outcome
pub mod Worker
pub mod Callback
pub mod Service
pub mod Translation
pub mod Json
pub mod Shared
pub mod Resolve
pub mod Tests
