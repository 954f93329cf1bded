-- ===== src/Ledger/Tables.antt =====
-- Statements on the whole table (api/lifecycle_store.go: CreateOrGet, getDurable, and the UPDATE of
-- every other method).
pub mod Creation
pub mod Statements
pub mod Workers
pub mod Queue
use test_defense_validation.Base.{
  ℕ, ◌≡◌, Bool, true, false, Option, none, some, String, str_eq, List, [], ◌∷◌, ◌++◌, if◌then◌else◌,
  is_some,
}
use test_defense_validation.Ledger.Row.{Row, Submission, Status, queued, CallbackState, Delivery}
use test_defense_validation.Ledger.Update.{Table, update}

-- getDurable by request_id and by run_id: QueryRow reads the first row, none is sql.ErrNoRows.
unfoldable pub get_by_request : String → Table → Option Row
get_by_request v [] = none
get_by_request v (r ∷ rs) = if str_eq r.request_id v then some r else get_by_request v rs

unfoldable pub get_durable : String → Table → Option Row
get_durable v [] = none
get_durable v (r ∷ rs) = if str_eq r.run_id v then some r else get_durable v rs

-- The values of the INSERT, with the defaults of migrateLifecycle.
unfoldable pub new_row : Submission → Row
new_row s = record {
  submission = s;
  status = queued;
  terminal_state = "";
  started_at = none;
  updated_at = s.created_at;
  completed_at = none;
  progress_phase = "queued";
  progress_message = "Awaiting worker";
  failure = none;
  response = none;
  result_payload = none;
  completion = none;
  worker_id = none;
  lease_token = none;
  lease_expires_at = none;
  last_heartbeat = none;
  attempt = 0;
  cancel_requested = false;
  publication_pending = false;
  verification_attempt = 0;
  publication_retry_at = none;
  delivery = record {
    callback_state = if is_some s.callback_url then some CallbackState.waiting else none;
    callback_attempt = 0;
    callback_next_at = some s.created_at;
    callback_delivered_at = none;
    callback_configuration_failed_at = none;
    callback_last_error = none;
    callback_lease_token = none;
    callback_lease_expires_at = none;
  };
}

-- CreateOrGet: ON CONFLICT (request_id) DO NOTHING, then the row of the request id. A run_id that
-- is taken violates the primary key: the statement fails, `none`.
unfoldable pub create_or_get : Submission → Table → Option (Table × Row × Bool)
unfolding get_by_request get_durable new_row
create_or_get s t = elim (get_by_request s.request_id t) [
  | some stored ↦ some (t, stored, false)
  | none ↦ elim (get_durable s.run_id t) [
    | some taken ↦ none
    | none ↦ some (t ++ new_row s ∷ [], new_row s, true)
  ]
]

-- How the transaction of CreateOrGet may fail: in BeginTx, the INSERT or the SELECT, and then it is
-- rolled back, or in Commit, and then it may have been made or not.
pub data Fault : Type 0 where
  no_fault before_commit : Fault
  at_commit : Bool → Fault

abbrev pub lost : Bool → Table → Option (Table × Row × Bool) → Option (Row × Bool) × Table
lost made t none = (none, t)
lost made t (some (t', r, created)) = (none, if made then t' else t)

abbrev pub told : Table → Option (Table × Row × Bool) → Option (Row × Bool) × Table
told t none = (none, t)
told t (some (t', r, created)) = (some (r, created), t')

-- CreateOrGet with what the database makes of it: the result or an error, `none`, and the table.
unfoldable pub try_create_or_get : Fault → Submission → Table → Option (Row × Bool) × Table
unfolding create_or_get
try_create_or_get no_fault s t = told t (create_or_get s t)
try_create_or_get before_commit s t = (none, t)
try_create_or_get (at_commit made) s t = lost made t (create_or_get s t)

-- The primary key and the unique index.
abbrev pub IsKeyed : Table → Type 0
IsKeyed [] = Unit
IsKeyed (r ∷ rs) =
    (get_by_request r.request_id rs ≡ none) × (get_durable r.run_id rs ≡ none) × IsKeyed rs
