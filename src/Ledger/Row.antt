-- ===== src/Ledger/Row.antt =====
-- The columns of defense_validation_run and the values that they hold (api/lifecycle_store.go:
-- the status constants, RunFailure, migrateLifecycle, the INSERT of CreateOrGet).
use test_defense_validation.Base.{
  ℕ, Bool, true, false, Option, none, some, String, str_eq, leb, ltb,
}

pub data Status : Type 0 where
  queued running completed failed canceled : Status

-- The values that callback_state takes; NULL is `none`.
pub data CallbackState : Type 0 where
  waiting pending delivering retry delivered configuration_failed : CallbackState

pub record RunFailure : Type 0 where
  pub code : String
  pub detail : String
  pub retryable : Bool

-- The columns that the INSERT writes and that no statement changes.
pub record Submission : Type 0 where
  pub run_id : String
  pub result_id : String
  pub request_id : String
  pub correlation_id : String
  pub request : String
  pub request_digest : String
  pub created_at : ℕ
  pub callback_url : Option String
  pub callback_workflow_id : Option String
  pub callback_signal : Option String
  pub callback_event_id : Option String

-- The outbox columns.
pub record Delivery : Type 0 where
  pub callback_state : Option CallbackState
  pub callback_attempt : ℕ
  pub callback_next_at : Option ℕ
  pub callback_delivered_at : Option ℕ
  pub callback_configuration_failed_at : Option ℕ
  pub callback_last_error : Option String
  pub callback_lease_token : Option String
  pub callback_lease_expires_at : Option ℕ

-- `response` is `none` where the column holds '{}'; texts of JSON are texts.
pub record Row : Type 0 where
  pub submission : Submission
  pub open submission use *
  pub status : Status
  pub terminal_state : String
  pub started_at : Option ℕ
  pub updated_at : ℕ
  pub completed_at : Option ℕ
  pub progress_phase : String
  pub progress_message : String
  pub failure : Option RunFailure
  pub response : Option String
  pub result_payload : Option String
  pub completion : Option String
  pub worker_id : Option String
  pub lease_token : Option String
  pub lease_expires_at : Option ℕ
  pub last_heartbeat : Option ℕ
  pub attempt : ℕ
  pub cancel_requested : Bool
  pub publication_pending : Bool
  pub verification_attempt : ℕ
  pub publication_retry_at : Option ℕ
  pub delivery : Delivery
  pub open delivery use *

-- SQL comparisons: a comparison with NULL is not true.
abbrev pub is_value : Option String → String → Bool
is_value none v = false
is_value (some w) v = str_eq w v

abbrev pub is_past : Option ℕ → ℕ → Bool
is_past none now = false
is_past (some t) now = leb t now

abbrev pub is_future : Option ℕ → ℕ → Bool
is_future none now = false
is_future (some t) now = ltb now t

abbrev pub is_queued : Status → Bool
is_queued queued = true
is_queued _ = false

abbrev pub is_running : Status → Bool
is_running running = true
is_running _ = false

-- terminalStatus of lifecycle.go, and `status IN ('completed','failed','canceled')`.
abbrev pub terminal_status : Status → Bool
terminal_status completed = true
terminal_status failed = true
terminal_status canceled = true
terminal_status _ = false

abbrev pub coalesce {ℓ} : {A : Type ℓ} → Option A → A → A
coalesce none d = d
coalesce (some a) d = a
