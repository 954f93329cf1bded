-- ===== src/Worker/Program.antt =====
-- What executeOne does, as a tree of its calls of the executor, the store and the publisher, with a
-- continuation for each answer (api/worker.go, PublicationVerificationState of api/databricks.go).
use test_defense_validation.Base.{Bool, String, Option}
use test_defense_validation.Outcome.{RunOutcome}
use test_defense_validation.Ledger.Steps.{WorkerCall}

-- `n == 1`, `n == 0` and an error of the database, after which the statement may have run or not.
pub data Reply : Type 0 where
  written unwritten db_error : Reply

pub data Beat : Type 0 where
  beat_error not_owned : Beat
  owned : Bool → Beat

pub data VerificationState : Type 0 where
  unknown absent conflict : VerificationState

-- nil, a PublicationVerificationError, or another error.
pub data PublishReply : Type 0 where
  published refused : PublishReply
  unverified : VerificationState → PublishReply

-- `cancellation` and `abandoned` read cancellationRequested, and leaseLost with parent.Err(), which
-- the heartbeat goroutine and the process set; `beat` is the explicit Heartbeat.
pub data Program : Type 0 where
  done : Program
  execute : (Option RunOutcome → Program) → Program
  cancellation : (Bool → Program) → Program
  abandoned : (Bool → Program) → Program
  write : WorkerCall → (Reply → Program) → Program
  beat : (Beat → Program) → Program
  publish : RunOutcome → String → (PublishReply → Program) → Program
  verify : RunOutcome → String → (PublishReply → Program) → Program
