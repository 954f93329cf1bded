-- ===== src/Ledger/Reachable.antt =====
-- What holds of every row that a submission and orderly statements lead to (api/lifecycle_store.go).
use test_defense_validation.Ledger.Row.{Row, Submission}
use test_defense_validation.Ledger.Tables.{new_row}
use test_defense_validation.Ledger.Tables.Creation.{new_row_valid}
use test_defense_validation.Ledger.Steps.{Limits, Step, Steps, Steps-keep}
use test_defense_validation.Ledger.Writes.{Writes, IsOrderly, orderly-Steps}
use test_defense_validation.Ledger.Invariant.{
  IsLeased, IsBounded, IsNotified, Step-IsLeased, Step-IsBounded, Step-IsNotified,
}

-- The three invariants of a row.
abbrev pub IsValid : Limits → Row → Type 0
IsValid l r = IsLeased r × IsBounded l r × IsNotified r

Step-IsValid : (l : Limits) (r q : Row) → Step l r q → IsValid l r → IsValid l q
Step-IsValid l r q s (a, b, c) = (Step-IsLeased l s a, Step-IsBounded l s b, Step-IsNotified l s c)

pub Steps-IsValid : (l : Limits) (s : Submission) {q : Row} → Steps l (new_row s) q → IsValid l q
Steps-IsValid l s z = Steps-keep l (IsValid l) (Step-IsValid l) (new_row_valid l s) z

-- After a submission and any sequence of statements, at any times and by whomever, in which
-- MarkPublicationPending comes after a StageOutcome and CompletePublished has bytes that a
-- StageOutcome has staged, a row has a lease exactly while it runs, an end exactly when it is
-- terminal, a staged result whenever publication is pending, a payload and a completion when it is
-- completed, at most max_attempts attempts while it has no result, at most the bound of
-- verifications, and outbox columns that fit its status.
pub reachable-IsValid :
    (l : Limits) (s : Submission) {q : Row} (z : Writes l (new_row s) q) → IsOrderly z → IsValid l q
reachable-IsValid l s z o = Steps-IsValid l s (orderly-Steps l s z o)
