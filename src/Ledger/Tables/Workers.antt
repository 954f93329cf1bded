-- ===== src/Ledger/Tables/Workers.antt =====
-- A worker's statement on the table (api/lifecycle_store.go: the methods that return `n == 1`).
use test_defense_validation.Base.{ℕ, ◌≡◌, none, some, String, arith, if◌then◌else◌}
use test_defense_validation.Ledger.Update.{Table, changed, update}
use test_defense_validation.Ledger.Tables.{get_durable, IsKeyed}
use test_defense_validation.Ledger.Tables.Statements.{
  Names, Keeps, fires, get_durable-update, update-IsKeyed, update-count,
}
use test_defense_validation.Ledger.Steps.{Limits, WorkerCall, beats, run_worker}

module _ (l : Limits) (now : ℕ) (id w t : String) where
  worker-Names : (c : WorkerCall) → Names id (run_worker l now id w t c)
  unfolding run_worker
  worker-Names (beats d) r h = ground arith
  worker-Names _ r h = ground arith

  worker-Keeps : (c : WorkerCall) → Keeps (run_worker l now id w t c)
  unfolding run_worker
  worker-Keeps (beats d) r q h = ground arith
  worker-Keeps _ r q h = ground arith

-- What a method reports as written is whether its run's row met the WHERE clause; then that row is
-- changed as the SET clause says, and the keys stay unique.
pub worker_statement :
    (l : Limits) (now : ℕ) (id w token : String) (c : WorkerCall) (t : Table)
    → IsKeyed t
    → let f = run_worker l now id w token c in
      ((update f t).1 ≡ (if fires f (get_durable id t) then 1 else 0))
      × (get_durable id (update f t).0
          ≡ elim (get_durable id t) [ none ↦ none | some r ↦ some (changed r (f r)) ])
      × IsKeyed (update f t).0
worker_statement l now id w token c t v =
    let f = run_worker l now id w token c in
    (
      update-count f id (worker-Names l now id w token c) t v,
      get_durable-update f (worker-Keeps l now id w token c) id t,
      update-IsKeyed f (worker-Keeps l now id w token c) t v,
    )
