-- ===== src/Ledger/Tables/Creation.antt =====
-- CreateOrGet is idempotent in the request id (api/lifecycle_store.go).
use test_defense_validation.Base.{
  ◌≡◌, refl, Bool, false, none, some, String, str_eq, eq_iff, [], ◌∷◌, ◌++◌, arith, if◌then◌else◌,
}
use test_defense_validation.Ledger.Row.{Row, Submission}
use test_defense_validation.Ledger.Update.{Table}
use test_defense_validation.Ledger.Tables.{
  get_by_request, get_durable, new_row, create_or_get, IsKeyed,
}
use test_defense_validation.Ledger.Steps.{Limits}
use test_defense_validation.Ledger.Invariant.{IsLeased, IsBounded, IsNotified}

get_by_request-append :
    (v : String) (t : Table) (r : Row)
    → get_by_request v (t ++ r ∷ []) ≡ elim (get_by_request v t) [
      | some q ↦ some q
      | none ↦ if str_eq r.request_id v then some r else none
    ]
unfolding get_by_request
get_by_request-append v [] r = refl
get_by_request-append v (q ∷ t) r = ground (arith, get_by_request-append v t r)

get_durable-append :
    (v : String) (t : Table) (r : Row)
    → get_durable v (t ++ r ∷ []) ≡ elim (get_durable v t) [
      | some q ↦ some q
      | none ↦ if str_eq r.run_id v then some r else none
    ]
unfolding get_durable
get_durable-append v [] r = refl
get_durable-append v (q ∷ t) r = ground (arith, get_durable-append v t r)

append-IsKeyed :
    (t : Table) (r : Row)
    → IsKeyed t
    → get_by_request r.request_id t ≡ none
    → get_durable r.run_id t ≡ none
    → IsKeyed (t ++ r ∷ [])
unfolding get_by_request get_durable
append-IsKeyed [] r k a b = (refl, refl, tt)
append-IsKeyed (q ∷ t) r k a b = ground (
  arith,
  get_by_request-append q.request_id t r,
  get_durable-append q.run_id t r,
  append-IsKeyed t r k.2,
  eq_iff q.request_id r.request_id,
  eq_iff r.request_id q.request_id,
  eq_iff q.run_id r.run_id,
  eq_iff r.run_id q.run_id,
)

-- A submission keeps the primary key and the unique index.
pub create_or_get-IsKeyed :
    (s : Submission) (t t' : Table) (r : Row) (created : Bool)
    → IsKeyed t
    → create_or_get s t ≡ some (t', r, created)
    → IsKeyed t'
unfolding create_or_get
create_or_get-IsKeyed s t t' r created k h = ground (arith, append-IsKeyed t (new_row s) k)

-- After a submission every further one with the same request id, whatever else it holds, reads the
-- row of the first, creates nothing and leaves the table as it is.
pub create_or_get_again :
    (s again : Submission) (t t' : Table) (r : Row) (created : Bool)
    → create_or_get s t ≡ some (t', r, created)
    → again.request_id ≡ s.request_id
    → (create_or_get again t' ≡ some (t', r, false)) × (get_by_request s.request_id t' ≡ some r)
unfolding create_or_get
create_or_get_again s again t t' r created h e =
    ground
      (arith, get_by_request-append s.request_id t (new_row s), eq_iff s.request_id s.request_id)

-- A new row satisfies every invariant.
pub new_row_valid :
    (l : Limits) (s : Submission)
    → IsLeased (new_row s) × IsBounded l (new_row s) × IsNotified (new_row s)
unfolding new_row
new_row_valid l s = ground arith
