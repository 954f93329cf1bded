-- ===== src/Ledger/Tables/Statements.antt =====
-- What an UPDATE does to the table (api/lifecycle_store.go: RowsAffected, `return n == 1`).
use test_defense_validation.Base.{
  ◌≡◌, refl, Bool, false, Option, none, some, String, str_eq, [], ◌∷◌, map, arith, if◌then◌else◌,
  is_some, ◌+◌, Option-cases, inl, eq_iff, inr,
}
use test_defense_validation.Ledger.Row.{Row}
use test_defense_validation.Ledger.Update.{Table, changed, update}
use test_defense_validation.Ledger.Tables.{get_by_request, get_durable, IsKeyed}

-- The WHERE clause names one run.
abbrev pub Names : String → (Row → Option Row) → Type 0
Names id f = (r : Row) → str_eq r.run_id id ≡ false → f r ≡ none

abbrev pub Keeps : (Row → Option Row) → Type 0
Keeps f = (r q : Row) → f r ≡ some q → q.submission ≡ r.submission

pub fires : (Row → Option Row) → Option Row → Bool
fires f none = false
fires f (some r) = is_some (f r)

changed-submission :
    (f : Row → Option Row) → Keeps f → (r : Row) → (changed r (f r)).submission ≡ r.submission
changed-submission f k r = elim (Option-cases (f r)) [ inl e ↦ rw e | inr (q, e) ↦ rw e (k r q e) ]

update-cons :
    (f : Row → Option Row) (r : Row) (t : Table)
    → ((update f (r ∷ t)).0 ≡ changed r (f r) ∷ (update f t).0)
      × ((update f (r ∷ t)).1 ≡ (if is_some (f r) then (update f t).1 + 1 else (update f t).1))
unfolding update
update-cons f r t = ground arith

-- An UPDATE leaves every row that its WHERE clause does not select as it was, in its place.
pub update-map : (f : Row → Option Row) (t : Table) → (update f t).0 ≡ map (λ r. changed r (f r)) t
unfolding update
update-map f [] = refl
update-map f (r ∷ t) = ground (arith, update-map f t)

get_by_request-update :
    (f : Row → Option Row)
    → Keeps f
    → (v : String) (t : Table)
    → is_some (get_by_request v (update f t).0) ≡ is_some (get_by_request v t)
unfolding get_by_request update
get_by_request-update f k v [] = refl
get_by_request-update f k v (r ∷ t) =
    ground (arith, changed-submission f k r, get_by_request-update f k v t)

pub get_durable-update :
    (f : Row → Option Row)
    → Keeps f
    → (v : String) (t : Table)
    → get_durable v (update f t).0
      ≡ elim (get_durable v t) [ none ↦ none | some r ↦ some (changed r (f r)) ]
unfolding get_durable update
get_durable-update f k v [] = refl
get_durable-update f k v (r ∷ t) =
    ground (arith, changed-submission f k r, get_durable-update f k v t)

pub update-IsKeyed :
    (f : Row → Option Row) → Keeps f → (t : Table) → IsKeyed t → IsKeyed (update f t).0
unfolding update
update-IsKeyed f k [] v = tt
update-IsKeyed f k (r ∷ t) v = ground (
  arith,
  changed-submission f k r,
  get_by_request-update f k r.request_id t,
  get_durable-update f k r.run_id t,
  update-IsKeyed f k t v.2,
)

fires-absent :
    (f : Row → Option Row) (id : String)
    → Names id f
    → (t : Table) → get_durable id t ≡ none
    → (update f t).1 ≡ 0
unfolding get_durable update
fires-absent f id n [] e = refl
fires-absent f id n (r ∷ t) e = ground (arith, n r, fires-absent f id n t)

-- RowsAffected of a statement on one run is 1 if its row meets the WHERE clause, and 0 if not.
pub update-count :
    (f : Row → Option Row) (id : String)
    → Names id f
    → (t : Table) → IsKeyed t
    → (update f t).1 ≡ (if fires f (get_durable id t) then 1 else 0)
unfolding get_durable update fires
update-count f id n [] v = refl
update-count f id n (r ∷ t) v =
    ground (arith, n r, update-count f id n t v.2, fires-absent f id n t, eq_iff r.run_id id)
