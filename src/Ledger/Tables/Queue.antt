-- ===== src/Ledger/Tables/Queue.antt =====
-- LeaseNext takes the oldest run that may be leased (api/lifecycle_store.go).
use test_defense_validation.Base.{
  ℕ, ◌≤◌, ◌≡◌, ◌⊎◌, inl, inr, Bool, true, false, Option, none, some, String, eq_iff, [], ◌∷◌, All,
  arith, Bool-cases, ◌&&◌, is_some, not, &&_iff, is_some_value, ◌∙◌, Option-cases, refl,
}
use test_defense_validation.Ledger.Row.{Row}
use test_defense_validation.Ledger.Update.{Table}
use test_defense_validation.Ledger.Lease.{leasable, claim, oldest, lease_next}
use test_defense_validation.Ledger.Tables.{get_durable, IsKeyed, update}
use test_defense_validation.Ledger.Tables.Statements.{Keeps, get_durable-update}
use test_defense_validation.Ledger.Steps.{Limits, leases, run_service}

abbrev pub In : Row → Table → Type 0
In r [] = ⊥
In r (x ∷ xs) = (x ≡ r) ⊎ In r xs

-- `r` is the oldest of the rows of the table that pass, and of `best`.
abbrev pub IsOldest : (Row → Bool) → Row → Table → Type 0
IsOldest p r = All (λ x. p x ≡ true → r.created_at ≤ x.created_at)

abbrev Found : (Row → Bool) → Table → Option Row → Option Row → Type 0
Found p t none none = All (λ x. p x ≡ false) t
Found p t (some b) none = ⊥
Found p t none (some r) = (p r ≡ true) × In r t × IsOldest p r t
Found p t (some b) (some r) =
    ((r ≡ b) ⊎ ((p r ≡ true) × In r t)) × (r.created_at ≤ b.created_at) × IsOldest p r t

oldest-Found : (p : Row → Bool) (t : Table) (best : Option Row) → Found p t best (oldest p t best)
unfolding oldest
oldest-Found p [] none = tt
oldest-Found p [] (some b) = ground arith
oldest-Found p (x ∷ t) none = elim (Bool-cases (p x)) [
  | inl e ↦ rw e (ground (arith, oldest-Found p t (some x)))
  | inr e ↦ rw e (ground (arith, oldest-Found p t none))
]
oldest-Found p (x ∷ t) (some b) =
    ground (arith, oldest-Found p t (some x), oldest-Found p t (some b))

In-get_durable : (r : Row) (t : Table) → IsKeyed t → In r t → get_durable r.run_id t ≡ some r
unfolding get_durable
In-get_durable r [] v m = absurd m
In-get_durable r (x ∷ t) v m = ground (arith, In-get_durable r t v.2, eq_iff x.run_id r.run_id)

module _ (l : Limits) (now : ℕ) (w token : String) (d : ℕ) where
  leases-claim :
      (r : Row)
      → leasable now l.max_attempts r ≡ true
      → run_service l now (leases w token d) r ≡ claim now w token d r.run_id r
  unfolding run_service
  leases-claim r h = ground arith

  claim-fires :
      (r : Row)
      → leasable now l.max_attempts r ≡ true
      → is_some (claim now w token d r.run_id r) ≡ true
  unfolding leasable claim
  claim-fires r h = ground (arith, eq_iff r.run_id r.run_id)

claim-Keeps : (now : ℕ) (w token : String) (d : ℕ) (id : String) → Keeps (claim now w token d id)
unfolding claim
claim-Keeps now w token d id r q h = ground arith

-- The rows among which LeaseNext chooses.
abbrev pub candidate : ℕ → ℕ → (Row → Bool) → Row → Bool
candidate now max_attempts locked r = leasable now max_attempts r && not (locked r)

-- What LeaseNext has done when it returns the run `id`.
abbrev pub Leased :
    Limits → ℕ → (Row → Bool) → String → String → ℕ → Table → Table → String → Type 0
Leased l now locked w token d t t' id =
    (r : Row) × (q : Row) × In r t
    × (r.run_id ≡ id)
    × (candidate now l.max_attempts locked r ≡ true)
    × IsOldest (candidate now l.max_attempts locked) r t
    × (run_service l now (leases w token d) r ≡ some q)
    × (get_durable id t' ≡ some q)

module _ (l : Limits) (now : ℕ) (locked : Row → Bool) (w token : String) (d : ℕ) (t : Table) where
  lease_found :
      (r : Row)
      → IsKeyed t
      → In r t
      → candidate now l.max_attempts locked r ≡ true
      → IsOldest (candidate now l.max_attempts locked) r t
      → Leased l now locked w token d t (update (claim now w token d r.run_id) t).0 r.run_id
  lease_found r v m c o =
      let can : leasable now l.max_attempts r ≡ true = ((&&_iff _ _).0 c).0 in
      let (q, e) = is_some_value _ (claim-fires l now w token d r can) in
      (
        r,
        q,
        m,
        refl,
        c,
        o,
        leases-claim l now w token d r can ∙ e,
        get_durable-update _ (claim-Keeps now w token d r.run_id) r.run_id t
            ∙ rw (In-get_durable r t v m) (rw e),
      )

abbrev pub Report :
    Limits → ℕ → (Row → Bool) → String → String → ℕ → Table → Table → Option String → Type 0
Report l now locked w token d t t' none =
    (t' ≡ t) × All (λ r. candidate now l.max_attempts locked r ≡ false) t
Report l now locked w token d t t' (some id) = Leased l now locked w token d t t' id

-- LeaseNext either leaves the table as it is, and then no row may be leased, or leases an oldest
-- row that may be.
pub lease_next_lem :
    (l : Limits) (now : ℕ) (locked : Row → Bool) (w token : String) (d : ℕ) (t : Table)
    → IsKeyed t
    → let (t', id) = lease_next now locked w token d l.max_attempts t in
      Report l now locked w token d t t' id
unfolding lease_next
lease_next_lem l now locked w token d t v =
    let p = candidate now l.max_attempts locked in
    let f = oldest-Found p t none in
    elim (Option-cases (oldest p t none)) [
      | inl e ↦ rw (e, lease_next) (refl, rw e at f)
      | inr (r, e) ↦
          let g : Found p t none (some r) = rw e at f in
          rw (e, lease_next) (lease_found l now locked w token d t r v g.1 g.0 g.2)
    ]
