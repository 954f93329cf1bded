-- ===== src/Ledger/Fencing.antt =====
-- Leases fence workers off (api/lifecycle_store.go, README.md: "fenced by that token").
use test_defense_validation.Base.{ℕ, ◌≡◌, ◌≢◌, true, false, String, some, none, arith, eq_iff}
use test_defense_validation.Ledger.Row.{Row, is_value, is_future, is_running}
use test_defense_validation.Ledger.Steps.{
  Limits, WorkerCall, beats, cancels_run, ServiceCall, leases, run_worker, run_service,
}

-- Without the row's token no statement of a worker has any effect, the last one included that
-- does not look at the expiry.
pub wrong_token_none :
    (l : Limits) (now : ℕ) (id w t : String) (c : WorkerCall) (r : Row)
    → is_value r.lease_token t ≡ false
    → run_worker l now id w t c r ≡ none
unfolding run_worker
wrong_token_none l now id w t (beats d) r h = ground arith
wrong_token_none l now id w t _ r h = ground arith

-- After the lease has run out no statement of its worker has any effect, but for the one that
-- records a requested cancellation.
pub expired_none :
    (l : Limits) (now : ℕ) (id w t : String) (c : WorkerCall) (r : Row)
    → c ≢ cancels_run
    → is_future r.lease_expires_at now ≡ false
    → run_worker l now id w t c r ≡ none
unfolding run_worker
expired_none l now id w t (beats d) r n h = ground arith
expired_none l now id w t _ r n h = ground arith

-- A lease that has not run out is not given to anybody else.
pub live_lease_none :
    (l : Limits) (now : ℕ) (w t : String) (d : ℕ) (r : Row)
    → is_running r.status ≡ true
    → is_future r.lease_expires_at now ≡ true
    → run_service l now (leases w t d) r ≡ none
unfolding run_service
live_lease_none l now w t d r h e = ground arith

-- A statement that does not hand out the token `t`.
abbrev pub Fresh : String → ServiceCall → Type 0
Fresh t (leases w t' d) = t' ≢ t
Fresh t _ = Unit

-- Sequences of statements in which nobody is given the token `t`.
pub data Without (l : Limits) (t : String) (r : Row) : Row → Type 0 where
  here : Without l t r r
  worker :
      {p q : Row} (now : ℕ) (id w t' : String) (c : WorkerCall)
      → Without l t r p
      → run_worker l now id w t' c p ≡ some q
      → Without l t r q
  service :
      {p q : Row} (now : ℕ) (c : ServiceCall)
      → Fresh t c
      → Without l t r p
      → run_service l now c p ≡ some q
      → Without l t r q

module _ (l : Limits) (now : ℕ) (t : String) (r q : Row) where
  worker-lost :
      (id w t' : String) (c : WorkerCall)
      → run_worker l now id w t' c r ≡ some q
      → is_value r.lease_token t ≡ false
      → is_value q.lease_token t ≡ false
  unfolding run_worker
  worker-lost id w t' (beats d) h e = ground arith
  worker-lost id w t' _ h e = ground arith

  service-lost :
      (c : ServiceCall)
      → Fresh t c
      → run_service l now c r ≡ some q
      → is_value r.lease_token t ≡ false
      → is_value q.lease_token t ≡ false
  unfolding run_service
  service-lost (leases w t' d) f h e = ground (arith, eq_iff t' t)
  service-lost _ f h e = ground arith

lost :
    (l : Limits) (t : String) {r q : Row}
    → Without l t r q
    → is_value r.lease_token t ≡ false
    → is_value q.lease_token t ≡ false
lost l t here e = e
lost l t (worker {p = p} {q = q} now id w t' c s h) e =
    worker-lost l now t p q id w t' c h (lost l t s e)
lost l t (service {p = p} {q = q} now c f s h) e = service-lost l now t p q c f h (lost l t s e)

leases-token :
    (l : Limits) (now : ℕ) (w t : String) (d : ℕ) (r q : Row)
    → run_service l now (leases w t d) r ≡ some q
    → q.lease_token ≡ some t
unfolding run_service
leases-token l now w t d r q h = ground arith

-- After another worker has taken the run over under a token t', no statement of the worker with
-- the old token t has any effect, at any later time, as long as nobody is given t again.
pub taken_over_none :
    (l : Limits) (start now : ℕ) (id w w' t t' : String) (d : ℕ) (c : WorkerCall) (r q p : Row)
    → t' ≢ t
    → run_service l start (leases w' t' d) r ≡ some q
    → Without l t q p
    → run_worker l now id w t c p ≡ none
taken_over_none l start now id w w' t t' d c r q p n h s =
    wrong_token_none l now id w t c p
      (lost l t s (ground (arith, leases-token l start w' t' d r q h, eq_iff t' t)))
