-- ===== src/Ledger/Writes.antt =====
-- Sequences of statements on one row with their history (api/lifecycle_store.go; api/worker.go:
-- executeOne marks a publication as pending and completes a run only with a result that has been
-- staged before).
use test_defense_validation.Base.{
  ℕ, ◌≡◌, ◌≢◌, true, Option, none, some, String, List, [], ◌∷◌, is_some, arith, length, ◌≤◌, eq_iff,
  refl,
}
use test_defense_validation.Payload.Rules.{contains}
use test_defense_validation.Ledger.Row.{Row, Submission}
use test_defense_validation.Ledger.Tables.{new_row}
use test_defense_validation.Ledger.Steps.{
  Limits, WorkerCall, beats, stages, marks_pending, completes, ServiceCall, leases, Permitted,
  run_worker, run_service, Steps, by_worker, by_service,
}

module _ (l : Limits) where
  -- Statements that wrote, one after the other, whoever made them. Nothing is asked of a statement
  -- but that its WHERE clause held.
  pub data Writes (r : Row) : Row → Type 0 where
    nothing_yet : Writes r r
    worker :
        {p q : Row}
        → Writes r p
        → (now : ℕ) (id w t : String) (c : WorkerCall) → run_worker l now id w t c p ≡ some q
        → Writes r q
    service :
        {p q : Row}
        → Writes r p
        → (now : ℕ) (c : ServiceCall) → run_service l now c p ≡ some q
        → Writes r q

abbrev pub also_staged : WorkerCall → List String → List String
also_staged (stages payload) ps = payload ∷ ps
also_staged _ ps = ps

-- The bytes that StageOutcome has staged so far.
unfoldable pub staged_by : {l : Limits} {r q : Row} → Writes l r q → List String
staged_by nothing_yet = []
staged_by (worker z now id w t c h) = also_staged c (staged_by z)
staged_by (service z now c h) = staged_by z

-- What the worker's code sees to: MarkPublicationPending comes after a StageOutcome, and
-- CompletePublished has bytes that a StageOutcome has staged, by the same worker or by another.
abbrev pub Allows : WorkerCall → List String → Type 0
Allows marks_pending ps = ps ≢ []
Allows (completes terminal payload completion) ps = contains payload ps ≡ true
Allows _ ps = Unit

unfoldable pub IsOrderly : {l : Limits} {r q : Row} → Writes l r q → Type 0
IsOrderly nothing_yet = Unit
IsOrderly (worker z now id w t c h) = IsOrderly z × Allows c (staged_by z)
IsOrderly (service z now c h) = IsOrderly z

-- What is staged is in the row, and it is staged once.
abbrev pub Holds : List String → Row → Type 0
Holds [] r = r.result_payload ≡ none
Holds (p ∷ []) r = (r.result_payload ≡ some p) × (is_some r.response ≡ true)
Holds (p ∷ p' ∷ ps) r = ⊥

module _ (l : Limits) (now : ℕ) (p q : Row) where
  allowed : (c : WorkerCall) (ps : List String) → Allows c ps → Holds ps p → Permitted c p
  allowed marks_pending [] a h = absurd (a refl)
  allowed marks_pending (b ∷ []) a h = h.1
  allowed marks_pending (b ∷ b' ∷ bs) a h = absurd h
  allowed (completes terminal payload completion) [] a h = cc
  allowed (completes terminal payload completion) (b ∷ []) a h =
      ground (arith, h.0, eq_iff b payload)
  allowed (completes terminal payload completion) (b ∷ b' ∷ bs) a h = absurd h
  allowed _ ps a h = tt

  worker-Holds :
      (id w t : String) (c : WorkerCall) (ps : List String)
      → Allows c ps
      → run_worker l now id w t c p ≡ some q
      → Holds ps p
      → Holds (also_staged c ps) q
  unfolding run_worker
  worker-Holds id w t c (b ∷ b' ∷ bs) a s h = absurd h
  worker-Holds id w t (beats d) [] a s h = ground arith
  worker-Holds id w t (beats d) (b ∷ []) a s h = ground arith
  worker-Holds id w t marks_pending [] a s h = absurd (a refl)
  worker-Holds id w t (completes terminal payload completion) (b ∷ []) a s h =
      ground (arith, eq_iff b payload)
  worker-Holds id w t _ [] a s h = ground arith
  worker-Holds id w t _ (b ∷ []) a s h = ground arith

  service-Holds :
      (c : ServiceCall) (ps : List String)
      → run_service l now c p ≡ some q
      → Holds ps p
      → Holds ps q
  unfolding run_service
  service-Holds c (b ∷ b' ∷ bs) s h = absurd h
  service-Holds (leases w t d) [] s h = ground arith
  service-Holds (leases w t d) (b ∷ []) s h = ground arith
  service-Holds _ [] s h = ground arith
  service-Holds _ (b ∷ []) s h = ground arith

abbrev pub head : List String → Option String
head [] = none
head (p ∷ ps) = some p

from_Holds :
    (ps : List String) (q : Row) → Holds ps q → (q.result_payload ≡ head ps) × (length ps ≤ 1)
from_Holds [] q h = (h, omega arith)
from_Holds (p ∷ []) q h = (h.0, omega arith)
from_Holds (p ∷ p' ∷ ps) q h = absurd h

module _ (l : Limits) (s : Submission) where
  pub staged-Holds : {q : Row} (z : Writes l (new_row s) q) → IsOrderly z → Holds (staged_by z) q
  unfolding IsOrderly staged_by new_row
  staged-Holds nothing_yet o = refl
  staged-Holds {q = q} (worker {p = p} z now id w t c h) o =
      worker-Holds l now p q id w t c (staged_by z) (o.1) h (staged-Holds z (o.0))
  staged-Holds {q = q} (service {p = p} z now c h) o =
      service-Holds l now p q c (staged_by z) h (staged-Holds z o)

  pub orderly-Steps : {q : Row} (z : Writes l (new_row s) q) → IsOrderly z → Steps l (new_row s) q
  unfolding IsOrderly
  orderly-Steps nothing_yet o = Steps.here
  orderly-Steps {q = q} (worker {p = p} z now id w t c h) o =
      Steps.next (orderly-Steps z (o.0))
        (by_worker now id w t c (allowed l now p q c (staged_by z) (o.1) (staged-Holds z (o.0))) h)
  orderly-Steps (service z now c h) o = Steps.next (orderly-Steps z o) (by_service now c h)

  -- After a submission and any sequence of statements in which MarkPublicationPending comes after a
  -- StageOutcome and CompletePublished has bytes that a StageOutcome has staged, the row has
  -- exactly the bytes that were staged, at most one StageOutcome having had an effect, and none
  -- before that.
  pub staged_kept :
      {q : Row} (z : Writes l (new_row s) q)
      → IsOrderly z
      → (q.result_payload ≡ head (staged_by z)) × (length (staged_by z) ≤ 1)
  staged_kept {q = q} z o = from_Holds (staged_by z) q (staged-Holds z o)
