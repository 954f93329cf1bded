-- ===== src/Callback/Outcomes.antt =====
-- What the report of a delivery makes of the outbox (api/callback.go: deliver, api/lifecycle_store.go).
use test_defense_validation.Base.{
  ap, ◌∙◌, ℕ, ◌+◌, ◌≡◌, ◌↔◌, Bool, true, false, some, none, String, List, arith, eq_iff, leb,
  Option, is_some_value, is_some,
}
use test_defense_validation.Ledger.Row.{Row}
use test_defense_validation.Ledger.Outbox.{claimable}
use test_defense_validation.Ledger.Invariant.{IsNotified}
use test_defense_validation.Ledger.Steps.{Limits, run_service}
use test_defense_validation.Callback.Headers.{is_empty}
use test_defense_validation.Callback.Dispatch.{
  Reason, Report, succeeded, postponed, configuration_failed, Answer, replied, unreachable, deliver,
  recorded,
}

-- Whether a reported callback is due again.
abbrev pub due_again : ℕ → Report → ℕ → Bool
due_again now (postponed delay reason) at = leb (now + delay) at
due_again now _ at = false

module _ (l : Limits) (now : ℕ) (text : Reason → String) (lease : String) (r : Row) where
  recorded_fires :
      (report : Report)
      → IsNotified r
      → r.callback_lease_token ≡ some lease
      → is_some (run_service l now (recorded text r.run_id lease report) r) ≡ true
  unfolding run_service recorded
  recorded_fires succeeded v e = ground (arith, eq_iff r.run_id r.run_id, eq_iff lease lease)
  recorded_fires (postponed d c) v e = ground (arith, eq_iff r.run_id r.run_id, eq_iff lease lease)
  recorded_fires (configuration_failed c) v e =
      ground (arith, eq_iff r.run_id r.run_id, eq_iff lease lease)

  recorded_effect :
      (report : Report) (q : Row)
      → run_service l now (recorded text r.run_id lease report) r ≡ some q
      → (q.callback_attempt ≡ r.callback_attempt + 1) × (q.callback_lease_token ≡ none)
  unfolding run_service recorded
  recorded_effect succeeded q h = ground arith
  recorded_effect (postponed d c) q h = ground arith
  recorded_effect (configuration_failed c) q h = ground arith

  recorded_due :
      (report : Report) (q : Row)
      → IsNotified r
      → run_service l now (recorded text r.run_id lease report) r ≡ some q
      → (at : ℕ) → claimable at q ≡ due_again now report at
  unfolding run_service recorded claimable
  recorded_due succeeded q v h at = ground arith
  recorded_due (postponed d c) q v h at = ground arith
  recorded_due (configuration_failed c) q v h at = ground arith

-- The dispatcher that holds a callback's lease can record every report, even after the lease has run
-- out if nobody else has claimed the callback: the attempt is counted, the lease is given back, and
-- the callback can be claimed again exactly if it was postponed and the delay is over.
pub report_recorded :
    (l : Limits) (now : ℕ) (text : Reason → String) (lease : String) (report : Report) (r : Row)
    → IsNotified r
    → r.callback_lease_token ≡ some lease
    → (q : Row) × (run_service l now (recorded text r.run_id lease report) r ≡ some q)
      × (q.callback_attempt ≡ r.callback_attempt + 1)
      × (q.callback_lease_token ≡ none)
      × ((at : ℕ) → claimable at q ≡ due_again now report at)
report_recorded l now text lease report r v e =
    let (q, h) = is_some_value _ (recorded_fires l now text lease r report v e) in
    let (a, t) = recorded_effect l now text lease r report q h in
    (q, h, a, t, recorded_due l now text lease r report q v h)

module _ (draw : ℕ) (parse_time : List ℕ → Option ℕ) where
  succeeded_only :
      (token : List ℕ) (encoded requested : Bool) (now attempt s : ℕ) (h : List ℕ)
      → deliver draw parse_time token encoded requested now attempt (replied s h) ≡ succeeded
      → (is_empty token ≡ false) × (encoded ≡ true) × (requested ≡ true) × (s ≡ 202)
  unfolding deliver
  succeeded_only token encoded requested now attempt s h e = ground arith

  succeeds :
      (token : List ℕ) (encoded requested : Bool) (now attempt : ℕ) (h : List ℕ)
      → is_empty token ≡ false
      → encoded ≡ true
      → requested ≡ true
      → deliver draw parse_time token encoded requested now attempt (replied 202 h) ≡ succeeded
  unfolding deliver
  succeeds token encoded requested now attempt h a b c = ground arith

  -- A delivery is reported as succeeded exactly if the dispatcher has a token, the request could be
  -- made and the answer is HTTP 202.
  pub succeeded_iff :
      (token : List ℕ) (encoded requested : Bool) (now attempt : ℕ) (a : Answer)
      → (deliver draw parse_time token encoded requested now attempt a ≡ succeeded) ↔ (
          (is_empty token ≡ false)
          × (encoded ≡ true)
          × (requested ≡ true)
          × ((header : List ℕ) × (a ≡ replied 202 header)))
  unfolding deliver
  succeeded_iff token encoded requested now attempt (unreachable c) = ground arith
  succeeded_iff token encoded requested now attempt (replied s h) = (
    (λ e.
        let (a, b, c, d) = succeeded_only token encoded requested now attempt s h e in
        (a, b, c, (h, ap (λ x. replied x h) d))),
    λ (a, b, c, (x, d)).
        ap (deliver draw parse_time token encoded requested now attempt) d
        ∙ succeeds token encoded requested now attempt x a b c,
  )
