-- ===== src/Service/Idempotence.antt =====
-- Repeated submissions (api/lifecycle.go: handleAsyncSubmit).
use test_defense_validation.Base.{
  ◌≡◌, ◌≢◌, ◌⊎◌, ap, ◌∙◌, ℕ, Bool, refl, Option, some, none, String, List, true, false, arith, ok,
  Option-cases, Result-cases, inl, inr, if◌then◌else◌,
}
use test_defense_validation.Ledger.Row.{Row, Submission, terminal_status}
use test_defense_validation.Ledger.Update.{Table}
use test_defense_validation.Ledger.Tables.{
  create_or_get, Fault, no_fault, before_commit, at_commit, try_create_or_get, told, lost,
}
use test_defense_validation.Ledger.Tables.Creation.{create_or_get_again}
use test_defense_validation.Service.Submit.{
  Body, Incoming, Fresh, Callback, LifecycleError, SubmissionResponse, submitted, new_run,
  stored_reply, answer_stored, unavailable, store_run, accept, check_submission,
  handle_async_submit, filled,
}

-- What a submission that is refused leaves behind: nothing, or, where a commit is reported as
-- failed and was made, the table with the run.
abbrev pub Left : Fault → Submission → Table → Table → ℕ → LifecycleError → Type 0
Left fault s t t' status e =
    (t' ≡ t)
    ⊎ ((r : Row) × (created : Bool) × (fault ≡ at_commit true)
        × (create_or_get s t ≡ some (t', r, created))
        × (status ≡ 500)
        × (e ≡ unavailable))

-- Two runs that differ in what newID and the clock give.
abbrev pub Same : Submission → Submission → Type 0
Same s z =
    (z.request_id ≡ s.request_id)
    × (z.request_digest ≡ s.request_digest)
    × (z.callback_url ≡ s.callback_url)
    × (z.callback_workflow_id ≡ s.callback_workflow_id)
    × (z.callback_signal ≡ s.callback_signal)

new_run-Same :
    (f g : Fresh) (b : Body) (text digest : String) (c : Option Callback)
    → Same (new_run f b text digest c) (new_run g b text digest c)
unfolding new_run
new_run-Same f g b text digest none = (refl, refl, refl, refl, refl)
new_run-Same f g b text digest (some c) = ground arith

reply_kept :
    (s z : Submission) (stored : Row) (created : Bool) (code : ℕ) (r : SubmissionResponse)
    → Same s z
    → stored_reply s stored created ≡ submitted code r
    → stored_reply z stored false ≡ submitted (if terminal_status stored.status then 200 else 202) r
unfolding stored_reply
reply_kept s z stored created code r e h = ground arith

told_by :
    (s : Submission) (t t' : Table) (made : Option (Table × Row × Bool)) (code : ℕ)
    (r : SubmissionResponse)
    → answer_stored s (told t made) ≡ (submitted code r, t')
    → (stored : Row) × (created : Bool) × (made ≡ some (t', stored, created))
      × (stored_reply s stored created ≡ submitted code r)
told_by s t t' none code r h = absurd (ground arith)
told_by s t t' (some (t1, stored, created)) code r h = (stored, created, ground arith, ground arith)

not_lost :
    (s : Submission) (t t' : Table) (made : Bool) (o : Option (Table × Row × Bool)) (code : ℕ)
    (r : SubmissionResponse)
    → answer_stored s (lost made t o) ≢ (submitted code r, t')
not_lost s t t' made none code r h = ground arith
not_lost s t t' made (some (t1, stored, created)) code r h = ground arith

pub stored_by :
    (fault : Fault) (s : Submission) (t t' : Table) (code : ℕ) (r : SubmissionResponse)
    → store_run fault s t ≡ (submitted code r, t')
    → (stored : Row) × (created : Bool) × (create_or_get s t ≡ some (t', stored, created))
      × (stored_reply s stored created ≡ submitted code r)
unfolding store_run try_create_or_get
stored_by no_fault s t t' code r h = told_by s t t' (create_or_get s t) code r h
stored_by before_commit s t t' code r h = absurd (ground arith)
stored_by (at_commit made) s t t' code r h =
    absurd (not_lost s t t' made (create_or_get s t) code r h)

-- A row of the request id that is there is left as it is, whatever fails.
try_again :
    (fault : Fault) (s : Submission) (t : Table) (stored : Row)
    → create_or_get s t ≡ some (t, stored, false)
    → (try_create_or_get fault s t).1 ≡ t
unfolding try_create_or_get
try_again no_fault s t stored h = rw h refl
try_again before_commit s t stored h = refl
try_again (at_commit made) s t stored h = rw h (ground arith)

told_again :
    (z : Submission) (t : Table) (stored : Row)
    → create_or_get z t ≡ some (t, stored, false)
    → store_run no_fault z t ≡ (stored_reply z stored false, t)
unfolding store_run try_create_or_get
told_again z t stored h = rw h refl

abbrev pub Repeated : Submission → Submission → Table → Table → SubmissionResponse → Type 0
Repeated s z t t' r =
    ((again : ℕ) × (store_run no_fault z t' ≡ (submitted again r, t')))
    × ((fault : Fault) → (store_run fault z t').1 ≡ t')

answered_table : (s : Submission) (x : Option (Row × Bool) × Table) → (answer_stored s x).1 ≡ x.1
answered_table s (none, t) = refl
answered_table s (some (stored, created), t) = refl

store_run_again :
    (fault : Fault) (s z : Submission) (t t' : Table) (code : ℕ) (r : SubmissionResponse)
    → Same s z
    → store_run fault s t ≡ (submitted code r, t')
    → Repeated s z t t' r
unfolding store_run
store_run_again fault s z t t' code r e h =
    let (stored, created, c, a) = stored_by fault s t t' code r h in
    let (x, _) = create_or_get_again s z t t' stored created c e.0 in
    (
      (
        if terminal_status stored.status then 200 else 202,
        told_again z t' stored x ∙ ap (λ y. (y, t')) (reply_kept s z stored created code r e a),
      ),
      λ g. answered_table z (try_create_or_get g z t') ∙ try_again g z t' stored x,
    )

module _ (validate : Body → List String) (normalized : Body → Option (String × String)) where
  accept_keeps :
      (i : Incoming) (f g : Fresh) (c : Option Callback) (b : Body) (s : Submission)
      (text digest : String)
      → normalized b ≡ some (text, digest)
      → accept validate normalized i f c b ≡ ok s
      → (s ≡ new_run f b text digest c)
        × (accept validate normalized i g c b ≡ ok (new_run g b text digest c))
  unfolding accept
  accept_keeps i f g c b s text digest n h = ground arith

  accept-Same :
      (i : Incoming) (f g : Fresh) (c : Option Callback) (b : Body) (s : Submission)
      → accept validate normalized i f c b ≡ ok s
      → (z : Submission) × (accept validate normalized i g c b ≡ ok z) × Same s z
  unfolding accept
  accept-Same i f g c b s h = elim (Option-cases (normalized b)) [
    | inl n ↦ absurd (ground (arith, n))
    | inr ((text, digest), n) ↦
        let (e, k) = accept_keeps i f g c b s text digest n h in
        (_, k, rw e (new_run-Same f g b text digest c))
  ]

  check-Same :
      (i : Incoming) (f g : Fresh) (s : Submission)
      → check_submission validate normalized i f ≡ ok s
      → (z : Submission) × (check_submission validate normalized i g ≡ ok z) × Same s z
  unfolding check_submission
  check-Same i f g s h = elim (Result-cases i.callback) [
    | inr (x, n) ↦ absurd (ground (arith, n))
    | inl (c, n) ↦ elim (Result-cases i.body) [
      | inr (x, m) ↦ absurd (ground (arith, n, m))
      | inl (b, m) ↦
          let (z, k, e) = accept-Same i f g c (filled i b) s (ground (arith, n, m)) in
          (z, ground (arith, n, m, k), e)
    ]
  ]

  -- A submission that was accepted is answered with the same run when it is repeated, whatever ids
  -- and time the repetition has, unless the database fails; and the repetition leaves the table as
  -- it is, also where the database fails.
  pub submit_again :
      (fault : Fault) (i : Incoming) (f g : Fresh) (t t' : Table) (code : ℕ)
      (r : SubmissionResponse)
      → handle_async_submit validate normalized fault i f t ≡ (submitted code r, t')
      → ((again : ℕ) × (handle_async_submit validate normalized no_fault i g t'
            ≡ (submitted again r, t')))
        × ((failure : Fault) → (handle_async_submit validate normalized failure i g t').1 ≡ t')
  unfolding handle_async_submit
  submit_again fault i f g t t' code r h =
      elim (Result-cases (check_submission validate normalized i f)) [
        | inr (x, n) ↦ absurd (ground (arith, n))
        | inl (s, n) ↦
            let (z, k, e) = check-Same i f g s n in
            let ((again, w), kept) = store_run_again fault s z t t' code r e (ground (arith, n)) in
            (
              (again, rw (handle_async_submit, k) w),
              λ failure. rw (handle_async_submit, k) (kept failure),
            )
      ]
