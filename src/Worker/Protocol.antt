-- ===== src/Worker/Protocol.antt =====
-- The order in which executeOne makes its calls, whatever the answers (api/worker.go).
use test_defense_validation.Base.{
  ◌≡◌, Bool, true, false, Option, none, some, String, ◌⊎◌, is_some, Bool-cases, inl, inr,
  if◌then◌else◌, refl,
}
use test_defense_validation.Outcome.{RunOutcome, PayloadError, validate_canonical_result_payload}
use test_defense_validation.Ledger.Steps.{
  WorkerCall, stages, completes, fails, fails_outcome, cancels_run, marks_pending, retries,
  conflicts,
}
use test_defense_validation.Worker.Program.{
  Program, done, execute, cancellation, abandoned, write, beat, publish, verify, Reply, written,
  Beat, PublishReply, published,
}
use test_defense_validation.Worker.Execute.{
  Claimed, finish, Config, complete_program, completion_of, lacks_reference,
}

-- What the worker knows: the bytes that are staged, whether publication_pending is durable, whether
-- a row with the bytes was acknowledged, whether the result names a placeholder, whether its last
-- statement has ended or requeued the run.
pub record Progress : Type 0 where
  pub staged : Option String
  pub pending : Bool
  pub acknowledged : Bool
  pub placeholder : Bool
  pub over : Bool

abbrev pub is_placeholder : Option RunOutcome → Bool
is_placeholder none = false
is_placeholder (some o) = elim o.result_ref [ none ↦ false | some ref ↦ ref.placeholder ]

abbrev pub after_executor : Option RunOutcome → Progress → Progress
after_executor o m = record m { placeholder = is_placeholder o }

abbrev pub after_write : WorkerCall → Reply → Progress → Progress
after_write (stages p) written m = record m { staged = some p }
after_write marks_pending written m = record m { pending = true }
after_write (completes t p c) written m = record m { over = true }
after_write (fails f) written m = record m { over = true }
after_write (fails_outcome r f) written m = record m { over = true }
after_write cancels_run written m = record m { over = true }
after_write (retries d f) written m = record m { over = true }
after_write (conflicts f) written m = record m { over = true }
after_write _ _ m = m

abbrev pub after_answer : PublishReply → Progress → Progress
after_answer published m = record m { acknowledged = true }
after_answer _ m = m

-- When a statement may be made. A run is completed with the staged bytes, and only after a row with
-- them was acknowledged or without any publication, if its reference says that it is a placeholder.
abbrev pub MayWrite : WorkerCall → Progress → Type 0
MayWrite (stages p) m = (m.staged ≡ none) × (m.pending ≡ false)
MayWrite (completes t p c) m =
    (m.staged ≡ some p) × ((m.acknowledged ≡ true) ⊎ (m.placeholder ≡ true))
MayWrite marks_pending m = (is_some m.staged ≡ true) × (m.pending ≡ false)
MayWrite (retries d f) m = m.pending ≡ true
MayWrite (conflicts f) m = m.pending ≡ true
MayWrite cancels_run m = m.pending ≡ false
MayWrite (fails f) m = (m.staged ≡ none) × (m.pending ≡ false)
MayWrite _ m = Unit

-- Every call of the program, after every sequence of answers, comes when it may.
abbrev pub Follows : Progress → Program → Type 0
Follows m done = Unit
Follows m (execute k) =
    (m.staged ≡ none)
    × (m.pending ≡ false)
    × ((o : Option RunOutcome) → Follows (after_executor o m) (k o))
Follows m (cancellation k) = (c : Bool) → Follows m (k c)
Follows m (abandoned k) = (c : Bool) → Follows m (k c)
Follows m (write c k) =
    (m.over ≡ false) × MayWrite c m × ((r : Reply) → Follows (after_write c r m) (k r))
Follows m (beat k) = (m.over ≡ false) × ((r : Beat) → Follows m (k r))
Follows m (publish o p k) =
    (m.staged ≡ some p)
    × (m.pending ≡ true)
    × (m.over ≡ false)
    × ((r : PublishReply) → Follows (after_answer r m) (k r))
Follows m (verify o p k) =
    (m.staged ≡ some p)
    × (m.pending ≡ true)
    × (m.over ≡ false)
    × ((r : PublishReply) → Follows (after_answer r m) (k r))

-- What is known at the start.
abbrev pub start : Claimed → Progress
start run = record {
  staged = elim run.result [ none ↦ none | some o ↦ some run.result_payload ];
  pending = run.publication_pending;
  acknowledged = false;
  placeholder = is_placeholder run.result;
  over = false;
}

pub if-Follows :
    (m : Progress) (b : Bool) (x y : Program)
    → (b ≡ true → Follows m x)
    → (b ≡ false → Follows m y)
    → Follows m (if b then x else y)
if-Follows m true x y f g = f refl
if-Follows m false x y f g = g refl

-- A write that is the last call.
pub finish-Follows :
    (m : Progress) (c : WorkerCall) → m.over ≡ false → MayWrite c m → Follows m (finish c)
unfolding finish
finish-Follows m c o w = (o, w, λ r. tt)

module _ (w : Config) where
  pub complete-Follows :
      (m : Progress) (o : RunOutcome) (p : String)
      → m.over ≡ false
      → m.staged ≡ some p
      → (m.acknowledged ≡ true) ⊎ (m.placeholder ≡ true)
      → Follows m (complete_program w o p)
  unfolding complete_program
  complete-Follows m o p v s a = elim (Bool-cases (lacks_reference o)) [
    | inl e ↦ rw (e, complete_program) tt
    | inr e ↦ rw (e, complete_program) (valid (validate_canonical_result_payload w.codec o p))
  ]
    where
      encoded :
          (c : Option String)
          → Follows m (elim c [ none ↦ done | some c ↦ finish (completes o.terminal_state p c) ])
      encoded none = tt
      encoded (some c) = finish-Follows m (completes o.terminal_state p c) v (s, a)

      valid :
          (e : Option PayloadError)
          → Follows m (elim e [
            | some e ↦ done
            | none ↦ elim (w.codec.marshal_completion (completion_of o)) [
              | none ↦ done
              | some c ↦ finish (completes o.terminal_state p c)
            ]
          ])
      valid (some e) = tt
      valid none = encoded (w.codec.marshal_completion (completion_of o))
