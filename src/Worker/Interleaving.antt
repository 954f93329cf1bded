-- ===== src/Worker/Interleaving.antt =====
-- executeOne on the ledger, with the statements of all others between its own (api/worker.go,
-- api/lifecycle_store.go).
use test_defense_validation.Base.{
  ℕ, ◌≡◌, Bool, Option, none, some, String, arith, is_some_value, ◌≢◌, ◌∙◌, refl, is_some, true,
  false, Option-cases, inl, inr,
}
use test_defense_validation.Outcome.{RunOutcome, Codec}
use test_defense_validation.Ledger.Row.{Row, running}
use test_defense_validation.Ledger.Steps.{
  Limits, WorkerCall, beats, completes, marks_pending, run_worker, Permitted, Step, Steps, stages,
  next, here, by_worker,
}
use test_defense_validation.Ledger.Invariant.{IsBounded, Step-IsBounded}
use test_defense_validation.Worker.Program.{
  Program, execute, cancellation, abandoned, write, beat, publish, verify, Reply, written,
  unwritten, db_error, Beat, PublishReply, unverified, published, refused,
}
use test_defense_validation.Worker.Protocol.{
  Progress, Follows, MayWrite, after_write, after_executor, after_answer, start,
}
use test_defense_validation.Ledger.Terminal.{Steps-payload}
use test_defense_validation.Worker.Execute.{Config, claimed, execute_one}
use test_defense_validation.Worker.Order.{execute_one-Follows}

module _ (l : Limits) (id worker token : String) where
  -- One move: a statement of anybody else, or a call of the program with an answer that the row
  -- allows. A database error leaves open whether the statement ran.
  pub data Move : Row → Program → Row → Program → Type 0 where
    other : {r q : Row} {p : Program} → Step l r q → Move r p q p
    executed :
        {r : Row} (k : Option RunOutcome → Program) (o : Option RunOutcome)
        → Move r (execute k) r (k o)
    flagged : {r : Row} (k : Bool → Program) (c : Bool) → Move r (cancellation k) r (k c)
    lost : {r : Row} (k : Bool → Program) (c : Bool) → Move r (abandoned k) r (k c)
    wrote :
        {r q : Row} (now : ℕ) (c : WorkerCall) (k : Reply → Program)
        → run_worker l now id worker token c r ≡ some q
        → Move r (write c k) q (k written)
    missed :
        {r : Row} (now : ℕ) (c : WorkerCall) (k : Reply → Program)
        → run_worker l now id worker token c r ≡ none
        → Move r (write c k) r (k unwritten)
    failed_before :
        {r : Row} (c : WorkerCall) (k : Reply → Program) → Move r (write c k) r (k db_error)
    failed_after :
        {r q : Row} (now : ℕ) (c : WorkerCall) (k : Reply → Program)
        → run_worker l now id worker token c r ≡ some q
        → Move r (write c k) q (k db_error)
    beaten :
        {r q : Row} (now lease : ℕ) (k : Beat → Program) (b : Beat)
        → run_worker l now id worker token (beats lease) r ≡ some q
        → Move r (beat k) q (k b)
    unbeaten : {r : Row} (k : Beat → Program) (b : Beat) → Move r (beat k) r (k b)
    answered :
        {r : Row} (o : RunOutcome) (p : String) (k : PublishReply → Program) (a : PublishReply)
        → Move r (publish o p k) r (k a)
    verified :
        {r : Row} (o : RunOutcome) (p : String) (k : PublishReply → Program) (a : PublishReply)
        → Move r (verify o p k) r (k a)

  pub data Moves (r : Row) (p : Program) : Row → Program → Type 0 where
    start_here : Moves r p r p
    then : {q u : Row} {x y : Program} → Moves r p q x → Move q x u y → Moves r p u y

-- What the worker knows of the row is so.
abbrev pub Agrees : Progress → Row → Type 0
Agrees m r = (p : String) → m.staged ≡ some p → r.result_payload ≡ some p

abbrev Kept : Limits → Row → Program → Type 0
Kept l r p = (m : Progress) × Follows m p × Agrees m r × IsBounded l r

permitted :
    (l : Limits) (m : Progress) (r : Row) (c : WorkerCall)
    → MayWrite c m
    → Agrees m r
    → IsBounded l r
    → Permitted c r
permitted l m r (completes t p c) w a v = a p w.0
permitted l m r marks_pending w a v =
    let (p, e) = is_some_value m.staged w.0 in v.staged (ground (arith, a p e))
permitted l m r (beats d) w a v = tt
permitted l m r _ w a v = tt

Step-Agrees :
    (l : Limits) (m : Progress) {r q : Row} → Step l r q → IsBounded l r → Agrees m r → Agrees m q
Step-Agrees l m s v a p e = Steps-payload l p v (a p e) (next here s)

stages-payload :
    (l : Limits) (now : ℕ) (id w t p : String) (r q : Row)
    → run_worker l now id w t (stages p) r ≡ some q
    → q.result_payload ≡ some p
unfolding run_worker
stages-payload l now id w t p r q h = ground arith

written-Agrees :
    (l : Limits) (now : ℕ) (id w t : String) (m : Progress) (c : WorkerCall) (r q : Row)
    → run_worker l now id w t c r ≡ some q
    → Agrees m q
    → Agrees (after_write c written m) q
written-Agrees l now id w t m (stages p) r q h a = λ x e. stages-payload l now id w t p r q h ∙ e
written-Agrees l now id w t m (beats d) r q h a = a
written-Agrees l now id w t m _ r q h a = a

answer-Agrees :
    (m : Progress) (x : PublishReply) (r : Row) → Agrees m r → Agrees (after_answer x m) r
answer-Agrees m published r a = a
answer-Agrees m refused r a = a
answer-Agrees m (unverified s) r a = a

unwritten-Agrees :
    (m : Progress) (c : WorkerCall) (x : Reply) (r : Row)
    → x ≢ written
    → Agrees m r
    → Agrees (after_write c x m) r
unwritten-Agrees m c written r n a = absurd (n refl)
unwritten-Agrees m (stages p) unwritten r n a = a
unwritten-Agrees m (stages p) db_error r n a = a
unwritten-Agrees m _ _ r n a = a

module _ (l : Limits) (id w t : String) where
  -- What a move does to the row, and what is known afterwards.
  Move-Kept :
      {r q : Row} {x y : Program} → Move l id w t r x q y → Kept l r x → Steps l r q × Kept l q y
  Move-Kept (other s) (m, f, a, v) =
      (next here s, (m, f, Step-Agrees l m s v a, Step-IsBounded l s v))
  Move-Kept (executed k o) (m, f, a, v) = (here, (after_executor o m, f.2 o, a, v))
  Move-Kept (flagged k c) (m, f, a, v) = (here, (m, f c, a, v))
  Move-Kept (lost k c) (m, f, a, v) = (here, (m, f c, a, v))
  Move-Kept (wrote {r = r} {q = q} now c k h) (m, f, a, v) =
      let s = by_worker now id w t c (permitted l m r c f.1 a v) h in
      (
        next here s,
        (
          after_write c written m,
          f.2 written,
          written-Agrees l now id w t m c r q h (Step-Agrees l m s v a),
          Step-IsBounded l s v,
        ),
      )
  Move-Kept (missed {r = r} now c k h) (m, f, a, v) = (
    here,
    (after_write c unwritten m, f.2 unwritten, unwritten-Agrees m c unwritten r (λ e. cc) a, v),
  )
  Move-Kept (failed_before {r = r} c k) (m, f, a, v) = (
    here,
    (after_write c db_error m, f.2 db_error, unwritten-Agrees m c db_error r (λ e. cc) a, v),
  )
  Move-Kept (failed_after {r = r} {q = q} now c k h) (m, f, a, v) =
      let s = by_worker now id w t c (permitted l m r c f.1 a v) h in
      (
        next here s,
        (
          after_write c db_error m,
          f.2 db_error,
          unwritten-Agrees m c db_error q (λ e. cc) (Step-Agrees l m s v a),
          Step-IsBounded l s v,
        ),
      )
  Move-Kept (beaten now lease k b h) (m, f, a, v) =
      let s = by_worker now id w t (beats lease) tt h in
      (next here s, (m, f.1 b, Step-Agrees l m s v a, Step-IsBounded l s v))
  Move-Kept (unbeaten k b) (m, f, a, v) = (here, (m, f.1 b, a, v))
  Move-Kept (answered {r = r} o p k x) (m, f, a, v) =
      (here, (after_answer x m, f.3 x, answer-Agrees m x r a, v))
  Move-Kept (verified {r = r} o p k x) (m, f, a, v) =
      (here, (after_answer x m, f.3 x, answer-Agrees m x r a, v))

  Steps-trans : {r q u : Row} → Steps l r q → Steps l q u → Steps l r u
  Steps-trans s here = s
  Steps-trans s (next z st) = next (Steps-trans s z) st

  Moves-Kept :
      {r : Row} {x : Program} {q : Row} {y : Program}
      → Moves l id w t r x q y
      → Kept l r x
      → Steps l r q × Kept l q y
  Moves-Kept start_here v = (here, v)
  Moves-Kept (then s mv) v =
      let (z, u) = Moves-Kept s v in let (z', u') = Move-Kept mv u in (Steps-trans z z', u')

start-Agrees :
    (l : Limits) (codec : Codec) (r : Row)
    → IsBounded l r
    → r.status ≡ running
    → Agrees (start (claimed codec r)) r
unfolding claimed
start-Agrees l codec r v h p e = ground arith

not_pending :
    (l : Limits) (codec : Codec) (r : Row)
    → IsBounded l r
    → r.status ≡ running
    → ((b : String) → r.result_payload ≡ some b → is_some (codec.unmarshal b) ≡ true)
    → (claimed codec r).result ≡ none
    → (claimed codec r).publication_pending ≡ false
unfolding claimed
not_pending l codec r v h d e = elim (Option-cases r.result_payload) [
  | inl n ↦ ground (arith, n)
  | inr (b, n) ↦ absurd (ground (arith, n, d b n))
]

-- While executeOne works on a leased row, whatever the others do between its calls and however its
-- calls are answered, the row only makes steps of the ledger: the statements that need a staged
-- result find it, with the bytes that are staged. That the staged bytes decode is a premise.
pub interleaved_Steps :
    (l : Limits) (c : Config) (id w t : String) {r q : Row} {p : Program}
    → IsBounded l r
    → r.status ≡ running
    → ((b : String) → r.result_payload ≡ some b → is_some (c.codec.unmarshal b) ≡ true)
    → Moves l id w t r (execute_one c (claimed c.codec r)) q p
    → Steps l r q
interleaved_Steps l c id w t {r} v h d s =
    (Moves-Kept l id w t s (
      start (claimed c.codec r),
      execute_one-Follows c (claimed c.codec r) (not_pending l c.codec r v h d),
      start-Agrees l c.codec r v h,
      v,
    )).0
