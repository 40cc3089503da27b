-- ===== src/Commands/State/Atomic.antt =====
-- crates/roadsim-commands/src/lib.rs: what a change of the state leaves, on an error and on success.
use road_sim.Prelude.{
  ℕ, ◌+◌, ◌≡◌, refl, sym, ap, subst₂, ◌∙◌, arith, Bool, true, false, not, Result, ok, err, ◌>>◌,
  ◌==◌, if◌then◌else◌, [], ◌∷◌, reject_if, reject_if-eq-ok,
}
use road_sim.Domain.Project.{Project}
use road_sim.Commands.Primitive.{CommandOutcome, CommandError, Command, CommandErrorCode}
use road_sim.Types.Fault.{fault}
use road_sim.Commands.State.{
  ModelState, ModelTransaction, CommandEnvelope, Changed, published, publish, commit,
  commit_applied, begin_transaction, apply_command, execute, execute_envelope, next_project,
  project_ref,
}
use road_sim.Commands.State.Execute.{Advanced, next_project-eq-ok}

unfoldable pub IsAtomic : ModelState → Changed → Type 0
IsAtomic s (ok out, s') = (s'.revision ≡ s.revision + 1) × (s'.identity ≡ s.identity)
IsAtomic s (err e, s') = s' ≡ s

-- What `commit` has checked where it succeeds.
pub record Committed (t : ModelTransaction) (s : ModelState) (p : Project) (r : ℕ) : Type 0 where
  pub running : t.aborted ≡ false
  pub some_work : (t.command_count == 0) ≡ false
  pub same_state : not (s.identity == t.source_identity) ≡ false
  pub same_revision : not (s.revision == t.base_revision) ≡ false
  pub advanced : Advanced t.project_shell t.working_model s.revision p r

pub published-eq-ok :
    (t : ModelTransaction) (s : ModelState) {p : Project} {r : ℕ}
    → published t s ≡ ok (p, r)
    → Committed t s p r
unfolding published
published-eq-ok t s h =
    let next = next_project t.project_shell t.working_model s.revision in
    let revision_left = reject_if (not (s.revision == t.base_revision)) stale >> next in
    let state_left = reject_if (not (s.identity == t.source_identity)) foreign >> revision_left in
    let work_left =
      reject_if (t.command_count == 0) (fault CommandErrorCode.empty_transaction [])
      >> state_left in
    let (running, a) = reject_if-eq-ok t.aborted ended work_left h in
    let (some_work, b) =
      reject_if-eq-ok (t.command_count == 0) (fault CommandErrorCode.empty_transaction [])
        state_left a in
    let (same_state, c) =
      reject_if-eq-ok (not (s.identity == t.source_identity)) foreign revision_left b in
    let (same_revision, d) = reject_if-eq-ok (not (s.revision == t.base_revision)) stale next c in
    record {
      running = running;
      some_work = some_work;
      same_state = same_state;
      same_revision = same_revision;
      advanced = next_project-eq-ok t.project_shell t.working_model s.revision d;
    }
  where
    ended : CommandError
    ended = fault CommandErrorCode.transaction_aborted []

    stale : CommandError
    stale = fault CommandErrorCode.stale_revision []

    foreign : CommandError
    foreign =
        fault CommandErrorCode.wrong_state
          (project_ref t.project_shell ∷ project_ref s.project ∷ [])

-- A commit that fails changes nothing; one that succeeds moves the revision by exactly one and
-- keeps the identity.
pub commit-IsAtomic : (t : ModelTransaction) (s : ModelState) → IsAtomic s (commit t s)
unfolding IsAtomic commit
commit-IsAtomic t s = by_result (published t s) refl
  where
    by_result :
        (r : Result (Project × ℕ) CommandError)
        → published t s ≡ r
        → IsAtomic s (publish t.outcome s r)
    by_result (ok (p, r)) h = ((published-eq-ok t s h).advanced.next, refl)
    by_result (err e) h = refl

pub execute-IsAtomic : (c : Command) (s : ModelState) → IsAtomic s (execute c s)
unfolding IsAtomic execute
execute-IsAtomic c s = by_result (apply_command (begin_transaction s) c)
  where
    by_result :
        (a : Result (Unit {0}) CommandError × ModelTransaction) → IsAtomic s (commit_applied s a)
    by_result (ok _, t) = commit-IsAtomic t s
    by_result (err e, t) = refl

pub execute_envelope-IsAtomic :
    (e : CommandEnvelope) (s : ModelState) → IsAtomic s (execute_envelope e s)
unfolding IsAtomic execute_envelope
execute_envelope-IsAtomic e s =
    by_test _ _ (s.identity == e.target_identity) (e.expected_revision == s.revision)
  where
    by_test :
        (f g : CommandError) (a b : Bool)
        → IsAtomic s
            (if not a then (err f, s) else if not b then (err g, s) else execute e.command s)
    by_test f g true true = execute-IsAtomic e.command s
    by_test f g true false = refl
    by_test f g false b = refl

pub IsAtomic-err :
    (s : ModelState) (x : Changed) {e : CommandError} {s' : ModelState}
    → IsAtomic s x
    → x ≡ (err e, s')
    → s' ≡ s
unfolding IsAtomic
IsAtomic-err s (ok out, t) a h = cc
IsAtomic-err s (err f, t) a h = cc (ap (λ (x : Changed). x.1) h, a)

commit-eq-ok :
    (t : ModelTransaction) (s : ModelState) {out : CommandOutcome} {s' : ModelState}
    → commit t s ≡ (ok out, s')
    → Committed t s s'.project s'.revision × (s'.identity ≡ s.identity)
unfolding commit
commit-eq-ok t s {out} {s'} h = by_result (published t s) refl h
  where
    by_result :
        (r : Result (Project × ℕ) CommandError)
        → published t s ≡ r
        → publish t.outcome s r ≡ (ok out, s')
        → Committed t s s'.project s'.revision × (s'.identity ≡ s.identity)
    by_result (ok (p, r)) a b =
        let same : record s { project = p; revision = r } ≡ s' = cc b in
        (
          subst₂ (Committed t s) (ap (λ (x : ModelState). x.project) same)
              (ap (λ (x : ModelState). x.revision) same) (published-eq-ok t s a),
          sym (ap (λ (x : ModelState). x.identity) same),
        )
    by_result (err e) a b = cc

same_number : (a b : ℕ) → not (a == b) ≡ false → a ≡ b
same_number a b h = ground arith

next_number : (a b : ℕ) → a ≡ b + 1 → not (a == b) ≡ true
next_number a b h = ground arith

not_equal_to_itself : (a : ℕ) → not (a == a) ≡ false
not_equal_to_itself a = ground arith

-- Of two transactions begun on one state at one revision, the second to commit is refused: after a
-- commit that succeeded, another transaction with the same source and base revision, with commands
-- and not aborted, gets `StaleRevision`, and the state stays as the first commit left it.
pub commit-stale :
    (t t' : ModelTransaction) (s s' : ModelState) (out : CommandOutcome)
    → commit t s ≡ (ok out, s')
    → t'.source_identity ≡ t.source_identity
    → t'.base_revision ≡ t.base_revision
    → t'.aborted ≡ false
    → (t'.command_count == 0) ≡ false
    → commit t' s' ≡ (err (fault CommandErrorCode.stale_revision []), s')
unfolding commit published
commit-stale t t' s s' out done same_source same_base running work =
    let (committed, identity) = commit-eq-ok t s done in
    let source : s'.identity ≡ t'.source_identity =
      identity ∙ same_number s.identity t.source_identity committed.same_state ∙ sym same_source in
    let base : s.revision ≡ t'.base_revision =
      same_number s.revision t.base_revision committed.same_revision ∙ sym same_base in
    let moved : not (s'.revision == t'.base_revision) ≡ true =
      next_number s'.revision t'.base_revision (committed.advanced.next ∙ ap (λ r. r + 1) base) in
    rw (running, work, source, not_equal_to_itself t'.source_identity, moved)
