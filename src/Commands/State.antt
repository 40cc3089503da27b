-- ===== src/Commands/State.antt =====
-- crates/roadsim-commands/src/lib.rs: the model state, transactions on it, and envelopes. The
-- identity of a state is the address of an allocation, here a number that the caller hands out.
pub mod Valid
pub mod Execute
pub mod Undo
pub mod Moves
pub mod Atomic
use road_sim.Prelude.{
  ℕ, ◌+◌, ◌-◌, ◌^◌, Bool, true, false, not, List, [], ◌∷◌, Option, none, some, Result, ok, err,
  ◌>>=◌, ◌>>◌, reject_if, ok_or, map_err, ltb, ◌==◌, if◌then◌else◌,
}
use road_sim.Types.Ids.{ObjectKind, ObjectRef, object_ref}
use road_sim.Types.Fault.{Fault, fault}
use road_sim.Domain.Corridor.{Corridor}
use road_sim.Domain.Catalog.{DesignCatalog}
use road_sim.Domain.Design.{replace_corridors}
use road_sim.Domain.Project.{Project, with_catalog, with_study_catalog, with_rule_configuration}
use road_sim.Commands.Primitive.{
  CommandErrorCode, CommandError, CommandOutcome, no_outcome, merge, Applied, Command, apply,
}

-- `u64::MAX`
abbrev pub max_revision : ℕ
max_revision = 2 ^ 64 - 1

unfoldable pub checked_next : ℕ → Option ℕ
checked_next revision = if ltb revision max_revision then some (revision + 1) else none

abbrev pub broken_invariant : {Code : Type 0} → Fault Code → CommandError
broken_invariant e = fault CommandErrorCode.domain_invariant e.object_refs

unfoldable pub rebuild_project : Project → DesignCatalog → Result Project CommandError
rebuild_project project catalog = do
  rebuilt ← map_err broken_invariant (
      with_study_catalog
        (with_catalog project.id project.metadata project.coordinate_reference catalog)
        project.study_catalog)
  ok (with_rule_configuration rebuilt project.rule_configuration)

pub record ModelState : Type 0 where
  pub project : Project
  pub revision : ℕ
  pub identity : ℕ

-- `new` and `with_revision`, and `clone`, with the identity that they allocate.
abbrev pub with_revision : ℕ → Project → ℕ → ModelState
with_revision identity project revision = record {
  project = project;
  revision = revision;
  identity = identity;
}

abbrev pub clone : ℕ → ModelState → ModelState
clone identity state = with_revision identity state.project state.revision

pub record CommandEnvelope : Type 0 where
  pub target_identity : ℕ
  pub target_project_id : ℕ
  pub expected_revision : ℕ
  pub command : Command

abbrev pub envelope : ModelState → Command → CommandEnvelope
envelope state command = record {
  target_identity = state.identity;
  target_project_id = state.project.id;
  expected_revision = state.revision;
  command = command;
}

pub record ModelTransaction : Type 0 where
  pub source_identity : ℕ
  pub base_revision : ℕ
  pub project_shell : Project
  pub working_model : List Corridor
  pub outcome : CommandOutcome
  pub command_count : ℕ
  pub aborted : Bool

unfoldable pub begin_transaction : ModelState → ModelTransaction
begin_transaction state = record {
  source_identity = state.identity;
  base_revision = state.revision;
  project_shell = state.project;
  working_model = state.project.design_catalog.corridors;
  outcome = no_outcome;
  command_count = 0;
  aborted = false;
}

-- What `apply` makes of the command's result.
unfoldable pub record_result :
    ModelTransaction → Applied → Result (Unit {0}) CommandError × ModelTransaction
record_result t (ok outcome, model) = (
  ok tt,
  record t {
    working_model = model;
    outcome = merge t.outcome outcome;
    command_count = t.command_count + 1;
  },
)
record_result t (err e, model) = (err e, record t { working_model = model; aborted = true })

unfoldable pub apply_command :
    ModelTransaction → Command → Result (Unit {0}) CommandError × ModelTransaction
unfolding record_result
apply_command t command =
    if t.aborted
    then (err (fault CommandErrorCode.transaction_aborted []), t)
    else record_result t (apply command t.working_model)

abbrev pub project_ref : Project → ObjectRef
project_ref project = object_ref ObjectKind.project project.id

-- The end of `commit`: the project with its new corridors, and the next revision.
unfoldable pub next_project : Project → List Corridor → ℕ → Result (Project × ℕ) CommandError
next_project shell working_model revision = do
  next_revision ← ok_or (checked_next revision) (fault CommandErrorCode.revision_overflow [])
  catalog ← map_err broken_invariant (replace_corridors shell.design_catalog working_model)
  project ← rebuild_project shell catalog
  ok (project, next_revision)

-- What `commit` publishes: the project and the revision.
unfoldable pub published : ModelTransaction → ModelState → Result (Project × ℕ) CommandError
published t state = do
  reject_if t.aborted (fault CommandErrorCode.transaction_aborted [])
  reject_if (t.command_count == 0) (fault CommandErrorCode.empty_transaction [])
  reject_if (not (state.identity == t.source_identity)) (
      fault CommandErrorCode.wrong_state
        (project_ref t.project_shell ∷ project_ref state.project ∷ []))
  reject_if (not (state.revision == t.base_revision)) (fault CommandErrorCode.stale_revision [])
  next_project t.project_shell t.working_model state.revision

-- A result and the state after the call.
abbrev pub Changed : Type 0
Changed = Result CommandOutcome CommandError × ModelState

abbrev pub publish : CommandOutcome → ModelState → Result (Project × ℕ) CommandError → Changed
publish outcome state (ok (project, revision)) =
    (ok outcome, record state { project = project; revision = revision })
publish outcome state (err e) = (err e, state)

unfoldable pub commit : ModelTransaction → ModelState → Changed
unfolding published
commit t state = publish t.outcome state (published t state)

abbrev pub commit_applied : ModelState → Result (Unit {0}) CommandError × ModelTransaction → Changed
commit_applied state (ok _, t) = commit t state
commit_applied state (err e, t) = (err e, state)

unfoldable pub execute : Command → ModelState → Changed
unfolding begin_transaction apply_command commit
execute command state = commit_applied state (apply_command (begin_transaction state) command)

unfoldable pub execute_envelope : CommandEnvelope → ModelState → Changed
unfolding execute
execute_envelope e state =
    if not (state.identity == e.target_identity)
    then (
      err (
          fault CommandErrorCode.wrong_state
            (object_ref ObjectKind.project e.target_project_id ∷ project_ref state.project ∷ [])),
      state,
    )
    else if not (e.expected_revision == state.revision)
    then (err (fault CommandErrorCode.stale_revision []), state)
    else execute e.command state
