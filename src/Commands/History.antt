-- ===== src/Commands/History.antt =====
-- crates/roadsim-commands/src/lib.rs: `CommandHistory`. A deque is the list of its items, the back
-- first.
pub mod Linked
pub mod Atomic
pub mod Invariant
pub mod Roundtrip
pub mod Bounds
pub mod Session
use road_sim.Prelude.{ℕ, List, [], ◌∷◌, Result, ok, err, ◌==◌, if◌then◌else◌, length}
use road_sim.Types.Ids.{ObjectKind, object_ref}
use road_sim.Types.Fault.{fault}
use road_sim.Commands.Primitive.{
  CommandErrorCode, CommandError, CommandOutcome, InverseCommand, Command, inverse,
}
use road_sim.Commands.State.{
  ModelState, ModelTransaction, CommandEnvelope, Changed, project_ref, commit, execute,
  execute_envelope,
}

pub record CommandHistory : Type 0 where
  pub state_identity : ℕ
  pub project_id : ℕ
  pub observed_revision : ℕ
  pub capacity : ℕ
  pub undo : List InverseCommand
  pub redo : List InverseCommand

unfoldable pub new : ModelState → ℕ → CommandHistory
new state capacity = record {
  state_identity = state.identity;
  project_id = state.project.id;
  observed_revision = state.revision;
  capacity = capacity;
  undo = [];
  redo = [];
}

unfoldable pub ensure_state : CommandHistory → ModelState → Result (Unit {0}) CommandError
ensure_state h state =
    if h.state_identity == state.identity
    then if h.observed_revision == state.revision
      then ok tt
      else err (fault CommandErrorCode.stale_revision (project_ref state.project ∷ []))
    else err (
        fault CommandErrorCode.wrong_state
          (object_ref ObjectKind.project h.project_id ∷ project_ref state.project ∷ []))

-- `pop_front`
unfoldable pub pop_front : List InverseCommand → List InverseCommand
pop_front [] = []
pop_front (c ∷ []) = []
pop_front (c ∷ d ∷ queue) = c ∷ pop_front (d ∷ queue)

unfoldable pub push_bounded : List InverseCommand → ℕ → InverseCommand → List InverseCommand
unfolding pop_front
push_bounded queue capacity command =
    command ∷ (if length queue == capacity then pop_front queue else queue)

unfoldable pub record_new : CommandHistory → InverseCommand → CommandHistory
unfolding push_bounded
record_new h command = record h { undo = push_bounded h.undo h.capacity command; redo = [] }

-- A result, and the history and the state after the call.
abbrev pub Recorded : Type 0
Recorded = Result CommandOutcome CommandError × CommandHistory × ModelState

abbrev pub observe : CommandHistory → ModelState → CommandHistory
observe h state = record h { observed_revision = state.revision }

-- What follows the change of the state in `execute` and its like.
unfoldable pub after_new : CommandHistory → Changed → Recorded
unfolding record_new
after_new h (ok outcome, state) = (ok outcome, record_new (observe h state) outcome.inverse, state)
after_new h (err e, state) = (err e, h, state)

abbrev pub if_ensured : CommandHistory → ModelState → Recorded → Recorded
if_ensured h state call = elim (ensure_state h state) [ ok _ ↦ call | err e ↦ (err e, h, state) ]

unfoldable pub history_execute : CommandHistory → ModelState → Command → Recorded
unfolding ensure_state after_new
history_execute h state command = if_ensured h state (after_new h (execute command state))

unfoldable pub history_execute_envelope : CommandHistory → ModelState → CommandEnvelope → Recorded
unfolding ensure_state after_new
history_execute_envelope h state e = if_ensured h state (after_new h (execute_envelope e state))

unfoldable pub commit_transaction : CommandHistory → ModelState → ModelTransaction → Recorded
unfolding ensure_state after_new
commit_transaction h state t = if_ensured h state (after_new h (commit t state))

unfoldable pub after_undo : CommandHistory → List InverseCommand → Changed → Recorded
unfolding push_bounded
after_undo h rest (ok outcome, state) = (
  ok outcome,
  record (observe h state) { undo = rest; redo = push_bounded h.redo h.capacity outcome.inverse },
  state,
)
after_undo h rest (err e, state) = (err e, h, state)

unfoldable pub undo_last : CommandHistory → ModelState → List InverseCommand → Recorded
unfolding after_undo
undo_last h state [] = (err (fault CommandErrorCode.undo_unavailable []), h, state)
undo_last h state (command ∷ rest) = after_undo h rest (execute (inverse command) state)

unfoldable pub undo : CommandHistory → ModelState → Recorded
unfolding ensure_state undo_last
undo h state = if_ensured h state (undo_last h state h.undo)

unfoldable pub after_redo : CommandHistory → List InverseCommand → Changed → Recorded
unfolding push_bounded
after_redo h rest (ok outcome, state) = (
  ok outcome,
  record (observe h state) { redo = rest; undo = push_bounded h.undo h.capacity outcome.inverse },
  state,
)
after_redo h rest (err e, state) = (err e, h, state)

unfoldable pub redo_last : CommandHistory → ModelState → List InverseCommand → Recorded
unfolding after_redo
redo_last h state [] = (err (fault CommandErrorCode.redo_unavailable []), h, state)
redo_last h state (command ∷ rest) = after_redo h rest (execute (inverse command) state)

unfoldable pub redo : CommandHistory → ModelState → Recorded
unfolding ensure_state redo_last
redo h state = if_ensured h state (redo_last h state h.redo)
