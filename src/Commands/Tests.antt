-- ===== src/Commands/Tests.antt =====
-- Tests of the commands and their history on a sample project.
use road_sim.Prelude.{◌≡◌, refl, [], ◌∷◌, ok, err, arith, ap, subst, false}
use road_sim.Types.Fault.{fault}
use road_sim.Domain.Catalog
use road_sim.Domain.Catalog.{with_multimodal, check_parts}
use road_sim.Domain.ControlChecks.{validate_against}
use road_sim.Domain.Design.{replace_corridors}
use road_sim.Domain.Study
use road_sim.Domain.Project.{Project, with_study_catalog, with_rule_configuration, with_catalog}
use road_sim.Commands.Primitive.{
  CommandErrorCode, CommandOutcome, Command, create, delete, inverse, apply, apply_primitive,
  apply_create, merge,
}
use road_sim.Prelude.Keyed.{find}
use road_sim.Commands.Primitive.Store.{perform_all}
use road_sim.Commands.Primitive.Refinement.{Agrees, view}
use road_sim.Commands.Primitive.Apply.{apply-Agrees}
use road_sim.Commands.State.{
  ModelTransaction, CommandEnvelope, execute, next_project, checked_next, rebuild_project, commit,
  published,
}
use road_sim.Commands.State.Valid.{IsValid}
use road_sim.Commands.State.Undo.{execute-inverse, execute-IsValid}
use road_sim.Commands.State.Atomic.{IsAtomic, commit-IsAtomic, commit-stale}
use road_sim.Commands.History.{
  CommandHistory, new, history_execute, history_execute_envelope, commit_transaction, undo, redo,
  push_bounded, ensure_state, after_new, record_new,
}
use road_sim.Commands.History.Linked.{IsLinked}
use road_sim.Commands.History.Atomic.{IsFollowed, calls-IsFollowed}
use road_sim.Commands.History.Bounds.{IsBoundedAfter, calls-IsBounded}
use road_sim.Commands.History.Invariant.{IsLinkedAfter, new-IsLinked, history_execute-IsLinked}
use road_sim.Commands.History.Roundtrip.{execute-undo, undo-redo}
use road_sim.Commands.History.Session.{
  run_command, run, run_all, AreReady, left_by, session-IsReady, session-undo,
}
use road_sim.Commands.Samples.{
  corridor_with, start_state, create_corridor, created_state, created_outcome,
}

start_state-IsValid : IsValid start_state.project
unfolding replace_corridors Study.validate_against with_multimodal Catalog.new check_parts
    validate_against
start_state-IsValid = record { strict = tt; stable = refl; studied = refl }

created : execute create_corridor start_state ≡ (ok created_outcome, created_state)
unfolding execute apply apply_primitive apply_create next_project checked_next replace_corridors
    with_multimodal Catalog.new check_parts validate_against rebuild_project with_study_catalog
    Study.validate_against merge with_rule_configuration with_catalog
created = refl

-- Creating a corridor is undone by deleting it.
execute-inverse_example :
    (undone : CommandOutcome) × (execute (inverse (delete 5 ∷ [])) created_state
      ≡ (ok undone, record start_state { revision = 2 }))
    × (undone.inverse ≡ create (corridor_with 5 9) ∷ [])
execute-inverse_example =
    execute-inverse create_corridor start_state created_state created_outcome created
      start_state-IsValid (omega arith)

execute-IsValid_example : IsValid created_state.project
execute-IsValid_example =
    execute-IsValid create_corridor start_state created_state created_outcome created

-- A transaction that creates the corridor.
abbrev creating : ModelTransaction
creating = record {
  source_identity = 7;
  base_revision = 0;
  project_shell = start_state.project;
  working_model = corridor_with 5 9 ∷ [];
  outcome = created_outcome;
  command_count = 1;
  aborted = false;
}

commit-IsAtomic_example : IsAtomic start_state (commit creating start_state)
commit-IsAtomic_example = commit-IsAtomic creating start_state

committed : commit creating start_state ≡ (ok created_outcome, created_state)
unfolding commit published next_project checked_next replace_corridors with_multimodal Catalog.new
    check_parts validate_against rebuild_project with_study_catalog Study.validate_against
    with_rule_configuration with_catalog
committed = refl

-- A second transaction from the same state comes too late.
commit-stale_example :
    commit (record creating { working_model = [] }) created_state
    ≡ (err (fault CommandErrorCode.stale_revision []), created_state)
commit-stale_example =
    commit-stale creating (record creating { working_model = [] }) start_state created_state
      created_outcome committed refl refl refl refl

-- A history of two commands at most, and the one after the creation.
abbrev new_history : CommandHistory
new_history = record {
  state_identity = 7;
  project_id = 1;
  observed_revision = 0;
  capacity = 2;
  undo = [];
  redo = [];
}

abbrev created_history : CommandHistory
created_history = record new_history { observed_revision = 1; undo = (delete 5 ∷ []) ∷ [] }

recorded :
    history_execute new_history start_state create_corridor
    ≡ (ok created_outcome, created_history, created_state)
unfolding history_execute ensure_state after_new record_new push_bounded execute apply
    apply_primitive apply_create next_project checked_next replace_corridors with_multimodal
    Catalog.new check_parts validate_against rebuild_project with_study_catalog
    Study.validate_against merge with_rule_configuration with_catalog
recorded = refl

execute-undo_example :
    (undone : CommandOutcome) × (undo created_history created_state ≡ (
      ok undone,
      record new_history { observed_revision = 2; redo = (create (corridor_with 5 9) ∷ []) ∷ [] },
      record start_state { revision = 2 },
    ))
execute-undo_example =
    execute-undo new_history created_history start_state created_state create_corridor
      created_outcome recorded start_state-IsValid (omega arith) (omega arith)

new_history-IsLinked : IsLinked new_history start_state
unfolding new
new_history-IsLinked = new-IsLinked start_state 2 start_state-IsValid

created_history-IsLinked : IsLinked created_history created_state
created_history-IsLinked =
    subst IsLinkedAfter recorded
      (history_execute-IsLinked new_history start_state new_history-IsLinked create_corridor)

undo-redo_example :
    (out : CommandOutcome) × (q : Project) × (again : CommandOutcome) × IsValid q
    × (undo created_history created_state ≡ (
      ok out,
      record created_history { observed_revision = 2; undo = []; redo = out.inverse ∷ [] },
      record created_state { project = q; revision = 2 },
    ))
    × (redo
          (record created_history { observed_revision = 2; undo = []; redo = out.inverse ∷ [] })
          (record created_state { project = q; revision = 2 })
        ≡ (
          ok again,
          record created_history { observed_revision = 3 },
          record created_state { revision = 3 },
        ))
undo-redo_example =
    undo-redo created_history created_state (delete 5 ∷ []) [] created_history-IsLinked
      (record { identity = refl; revision = refl }) refl (omega arith) (omega arith) (omega arith)

calls-IsFollowed_example :
    ((c : Command)
      → IsFollowed created_history created_state (history_execute created_history created_state c))
    × ((e : CommandEnvelope)
        → IsFollowed created_history created_state
            (history_execute_envelope created_history created_state e))
    × ((t : ModelTransaction)
        → IsFollowed created_history created_state
            (commit_transaction created_history created_state t))
    × IsFollowed created_history created_state (undo created_history created_state)
    × IsFollowed created_history created_state (redo created_history created_state)
calls-IsFollowed_example = calls-IsFollowed created_history created_state

calls-IsBounded_example :
    ((c : Command) → IsBoundedAfter (history_execute created_history created_state c))
    × ((e : CommandEnvelope)
        → IsBoundedAfter (history_execute_envelope created_history created_state e))
    × ((t : ModelTransaction) → IsBoundedAfter (commit_transaction created_history created_state t))
    × IsBoundedAfter (undo created_history created_state)
    × IsBoundedAfter (redo created_history created_state)
calls-IsBounded_example =
    calls-IsBounded created_history created_state
      (record { some_capacity = omega arith; undo = omega arith; redo = omega arith })

session-IsReady_example :
    AreReady (run_all (run_command create_corridor ∷ []) (new start_state 2, start_state))
session-IsReady_example =
    session-IsReady (run_command create_corridor ∷ []) start_state 2 start_state-IsValid
      (omega arith)

reached :
    run_all (run_command create_corridor ∷ []) (new start_state 2, start_state)
    ≡ (created_history, created_state)
unfolding run_all run new
reached = ap left_by recorded

session-undo_example :
    (out : CommandOutcome) × (q : Project) × IsValid q
    × (undo created_history created_state ≡ (
      ok out,
      record created_history {
        observed_revision = 2;
        undo = [];
        redo = push_bounded [] 2 out.inverse;
      },
      record created_state { project = q; revision = 2 },
    ))
session-undo_example =
    session-undo (run_command create_corridor ∷ []) start_state 2 created_history created_state
      (delete 5 ∷ []) [] start_state-IsValid (omega arith) reached refl (omega arith)

-- Creating a corridor on a list, by a command that undoes a deletion.
apply-Agrees_example :
    Agrees
      (apply (inverse (create (corridor_with 5 9) ∷ [])) (corridor_with 4 8 ∷ []))
      (perform_all (create (corridor_with 5 9) ∷ []) (view (corridor_with 4 8 ∷ [])))
unfolding find
apply-Agrees_example =
    apply-Agrees (inverse (create (corridor_with 5 9) ∷ [])) (corridor_with 4 8 ∷ []) (λ e. cc e)
      (refl, tt)
