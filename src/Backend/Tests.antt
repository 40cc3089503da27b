-- ===== src/Backend/Tests.antt =====
-- Tests of the in-memory backend's sessions.
use road_sim.Prelude.{
  ℕ, ◌+◌, ◌≤◌, if◌then◌else◌, ◌*◌, ◌≡◌, refl, length, [], ◌∷◌, Result, ok, err, true, false, arith,
}
use road_sim.Backend.Seed.{v1, agent_spawn, derive_seed, splitmix64, xor_shift}
use road_sim.Backend.Api.{
  BackendError, RunConfig, running, paused, completed, pause, resume, is_terminal, ControlCommand,
  BackendEvent,
}
use road_sim.Backend.Fake.{
  FakeSession, StoredArtifact, new, control, control_known, control_new, remember, next_event,
  next_frame, advance_tick, cancel, terminal_error, framed,
}
use road_sim.Backend.Api.{BackendArtifact, road_vehicles_basic}
use road_sim.Backend.Fake.{CompiledNetwork}
use road_sim.Backend.Api.{new_run}
use road_sim.Backend.Fake.Start.{new-IsConsistent}
use road_sim.Backend.Fake.Store.{
  Artifacts, fake_backend_id, compile, store, unsupported_in, start, compile-start,
}
use road_sim.Backend.Fake.Controls.{control-again}
use road_sim.Backend.Fake.Repeats.{
  sends, polls, cancels, commands_in, after_call, after_calls, control-later,
}
use road_sim.Backend.Fake.Run.{IsConsistent, session_of, calls-IsConsistent}
use road_sim.Backend.Fake.Completion.{poll, run_completes}

abbrev artifact : StoredArtifact
artifact = record {
  network = record { lane_count = 1; requirements = []; content_hash = 3 };
  scenario = record { content_hash = 4; agent_count = 2 };
}

-- Ten ticks in steps of four.
abbrev run : RunConfig
run = record { scenario_hash = 4; duration_ticks = 10; step_ticks = 4; root_seed = 1 }

-- A frame that shows its tick alone.
abbrev tick_frame : ℕ → Result ℕ BackendError
tick_frame tick = ok tick

abbrev session : FakeSession
session = record {
  artifact = artifact;
  run = run;
  state = running;
  next_tick = 0;
  emitted_frames = 0;
  pending_state_event = true;
  idempotency = [];
}

abbrev pause_command : ControlCommand
pause_command = record { sequence = 1; idempotency_key = 11; kind = pause }

abbrev paused_session : FakeSession
paused_session = record session { state = paused; idempotency = (11, pause) ∷ [] }

paused_once :
    control session pause_command
    ≡ (ok (record { sequence = 1; duplicate = false }), paused_session)
unfolding control control_known control_new remember
paused_once = refl

control-again_example :
    control paused_session pause_command
    ≡ (ok (record { sequence = 1; duplicate = true }), paused_session)
control-again_example =
    control-again session paused_session pause_command (record { sequence = 1; duplicate = false })
      paused_once

-- The command comes again after it was undone by another, a frame and a cancellation.
abbrev resume_command : ControlCommand
resume_command = record { sequence = 2; idempotency_key = 12; kind = resume }

few_commands :
    length paused_session.idempotency
      + commands_in (sends resume_command ∷ polls ∷ polls ∷ cancels ∷ [])
    ≤ 64
unfolding commands_in
few_commands = omega arith

control-later_example :
    let calls = sends resume_command ∷ polls ∷ polls ∷ cancels ∷ [] in
    let left = after_calls tick_frame paused_session calls in
    control left pause_command ≡ (
      if is_terminal left.state
          then err terminal_error
          else ok (record { sequence = 1; duplicate = true }),
      left,
    )
control-later_example =
    control-later tick_frame session paused_session pause_command
      (record { sequence = 1; duplicate = false })
      (sends resume_command ∷ polls ∷ polls ∷ cancels ∷ []) paused_once few_commands

-- Without the cancellation, it is a duplicate.
repeated :
    (control
      (after_calls tick_frame paused_session (sends resume_command ∷ polls ∷ polls ∷ []))
      pause_command).0
    ≡ ok (record { sequence = 1; duplicate = true })
unfolding after_calls after_call control control_known control_new remember next_event next_frame
    advance_tick
repeated = refl

calls-IsConsistent_example :
    ((command : ControlCommand) → IsConsistent (session_of (control session command)))
    × IsConsistent (session_of (next_event tick_frame session))
    × IsConsistent (session_of (cancel session))
calls-IsConsistent_example = calls-IsConsistent tick_frame session (record {
  some_step = omega arith;
  machine = omega arith;
  within = omega arith;
  emitted = omega arith;
  remembered = omega arith;
})

-- Three frames, at the ticks 0, 4 and 8; the last of them is numbered 2.
run_completes_example :
    ((next_event tick_frame (poll tick_frame 3 (new artifact run))).0 ≡ framed (tick_frame (2 * 4)))
    × ((next_event tick_frame (poll tick_frame 4 (new artifact run))).0
        ≡ ok (
            BackendEvent.completed
              (record { terminal_state = completed; final_tick = 10; emitted_frames = 3 })))
run_completes_example =
    run_completes tick_frame artifact run 2 2 (omega arith) (omega arith) (omega arith)
      (omega arith) (omega arith)

-- An artifact compiled next to another starts a session of its own network.
abbrev other_network : CompiledNetwork
other_network = record { lane_count = 3; requirements = road_vehicles_basic ∷ []; content_hash = 8 }

abbrev compiled_artifact : BackendArtifact
compiled_artifact = record { backend_id = fake_backend_id; network_hash = 8; scenario_hash = 4 }

abbrev both_artifacts : Artifacts
both_artifacts =
    ((3, 4), artifact)
    ∷ ((8, 4), record { network = other_network; scenario = artifact.scenario })
    ∷ []

compiled :
    compile (((3, 4), artifact) ∷ []) other_network artifact.scenario
    ≡ (ok compiled_artifact, both_artifacts)
unfolding compile unsupported_in store
compiled = refl

compile-start_example :
    start both_artifacts compiled_artifact run
    ≡ ok (new (record { network = other_network; scenario = artifact.scenario }) run)
compile-start_example =
    compile-start (((3, 4), artifact) ∷ []) both_artifacts other_network artifact.scenario
      compiled_artifact run compiled refl

run-new : new_run 4 10 4 1 ≡ ok run
unfolding new_run
run-new = refl

new-IsConsistent_example : IsConsistent session
unfolding new
new-IsConsistent_example = new-IsConsistent artifact 4 10 4 1 run run-new (omega arith)

-- The known values of the code's own test.
derive_seed_runs :
    (derive_seed v1 0 agent_spawn 0 ≡ 0xa065ff27d9f02a16)
    × (derive_seed v1 42 agent_spawn 7 ≡ 0x150fca994ad9f181)
unfolding derive_seed splitmix64 xor_shift
derive_seed_runs = (refl, refl)
