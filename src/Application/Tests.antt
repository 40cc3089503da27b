-- ===== src/Application/Tests.antt =====
-- Runs of the orchestrator and of the snapshots.
use road_sim.Prelude.{ok, err, ◌+◌, ◌≡◌, refl, ◌⊎◌, true, none, List, [], ◌∷◌, arith}
use road_sim.Backend.Api.{SessionState}
use road_sim.Backend.Agents.{AgentState}
use road_sim.Application.Run.{
  RunState, is_active, prepare, start, pause, cancel, reset, RunOutcome, new, intent_for, follow,
  request, observe_tick, finish, observe_active, observe_session_state,
}
use road_sim.Application.Run.Outcomes.{
  Call, ask, tick_seen, state_seen, settle, step, active, after_all, outcomes, runs-settle,
}
use road_sim.Application.Snapshot.{
  agent_limit_exceeded, with_max_agents, snapshot_of, not_finite, update,
}

-- Two runs, the second still active, with a request that is refused.
abbrev calls : List Call
calls =
    ask start
    ∷ ask prepare
    ∷ ask start
    ∷ tick_seen 3
    ∷ ask cancel
    ∷ state_seen SessionState.cancelled
    ∷ ask reset
    ∷ ask start
    ∷ ask pause
    ∷ []

calls_run :
    (after_all new calls ≡ record { state = RunState.paused; tick = 0; started_runs = 2 })
    × (outcomes new calls ≡ 1)
unfolding after_all outcomes step new request intent_for follow observe_tick observe_session_state
    observe_active finish
calls_run = (refl, refl)

runs-settle_example :
    ((after_all new calls).started_runs ≡ outcomes new calls + active (after_all new calls))
    × ((step (after_all new calls) (settle RunOutcome.failed)).0
        ≡ is_active (after_all new calls).state)
    × (((step (after_all new calls) (ask reset)).0 ≡ true)
        ⊎ ((step (after_all new calls) (ask reset)).1 ≡ after_all new calls))
runs-settle_example = runs-settle calls RunOutcome.failed (ask reset) (omega arith)

abbrev an_agent : AgentState
an_agent = record {
  agent_id = 1;
  lane_id = none;
  x_m = 0;
  y_m = 0;
  heading_rad = 0;
  footprint = record { length_m = 1; width_m = 1 };
}

update_runs :
    (update
        (λ bits. bits)
        (with_max_agents 1)
        (record { tick = 2; agents = an_agent ∷ an_agent ∷ [] })
      ≡ (err agent_limit_exceeded, with_max_agents 1))
    × ((update (λ bits. bits) (with_max_agents 1) (record { tick = 2; agents = an_agent ∷ [] })).0
        ≡ ok tt)
unfolding update with_max_agents snapshot_of not_finite
update_runs = (refl, refl)
