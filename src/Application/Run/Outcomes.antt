-- ===== src/Application/Run/Outcomes.antt =====
-- Sequences of calls on the orchestrator: each run that is started has at most one outcome.
use road_sim.Prelude.{
  if◌then◌else◌, length, Result, ok, err, ℕ, suc, ◌+◌, ◌-◌, ◌^◌, ◌≤◌, ◌<◌, ◌≡◌, refl, ◌⊎◌, inl, inr,
  Bool-cases, Bool, true, false, ◌&&◌, List, [], ◌∷◌, arith,
}
use road_sim.Backend.Api.{SessionState}
use road_sim.Application.Run.{
  RunState, is_terminal, is_active, RunRequest, RunOutcome, RunOrchestrator, RunError, new, prepare,
  start, pause, resume, cancel, reset, intent_for, follow, request, observe_tick, finish,
  observe_active, observe_session_state,
}

-- A call of any of the operations.
pub data Call : Type 0 where
  ask : RunRequest → Call
  tick_seen : ℕ → Call
  state_seen : SessionState → Call
  settle : RunOutcome → Call

abbrev pub is_ok : {A : Type 0} → Result A RunError → Bool
is_ok (ok a) = true
is_ok (err e) = false

-- Whether a call is accepted, and the run after it.
unfoldable pub step : RunOrchestrator → Call → Bool × RunOrchestrator
unfolding request observe_tick observe_session_state finish
step run (ask wanted) = (is_ok (request run wanted).result, (request run wanted).after)
step run (tick_seen tick) = (is_ok (observe_tick run tick).result, (observe_tick run tick).after)
step run (state_seen state) =
    (is_ok (observe_session_state run state).result, (observe_session_state run state).after)
step run (settle outcome) = (is_ok (finish run outcome).result, (finish run outcome).after)

-- One, if the run is active.
abbrev pub active : RunOrchestrator → ℕ
active run = if is_active run.state then 1 else 0

-- One, if a call took an active run to an outcome.
abbrev settled : RunOrchestrator → RunOrchestrator → ℕ
settled before after = if is_active before.state && is_terminal after.state then 1 else 0

unfoldable pub after_all : RunOrchestrator → List Call → RunOrchestrator
unfolding step
after_all run [] = run
after_all run (call ∷ calls) = after_all (step run call).1 calls

-- How many of the calls took an active run to an outcome.
unfoldable pub outcomes : RunOrchestrator → List Call → ℕ
unfolding step
outcomes run [] = 0
outcomes run (call ∷ calls) = settled run (step run call).1 + outcomes (step run call).1 calls

-- What one call does to the count of the runs.
record Balanced (before after : RunOrchestrator) : Type 0 where
  next : after.started_runs ≤ suc before.started_runs
  balance :
      before.started_runs < 2 ^ 64 - 1
      → after.started_runs + active before
        ≡ before.started_runs + active after + settled before after

stays : (run : RunOrchestrator) → Balanced run run
stays run = ground arith

request-Balanced :
    (state : RunState) (tick n : ℕ) (wanted : RunRequest)
    → let run : RunOrchestrator = record { state = state; tick = tick; started_runs = n } in
      Balanced run (request run wanted).after
unfolding request intent_for follow
request-Balanced state tick n prepare = ground arith
request-Balanced state tick n start = ground arith
request-Balanced state tick n pause = ground arith
request-Balanced state tick n resume = ground arith
request-Balanced state tick n cancel = ground arith
request-Balanced state tick n reset = ground arith

finish-Balanced :
    (run : RunOrchestrator) (outcome : RunOutcome) → Balanced run (finish run outcome).after
unfolding finish
finish-Balanced run outcome = ground arith

observe_active-Balanced :
    (run : RunOrchestrator) (state : RunState)
    → is_active state ≡ true
    → is_terminal state ≡ false
    → Balanced run (observe_active run state).after
unfolding observe_active
observe_active-Balanced run state h k = ground arith

observe_tick-Balanced :
    (run : RunOrchestrator) (tick : ℕ) → Balanced run (observe_tick run tick).after
unfolding observe_tick
observe_tick-Balanced run tick = ground arith

step-Balanced : (run : RunOrchestrator) (call : Call) → Balanced run (step run call).1
unfolding step observe_session_state
step-Balanced run (ask wanted) = request-Balanced run.state run.tick run.started_runs wanted
step-Balanced run (tick_seen tick) = observe_tick-Balanced run tick
step-Balanced run (state_seen SessionState.running) =
    observe_active-Balanced run RunState.running refl refl
step-Balanced run (state_seen SessionState.paused) =
    observe_active-Balanced run RunState.paused refl refl
step-Balanced run (state_seen SessionState.completed) = finish-Balanced run RunOutcome.completed
step-Balanced run (state_seen SessionState.cancelled) = finish-Balanced run RunOutcome.cancelled
step-Balanced run (state_seen SessionState.failed) = finish-Balanced run RunOutcome.failed
step-Balanced run (settle outcome) = finish-Balanced run outcome

after_all-Balanced :
    (run : RunOrchestrator) (calls : List Call)
    → run.started_runs + length calls < 2 ^ 64
    → (after_all run calls).started_runs + active run
      ≡ run.started_runs + active (after_all run calls) + outcomes run calls
unfolding after_all outcomes
after_all-Balanced run [] h = omega arith
after_all-Balanced run (call ∷ calls) h =
    let first = step-Balanced run call in
    let rest = after_all-Balanced (step run call).1 calls (omega (arith, h, first.next)) in
    omega (arith, rest, first.balance (omega (arith, h)))

refused_request :
    (run : RunOrchestrator) (wanted : RunRequest)
    → is_ok (request run wanted).result ≡ false
    → (request run wanted).after ≡ run
unfolding request
refused_request run wanted h = ground arith

refused_observe :
    (run : RunOrchestrator) (state : SessionState)
    → is_ok (observe_session_state run state).result ≡ false
    → (observe_session_state run state).after ≡ run
unfolding observe_session_state observe_active finish
refused_observe run SessionState.running h = ground arith
refused_observe run SessionState.paused h = ground arith
refused_observe run SessionState.completed h = ground arith
refused_observe run SessionState.cancelled h = ground arith
refused_observe run SessionState.failed h = ground arith

refused :
    (run : RunOrchestrator) (call : Call) → (step run call).0 ≡ false → (step run call).1 ≡ run
unfolding step observe_tick finish
refused run (ask wanted) h = refused_request run wanted h
refused run (tick_seen tick) h = ground arith
refused run (state_seen state) h = refused_observe run state h
refused run (settle outcome) h = ground arith

settles :
    (run : RunOrchestrator) (outcome : RunOutcome)
    → (step run (settle outcome)).0 ≡ is_active run.state
unfolding step finish
settles run outcome = ground arith

taken_or_unchanged :
    (run : RunOrchestrator) (call : Call) → ((step run call).0 ≡ true) ⊎ ((step run call).1 ≡ run)
taken_or_unchanged run call = elim (Bool-cases (step run call).0) [
  | inl taken ↦ inl taken
  | inr turned_down ↦ inr (refused run call turned_down)
]

-- After any sequence of fewer than 2^64 calls on a new orchestrator, the number of runs started is the
-- number of calls that took an active run to an outcome, and one more if a run is active; an outcome
-- is accepted exactly if a run is active; and a further call is accepted or leaves everything as it
-- was.
pub runs-settle :
    (calls : List Call) (outcome : RunOutcome) (call : Call)
    → length calls < 2 ^ 64
    → ((after_all new calls).started_runs ≡ outcomes new calls + active (after_all new calls))
      × ((step (after_all new calls) (settle outcome)).0 ≡ is_active (after_all new calls).state)
      × (((step (after_all new calls) call).0 ≡ true)
          ⊎ ((step (after_all new calls) call).1 ≡ after_all new calls))
unfolding new
runs-settle calls outcome call h =
    let balance = after_all-Balanced new calls (omega (arith, h)) in
    (
      omega (arith, balance),
      settles (after_all new calls) outcome,
      taken_or_unchanged (after_all new calls) call,
    )
