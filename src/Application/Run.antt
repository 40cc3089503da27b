-- ===== src/Application/Run.antt =====
-- crates/roadsim-application/src/lib.rs: the state machine of one run.
pub mod Outcomes
use road_sim.Prelude.{
  ||-false, &&-true, subst₂, ltb, leb, ◌==◌, if◌then◌else◌, ltb→lt, lt→ltb, ==_iff, ==-refl,
  <→==-false, Bool-cases, Option-cases, length, length-append, is_empty, any, all, first_adjacent,
  any_adjacent, contains, first_repeated, or_else, is_some, Result, ok, err, reject_if, reject_some,
  ok_or, map_err, ◌>>=◌, ◌>>◌, for_each, Result-cases, >>=-eq-ok, >>-eq-ok, map_err-eq-ok,
  reject_if-eq-ok, reject_some-eq-ok, ok_eq, ℕ, zero, suc, ◌+◌, ◌-◌, ◌*◌, ◌/◌, ◌%◌, ◌^◌, ◌≤◌, ◌<◌,
  ◌≡◌, refl, sym, ap, ap₂, subst, ◌∙◌, ◌≢◌, ◌↔◌, ◌⊎◌, inl, inr, Bool, true, false, not, ◌&&◌, ◌||◌,
  Option, none, some, List, [], ◌∷◌, ◌++◌, map, Memᴰ, arith, insert_by, sort_by, sort_by_key,
  IsSorted, IsTotal, sort_by-IsSorted, key_le, key_le_total,
}
use road_sim.Backend.Api.{SessionState}

pub data RunState : Type 0 where
  idle prepared running paused completed cancelled failed : RunState

abbrev pub is_terminal : RunState → Bool
is_terminal completed = true
is_terminal cancelled = true
is_terminal failed = true
is_terminal state = false

-- `matches!(self.state, RunState::Running | RunState::Paused)`
abbrev pub is_active : RunState → Bool
is_active running = true
is_active paused = true
is_active state = false

pub data RunRequest : Type 0 where
  prepare start pause resume cancel reset : RunRequest

pub data RunIntent : Type 0 where
  compile start_session pause_session resume_session cancel_session release_session : RunIntent

pub data RunErrorCode : Type 0 where
  invalid_transition no_active_run : RunErrorCode

pub record RunError : Type 0 where
  pub code : RunErrorCode
  pub state : RunState
  pub request : Option RunRequest

pub data RunOutcome : Type 0 where
  completed cancelled failed : RunOutcome

pub record RunOrchestrator : Type 0 where
  pub state : RunState
  pub tick : ℕ
  pub started_runs : ℕ

unfoldable pub new : RunOrchestrator
new = record { state = RunState.idle; tick = 0; started_runs = 0 }

unfoldable pub intent_for : RunState → RunRequest → Option RunIntent
intent_for RunState.idle prepare = some compile
intent_for RunState.prepared start = some start_session
intent_for RunState.running pause = some pause_session
intent_for RunState.paused resume = some resume_session
intent_for RunState.running cancel = some cancel_session
intent_for RunState.paused cancel = some cancel_session
intent_for RunState.completed reset = some release_session
intent_for RunState.cancelled reset = some release_session
intent_for RunState.failed reset = some release_session
intent_for state request = none

unfoldable pub accepts : RunOrchestrator → RunRequest → Bool
unfolding intent_for
accepts run request = is_some (intent_for run.state request)

-- `u64::saturating_add(1)`
abbrev pub saturating_next : ℕ → ℕ
saturating_next n = if leb (2 ^ 64 - 1) n then 2 ^ 64 - 1 else suc n

-- The state after an accepted request.
unfoldable pub follow : RunOrchestrator → RunRequest → RunOrchestrator
follow run prepare = record run { state = RunState.prepared }
follow run start = record {
  state = RunState.running;
  tick = 0;
  started_runs = saturating_next run.started_runs;
}
follow run pause = record run { state = RunState.paused }
follow run resume = record run { state = RunState.running }
follow run cancel = run
follow run reset = record run { state = RunState.prepared }

-- What a call returns, and the run after it.
pub record Answer (A : Type 0) : Type 0 where
  pub result : Result A RunError
  pub after : RunOrchestrator

abbrev pub answer : {A : Type 0} → Result A RunError → RunOrchestrator → Answer A
answer result after = record { result = result; after = after }

abbrev pub no_run : RunOrchestrator → RunError
no_run run = record { code = no_active_run; state = run.state; request = none }

-- `RunOrchestrator::request`
unfoldable pub request : RunOrchestrator → RunRequest → Answer RunIntent
unfolding intent_for follow
request run wanted = elim (intent_for run.state wanted) [
  | none ↦
      answer (err (record { code = invalid_transition; state = run.state; request = some wanted }))
        run
  | some intent ↦ answer (ok intent) (follow run wanted)
]

-- `RunOrchestrator::observe_tick`
unfoldable pub observe_tick : RunOrchestrator → ℕ → Answer (Unit {0})
observe_tick run tick =
    if not (is_active run.state)
    then answer (err (no_run run)) run
    else answer (ok tt) (record run { tick = tick })

abbrev pub state_of : RunOutcome → RunState
state_of RunOutcome.completed = RunState.completed
state_of RunOutcome.cancelled = RunState.cancelled
state_of RunOutcome.failed = RunState.failed

-- `RunOrchestrator::finish`
unfoldable pub finish : RunOrchestrator → RunOutcome → Answer (Unit {0})
finish run outcome =
    if not (is_active run.state)
    then answer (err (no_run run)) run
    else answer (ok tt) (record run { state = state_of outcome })

-- A backend that reports that it runs or is paused.
unfoldable pub observe_active : RunOrchestrator → RunState → Answer (Unit {0})
observe_active run state =
    if not (is_active run.state)
    then answer (err (no_run run)) run
    else answer (ok tt) (record run { state = state })

-- `RunOrchestrator::observe_session_state`
unfoldable pub observe_session_state : RunOrchestrator → SessionState → Answer (Unit {0})
unfolding finish observe_active
observe_session_state run SessionState.running = observe_active run RunState.running
observe_session_state run SessionState.paused = observe_active run RunState.paused
observe_session_state run SessionState.completed = finish run RunOutcome.completed
observe_session_state run SessionState.cancelled = finish run RunOutcome.cancelled
observe_session_state run SessionState.failed = finish run RunOutcome.failed
