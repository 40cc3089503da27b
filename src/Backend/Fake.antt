-- ===== src/Backend/Fake.antt =====
-- crates/roadsim-backend-fake/src/lib.rs: the in-memory backend and its sessions.
-- `FakeSession::frame` places the agents by floating-point arithmetic; it reads the tick and what
-- does not change during a session, and is an argument of the code that calls it.
pub mod Controls
pub mod Repeats
pub mod Run
pub mod Completion
pub mod Store
pub mod Start
use road_sim.Prelude.{
  ℕ, ◌+◌, ◌%◌, ◌^◌, ◌-◌, min, Bool, true, false, not, ◌&&◌, List, [], ◌∷◌, Option, none, some,
  Result, ok, err, length, ltb, leb, ◌==◌, if◌then◌else◌, any, is_empty,
}
use road_sim.Backend.Api.{
  BackendId, backend_api_version, CapabilityId, capability_rank, BackendHello, BackendErrorPhase,
  BackendErrorCode, BackendError, backend_error, ScenarioSnapshot, BackendArtifact, RunConfig,
  SessionState, is_terminal, ControlKind, kind_eq, ControlCommand, Ack, RunSummary, BackendEvent,
}

abbrev pub max_remembered_control_keys : ℕ
max_remembered_control_keys = 64

-- `u64::MAX`
abbrev pub max_tick : ℕ
max_tick = 2 ^ 64 - 1

-- What the backend reads of a `CompiledNetwork`.
pub record CompiledNetwork : Type 0 where
  pub lane_count : ℕ
  pub requirements : List CapabilityId
  pub content_hash : ℕ

pub record StoredArtifact : Type 0 where
  pub network : CompiledNetwork
  pub scenario : ScenarioSnapshot

-- A map from control keys, as its entries in the order of the keys.
abbrev pub Remembered : Type 0
Remembered = List (ℕ × ControlKind)

-- `BTreeMap::get`
abbrev pub get : Remembered → ℕ → Option ControlKind
get [] key = none
get ((k, kind) ∷ entries) key = if k == key then some kind else get entries key

-- `BTreeMap::pop_first`
abbrev pub pop_first : Remembered → Remembered
pop_first [] = []
pop_first (entry ∷ entries) = entries

-- `BTreeMap::insert`
abbrev pub insert : ℕ → ControlKind → Remembered → Remembered
insert key kind [] = (key, kind) ∷ []
insert key kind ((k, old) ∷ entries) =
    let rest = insert key kind entries in
    if ltb key k
    then (key, kind) ∷ (k, old) ∷ entries
    else if k == key
    then (key, kind) ∷ entries
    else (k, old) ∷ rest

pub record FakeSession : Type 0 where
  pub artifact : StoredArtifact
  pub run : RunConfig
  pub state : SessionState
  pub next_tick : ℕ
  pub emitted_frames : ℕ
  pub pending_state_event : Bool
  pub idempotency : Remembered

unfoldable pub new : StoredArtifact → RunConfig → FakeSession
new artifact run = record {
  artifact = artifact;
  run = run;
  state = SessionState.running;
  next_tick = 0;
  emitted_frames = 0;
  pending_state_event = true;
  idempotency = [];
}

abbrev pub terminal_error : BackendError
terminal_error = backend_error BackendErrorPhase.runtime BackendErrorCode.terminal_session

abbrev pub lifecycle_error : BackendError
lifecycle_error = backend_error BackendErrorPhase.runtime BackendErrorCode.invalid_lifecycle

abbrev pub conflict_error : BackendError
conflict_error = backend_error BackendErrorPhase.runtime BackendErrorCode.idempotency_conflict

-- The `match` on the state and the kind of the command.
abbrev pub next_state : SessionState → ControlKind → Option SessionState
next_state SessionState.running ControlKind.pause = some SessionState.paused
next_state SessionState.running ControlKind.resume = none
next_state SessionState.paused ControlKind.resume = some SessionState.running
next_state SessionState.paused ControlKind.pause = none
next_state SessionState.completed kind = none
next_state SessionState.cancelled kind = none
next_state SessionState.failed kind = none

abbrev pub Controlled : Type 0
Controlled = Result Ack BackendError × FakeSession

unfoldable pub remember : Remembered → ControlCommand → Remembered
remember entries command =
    insert command.idempotency_key command.kind
      (if leb max_remembered_control_keys (length entries) then pop_first entries else entries)

-- A command whose key is not remembered.
unfoldable pub control_new : FakeSession → ControlCommand → Option SessionState → Controlled
unfolding remember
control_new s command none = (err lifecycle_error, s)
control_new s command (some state) = (
  ok (record { sequence = command.sequence; duplicate = false }),
  record s {
    state = state;
    idempotency = remember s.idempotency command;
    pending_state_event = true;
  },
)

unfoldable pub control_known : FakeSession → ControlCommand → Option ControlKind → Controlled
unfolding control_new
control_known s command (some previous) = (
  if kind_eq previous command.kind
      then ok (record { sequence = command.sequence; duplicate = true })
      else err conflict_error,
  s,
)
control_known s command none = control_new s command (next_state s.state command.kind)

unfoldable pub control : FakeSession → ControlCommand → Controlled
unfolding control_known
control s command =
    if is_terminal s.state
    then (err terminal_error, s)
    else control_known s command (get s.idempotency command.idempotency_key)

-- `checked_add(step).unwrap_or(u64::MAX).min(duration)`
unfoldable pub advance_tick : ℕ → RunConfig → ℕ
advance_tick tick run =
    min (if leb (tick + run.step_ticks) max_tick then tick + run.step_ticks else max_tick)
      run.duration_ticks

abbrev pub is_paused : SessionState → Bool
is_paused SessionState.paused = true
is_paused SessionState.running = false
is_paused SessionState.completed = false
is_paused SessionState.cancelled = false
is_paused SessionState.failed = false

module _ {Frame : Type 0} where
  abbrev pub framed : Result Frame BackendError → Result (BackendEvent Frame) BackendError
  framed (ok f) = ok (BackendEvent.frame f)
  framed (err e) = err e

  -- The end of `next_event`: the end of the run, or a frame.
  unfoldable pub next_frame :
      (ℕ → Result Frame BackendError)
      → FakeSession
      → Result (BackendEvent Frame) BackendError × FakeSession
  unfolding advance_tick
  next_frame frame s =
      if leb s.run.duration_ticks s.next_tick
      then (
        ok (
            BackendEvent.completed (record {
              terminal_state = SessionState.completed;
              final_tick = s.run.duration_ticks;
              emitted_frames = s.emitted_frames;
            })),
        record s { state = SessionState.completed },
      )
      else (
        framed (frame s.next_tick),
        record s {
          next_tick = advance_tick s.next_tick s.run;
          emitted_frames = (s.emitted_frames + 1) % 2 ^ 64;
        },
      )

  unfoldable pub next_event :
      (ℕ → Result Frame BackendError)
      → FakeSession
      → Result (BackendEvent Frame) BackendError × FakeSession
  unfolding next_frame
  next_event frame s =
      if is_terminal s.state
      then (err terminal_error, s)
      else if s.pending_state_event
      then (ok (BackendEvent.state_changed s.state), record s { pending_state_event = false })
      else if is_paused s.state
      then (err lifecycle_error, s)
      else next_frame frame s

unfoldable pub cancel : FakeSession → Result RunSummary BackendError × FakeSession
cancel s = if is_terminal s.state then (err terminal_error, s) else (
  ok (record {
    terminal_state = SessionState.cancelled;
    final_tick = min s.next_tick s.run.duration_ticks;
    emitted_frames = s.emitted_frames;
  }),
  record s { state = SessionState.cancelled },
)
