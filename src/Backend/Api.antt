-- ===== src/Backend/Api.antt =====
-- crates/roadsim-backend-api/src/lib.rs: what the application and a backend exchange. A digest is
-- the number that its bytes spell.
use road_sim.Prelude.{
  ℕ, Bool, true, false, not, ◌&&◌, ◌||◌, List, [], Result, ok, err, ltb, leb, ◌==◌, if◌then◌else◌,
}

-- `BackendId`: the bytes of its text as a number.
abbrev pub BackendId : Type 0
BackendId = ℕ

abbrev pub backend_api_version : ℕ
backend_api_version = 2

pub data CapabilityId : Type 0 where
  road_vehicles_basic : CapabilityId
  transit_bus_lanes : CapabilityId
  bicycle_lanes : CapabilityId
  parking_lanes : CapabilityId
  pedestrian_walking_areas_basic : CapabilityId
  signals_fixed_time : CapabilityId

-- The order of the variants, which is the derived one.
abbrev pub capability_rank : CapabilityId → ℕ
capability_rank CapabilityId.road_vehicles_basic = 0
capability_rank CapabilityId.transit_bus_lanes = 1
capability_rank CapabilityId.bicycle_lanes = 2
capability_rank CapabilityId.parking_lanes = 3
capability_rank CapabilityId.pedestrian_walking_areas_basic = 4
capability_rank CapabilityId.signals_fixed_time = 5

pub record BackendHello : Type 0 where
  pub backend_id : BackendId
  pub api_version : ℕ
  pub capabilities : List CapabilityId
  pub deterministic : Bool

pub data BackendErrorPhase : Type 0 where
  handshake : BackendErrorPhase
  compile : BackendErrorPhase
  runtime : BackendErrorPhase
  unsupported : BackendErrorPhase

pub data BackendErrorCode : Type 0 where
  protocol_mismatch : BackendErrorCode
  unsupported_capabilities : BackendErrorCode
  empty_network : BackendErrorCode
  invalid_scenario : BackendErrorCode
  artifact_backend_mismatch : BackendErrorCode
  artifact_not_found : BackendErrorCode
  invalid_run_config : BackendErrorCode
  invalid_agent_state : BackendErrorCode
  invalid_lifecycle : BackendErrorCode
  idempotency_conflict : BackendErrorCode
  terminal_session : BackendErrorCode
  internal_state : BackendErrorCode

pub record BackendError : Type 0 where
  pub phase : BackendErrorPhase
  pub code : BackendErrorCode
  pub unsupported_capabilities : List CapabilityId

abbrev pub backend_error : BackendErrorPhase → BackendErrorCode → BackendError
backend_error phase code = record { phase = phase; code = code; unsupported_capabilities = [] }

pub record ScenarioSnapshot : Type 0 where
  pub content_hash : ℕ
  pub agent_count : ℕ

unfoldable pub new_scenario : ℕ → ℕ → Result ScenarioSnapshot BackendError
new_scenario content_hash agent_count =
    if not (leb 1 agent_count && leb agent_count 10000)
    then err (backend_error BackendErrorPhase.compile BackendErrorCode.invalid_scenario)
    else ok (record { content_hash = content_hash; agent_count = agent_count })

pub record BackendArtifact : Type 0 where
  pub backend_id : BackendId
  pub network_hash : ℕ
  pub scenario_hash : ℕ

-- `seed_algorithm` has one value and is left out.
pub record RunConfig : Type 0 where
  pub scenario_hash : ℕ
  pub duration_ticks : ℕ
  pub step_ticks : ℕ
  pub root_seed : ℕ

unfoldable pub new_run : ℕ → ℕ → ℕ → ℕ → Result RunConfig BackendError
new_run scenario_hash duration_ticks step_ticks root_seed =
    if duration_ticks == 0 || step_ticks == 0 || ltb duration_ticks step_ticks
    then err (backend_error BackendErrorPhase.compile BackendErrorCode.invalid_run_config)
    else ok (record {
      scenario_hash = scenario_hash;
      duration_ticks = duration_ticks;
      step_ticks = step_ticks;
      root_seed = root_seed;
    })

pub data SessionState : Type 0 where
  running : SessionState
  paused : SessionState
  completed : SessionState
  cancelled : SessionState
  failed : SessionState

abbrev pub is_terminal : SessionState → Bool
is_terminal SessionState.running = false
is_terminal SessionState.paused = false
is_terminal SessionState.completed = true
is_terminal SessionState.cancelled = true
is_terminal SessionState.failed = true

pub data ControlKind : Type 0 where
  pause : ControlKind
  resume : ControlKind

abbrev pub kind_eq : ControlKind → ControlKind → Bool
kind_eq ControlKind.pause ControlKind.pause = true
kind_eq ControlKind.resume ControlKind.resume = true
kind_eq ControlKind.pause ControlKind.resume = false
kind_eq ControlKind.resume ControlKind.pause = false

pub record ControlCommand : Type 0 where
  pub sequence : ℕ
  pub idempotency_key : ℕ
  pub kind : ControlKind

pub record Ack : Type 0 where
  pub sequence : ℕ
  pub duplicate : Bool

pub record RunSummary : Type 0 where
  pub terminal_state : SessionState
  pub final_tick : ℕ
  pub emitted_frames : ℕ

pub data BackendEvent (Frame : Type 0) : Type 0 where
  state_changed : SessionState → BackendEvent Frame
  frame : Frame → BackendEvent Frame
  completed : RunSummary → BackendEvent Frame
