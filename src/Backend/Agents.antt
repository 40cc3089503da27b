-- ===== src/Backend/Agents.antt =====
-- crates/roadsim-backend-api/src/lib.rs: the agents of a frame.
use road_sim.Prelude.{if◌then◌else◌, Result, ok, err, ℕ, Bool, not, ◌||◌, Option, List}
use road_sim.Types.Units.{is_finite, is_zero, is_negative}
use road_sim.Backend.Api.{BackendError, BackendErrorPhase, BackendErrorCode, backend_error}

pub record AgentFootprint : Type 0 where
  pub length_m : ℕ
  pub width_m : ℕ

abbrev not_above_zero : ℕ → Bool
not_above_zero value = is_negative value || is_zero value

unfoldable pub footprint_invalid : ℕ → ℕ → Bool
footprint_invalid length_m width_m =
    not (is_finite length_m)
    || (not (is_finite width_m) || (not_above_zero length_m || not_above_zero width_m))

abbrev pub invalid_agent : BackendError
invalid_agent = backend_error BackendErrorPhase.runtime BackendErrorCode.invalid_agent_state

unfoldable pub new_footprint : ℕ → ℕ → Result AgentFootprint BackendError
unfolding footprint_invalid
new_footprint length_m width_m =
    if footprint_invalid length_m width_m
    then err invalid_agent
    else ok (record { length_m = length_m; width_m = width_m })

pub record AgentState : Type 0 where
  pub agent_id : ℕ
  pub lane_id : Option ℕ
  pub x_m : ℕ
  pub y_m : ℕ
  pub heading_rad : ℕ
  pub footprint : AgentFootprint

-- `AgentState::new`
unfoldable pub new_agent : AgentState → Result AgentState BackendError
new_agent agent =
    if not (is_finite agent.x_m) || (not (is_finite agent.y_m) || not (is_finite agent.heading_rad))
    then err invalid_agent
    else ok agent

pub record FrameBatch : Type 0 where
  pub tick : ℕ
  pub agents : List AgentState
