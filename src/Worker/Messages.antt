-- ===== src/Worker/Messages.antt =====
-- crates/roadsim-worker-protocol/src/lib.rs: the messages of the control pipe.
use road_sim.Prelude.{ℕ, List, Option}
use road_sim.Worker.Token.{AuthToken}
use road_sim.Worker.Config.{EngineIdentity, WorkerSessionConfig}
use road_sim.Worker.Data.{WorkerDiagnosticCode, worker_protocol_version}

pub data RequestPayload : Type 0 where
  handshake : AuthToken → List (List ℕ) → Option EngineIdentity → RequestPayload
  ping : RequestPayload
  open_session : WorkerSessionConfig → RequestPayload
  step_session : ℕ → RequestPayload
  close_session cancel_session shutdown : RequestPayload

pub record RequestEnvelope : Type 0 where
  pub protocol_version : ℕ
  pub request_id : ℕ
  pub session_id : Option ℕ
  pub sequence : ℕ
  pub payload : RequestPayload

pub data ResponsePayload : Type 0 where
  handshake_accepted : List ℕ → List ℕ → EngineIdentity → List (List ℕ) → ResponsePayload
  pong session_opened : ResponsePayload
  session_stepped : ℕ → ResponsePayload
  session_closed session_cancelled shutdown_acknowledged : ResponsePayload
  error : WorkerDiagnosticCode → List (List ℕ) → ResponsePayload

pub record ResponseEnvelope : Type 0 where
  pub protocol_version : ℕ
  pub request_id : ℕ
  pub session_id : Option ℕ
  pub sequence : ℕ
  pub payload : ResponsePayload

-- `ResponseEnvelope::new`
unfoldable pub new_response : RequestEnvelope → ResponsePayload → ResponseEnvelope
new_response request payload = record {
  protocol_version = worker_protocol_version;
  request_id = request.request_id;
  session_id = request.session_id;
  sequence = request.sequence;
  payload = payload;
}
