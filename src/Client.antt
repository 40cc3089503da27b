-- ===== src/Client.antt =====
-- crates/roadsim-worker-client/src/lib.rs: the client of a worker process, as the calls on its control
-- pipe change it. What the process does is the argument `Peer`.
pub mod Session
pub mod InStep
pub mod Correlated
pub mod Tests
use road_sim.Prelude.{
  ||-false, &&-true, subst₂, ltb, leb, ◌==◌, if◌then◌else◌, ltb→lt, lt→ltb, ==_iff, ==-refl,
  <→==-false, Bool-cases, Option-cases, length, length-append, is_empty, any, all, first_adjacent,
  any_adjacent, contains, first_repeated, or_else, is_some, Result, ok, err, reject_if, reject_some,
  ok_or, map_err, ◌>>=◌, ◌>>◌, for_each, Result-cases, >>=-eq-ok, >>-eq-ok, map_err-eq-ok,
  reject_if-eq-ok, reject_some-eq-ok, ok_eq, ℕ, zero, suc, ◌+◌, ◌-◌, ◌*◌, ◌/◌, ◌%◌, ◌^◌, ◌≤◌, ◌<◌,
  ◌≡◌, refl, sym, ap, ap₂, subst, ◌∙◌, ◌≢◌, ◌↔◌, ◌⊎◌, inl, inr, Bool, true, false, not, ◌&&◌, ◌||◌,
  Option, none, some, List, [], ◌∷◌, ◌++◌, map, Memᴰ, arith, insert_by, sort_by, sort_by_key,
  IsSorted, IsTotal, sort_by-IsSorted, key_le, key_le_total,
}
use road_sim.Worker.Token.{AuthToken}
use road_sim.Worker.Frame.{FrameErrorCode, end_of_stream}
use road_sim.Worker.Data.{WorkerDiagnosticCode}
use road_sim.Worker.Messages.{
  RequestPayload, RequestEnvelope, ResponsePayload, ResponseEnvelope, error,
}

pub data WorkerClientErrorCode : Type 0 where
  spawn_failed missing_pipe frame_write_failed frame_read_failed timeout : WorkerClientErrorCode
  worker_exited correlation_mismatch invalid_capability_manifest : WorkerClientErrorCode
  engine_identity_mismatch invalid_session_config invalid_step_count : WorkerClientErrorCode
  worker_rejected unexpected_response : WorkerClientErrorCode

pub record WorkerClientError : Type 0 where
  pub code : WorkerClientErrorCode
  pub worker_diagnostic : Option WorkerDiagnosticCode
  pub unsupported_capabilities : List (List ℕ)

abbrev pub client_error : WorkerClientErrorCode → WorkerClientError
client_error code = record { code = code; worker_diagnostic = none; unsupported_capabilities = [] }

abbrev pub rejected : WorkerDiagnosticCode → List (List ℕ) → WorkerClientError
rejected code unsupported = record {
  code = worker_rejected;
  worker_diagnostic = some code;
  unsupported_capabilities = unsupported;
}

-- Whether the writer is open, the data reader is told to stop, and the process is stopped.
pub record WorkerClient : Type 0 where
  pub auth_token : AuthToken
  pub protocol_version : ℕ
  pub next_request_id : ℕ
  pub next_sequence : ℕ
  pub writer_open : Bool
  pub data_stop : Bool
  pub stopped : Bool

-- The client that `WorkerClient::spawn` ends with.
unfoldable pub spawned : AuthToken → ℕ → WorkerClient
spawned auth_token protocol_version = record {
  auth_token = auth_token;
  protocol_version = protocol_version;
  next_request_id = 1;
  next_sequence = 1;
  writer_open = true;
  data_stop = false;
  stopped = false;
}

-- What `responses.recv_timeout` gives.
pub data Received : Type 0 where
  arrived : ResponseEnvelope → Received
  read_failed : FrameErrorCode → Received
  timed_out disconnected : Received

-- The process during one call: whether it takes a request, what comes back, and whether it exits in
-- the time that a shutdown gives it.
pub record Peer : Type 0 where
  pub takes : RequestEnvelope → Bool
  pub reply : RequestEnvelope → Received
  pub exits : Bool

-- What a call returns, and the client after it.
pub record Answer (A : Type 0) : Type 0 where
  pub result : Result A WorkerClientError
  pub after : WorkerClient

abbrev pub answer : {A : Type 0} → Result A WorkerClientError → WorkerClient → Answer A
answer result after = record { result = result; after = after }

abbrev pub fails : {A : Type 0} → WorkerClientErrorCode → WorkerClient → Answer A
fails code after = answer (err (client_error code)) after

-- The process with its reader threads is gone after it.
unfoldable pub stop_process : WorkerClient → WorkerClient
stop_process client = record client { writer_open = false; data_stop = true; stopped = true }

unfoldable pub unexpected : {A : Type 0} → WorkerClient → Answer A
unfolding stop_process
unexpected client = fails unexpected_response (stop_process client)

-- `u64::saturating_add(1)`
abbrev pub saturating_next : ℕ → ℕ
saturating_next n = if leb (2 ^ 64 - 1) n then 2 ^ 64 - 1 else suc n

-- The envelope of the next request, and the client that counted it.
abbrev pub envelope : WorkerClient → Option ℕ → RequestPayload → RequestEnvelope
envelope client session_id payload = record {
  protocol_version = client.protocol_version;
  request_id = client.next_request_id;
  session_id = session_id;
  sequence = client.next_sequence;
  payload = payload;
}

unfoldable pub counted : WorkerClient → WorkerClient
counted client = record client {
  next_request_id = saturating_next client.next_request_id;
  next_sequence = saturating_next client.next_sequence;
}

abbrev pub session_eq : Option ℕ → Option ℕ → Bool
session_eq none none = true
session_eq (some a) (some b) = a == b
session_eq a b = false

unfoldable pub correlates : RequestEnvelope → ResponseEnvelope → Bool
correlates request response =
    (response.request_id == request.request_id)
    && (session_eq response.session_id request.session_id
        && (response.sequence == request.sequence))

-- The error that a rejection is passed on as.
abbrev pub rejection : ResponsePayload → Option WorkerClientError
rejection (error code unsupported) = some (rejected code unsupported)
rejection payload = none

-- A rejection is passed on; anything else must have the version of the client.
unfoldable pub judge :
    WorkerClient → ResponseEnvelope → Option WorkerClientError → Answer ResponsePayload
unfolding stop_process
judge client response (some e) = answer (err e) client
judge client response none =
    if not (response.protocol_version == client.protocol_version)
    then fails correlation_mismatch (stop_process client)
    else answer (ok response.payload) client

abbrev pub read_error : FrameErrorCode → WorkerClientErrorCode
read_error end_of_stream = worker_exited
read_error code = frame_read_failed

unfoldable pub receive : WorkerClient → RequestEnvelope → Received → Answer ResponsePayload
unfolding stop_process correlates judge
receive client request (arrived response) =
    if not (correlates request response)
    then fails correlation_mismatch (stop_process client)
    else judge client response (rejection response.payload)
receive client request (read_failed code) = fails (read_error code) (stop_process client)
receive client request timed_out = fails timeout (stop_process client)
receive client request disconnected = fails worker_exited (stop_process client)

-- `WorkerClient::request`
unfoldable pub request : Peer → WorkerClient → Option ℕ → RequestPayload → Answer ResponsePayload
unfolding stop_process counted receive
request peer client session_id payload =
    let wanted = envelope client session_id payload in
    if client.stopped
    then fails worker_exited client
    else if not client.writer_open
    then fails worker_exited (counted client)
    else if not (peer.takes wanted)
    then fails frame_write_failed (stop_process (counted client))
    else receive (counted client) wanted (peer.reply wanted)
