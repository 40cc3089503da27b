-- ===== src/Client/Session.antt =====
-- crates/roadsim-worker-client/src/lib.rs: the calls of a client, each one request and the check of
-- what comes back.
use road_sim.Prelude.{
  ltb, leb, ◌==◌, if◌then◌else◌, length, is_empty, any, all, Result, ok, err, ℕ, Bool, true, false,
  not, ◌&&◌, ◌||◌, Option, none, some, List, [], ◌∷◌,
}
use road_sim.Worker.Config.{
  EngineIdentity, identity_is_valid, capabilities_are_valid, worker_version_is_valid,
  WorkerSessionConfig, config_is_valid,
}
use road_sim.Worker.Messages.{
  ResponsePayload, handshake, ping, open_session, step_session, close_session, cancel_session,
  shutdown, handshake_accepted, pong, session_opened, session_stepped, session_closed,
  session_cancelled, shutdown_acknowledged,
}
use road_sim.Client.{
  WorkerClient, WorkerClientError, Peer, Answer, answer, fails, stop_process, unexpected, request,
  timeout, invalid_capability_manifest, engine_identity_mismatch, invalid_session_config,
  invalid_step_count,
}

abbrev pub max_steps_per_request : ℕ
max_steps_per_request = 1000000

-- `?`
abbrev pub attempt :
    {A B : Type 0}
    → WorkerClient
    → Result A WorkerClientError
    → (WorkerClient → A → Answer B)
    → Answer B
attempt client (err e) next = answer (err e) client
attempt client (ok a) next = next client a

abbrev pub and_then : {A B : Type 0} → Answer A → (WorkerClient → A → Answer B) → Answer B
and_then got next = attempt got.after got.result next

-- The `match` on the payload of an answer, after `?`; the payloads that it does not take are
-- unexpected.
unfoldable pub take : {A : Type 0} → WorkerClient → Option A → Answer A
unfolding unexpected
take client none = unexpected client
take client (some a) = answer (ok a) client

unfoldable pub expect :
    {A : Type 0} → (ResponsePayload → Option A) → Answer ResponsePayload → Answer A
unfolding take
expect wanted got = and_then got (λ client payload. take client (wanted payload))

abbrev pub is_pong : ResponsePayload → Option (Unit {0})
is_pong pong = some tt
is_pong payload = none

abbrev pub is_opened : ResponsePayload → Option (Unit {0})
is_opened session_opened = some tt
is_opened payload = none

abbrev pub is_stepped : ResponsePayload → Option ℕ
is_stepped (session_stepped tick) = some tick
is_stepped payload = none

abbrev pub is_closed : ResponsePayload → Option (Unit {0})
is_closed session_closed = some tt
is_closed payload = none

abbrev pub is_cancelled : ResponsePayload → Option (Unit {0})
is_cancelled session_cancelled = some tt
is_cancelled payload = none

abbrev pub is_acknowledged : ResponsePayload → Option (Unit {0})
is_acknowledged shutdown_acknowledged = some tt
is_acknowledged payload = none

pub record WorkerHello : Type 0 where
  pub worker_name : List ℕ
  pub worker_version : List ℕ
  pub engine : EngineIdentity
  pub capabilities : List (List ℕ)

-- `==` of two texts
abbrev pub text_eq : List ℕ → List ℕ → Bool
text_eq [] [] = true
text_eq (a ∷ left) (b ∷ right) = (a == b) && text_eq left right
text_eq left right = false

abbrev pub identity_eq : EngineIdentity → EngineIdentity → Bool
identity_eq a b =
    text_eq a.name b.name
    && (text_eq a.version b.version && text_eq a.build_revision b.build_revision)

unfoldable pub hello_is_valid : List (List ℕ) → WorkerHello → Bool
hello_is_valid expected hello =
    not (is_empty hello.worker_name)
    && (leb (length hello.worker_name) 128
        && (worker_version_is_valid hello.worker_version
            && (identity_is_valid hello.engine
                && (capabilities_are_valid hello.capabilities
                    && all (λ wanted. any (text_eq wanted) hello.capabilities) expected))))

unfoldable pub hello_of : List (List ℕ) → ResponsePayload → Option WorkerHello
unfolding hello_is_valid
hello_of expected (handshake_accepted name version engine capabilities) =
    let hello : WorkerHello = record {
      worker_name = name;
      worker_version = version;
      engine = engine;
      capabilities = capabilities;
    } in
    if hello_is_valid expected hello then some hello else none
hello_of expected payload = none

-- `is_some_and(|expected| …)`
abbrev pub some_and : {A : Type 0} → (A → Bool) → Option A → Bool
some_and test none = false
some_and test (some a) = test a

unfoldable pub check_engine :
    Option EngineIdentity → WorkerClient → WorkerHello → Answer WorkerHello
unfolding stop_process
check_engine expected client hello =
    if some_and (λ engine. not (identity_eq engine hello.engine)) expected
    then fails engine_identity_mismatch (stop_process client)
    else answer (ok hello) client

-- `WorkerClient::handshake_inner`
unfoldable pub handshake_inner :
    Peer → WorkerClient → List (List ℕ) → Option EngineIdentity → Answer WorkerHello
unfolding request expect hello_of check_engine
handshake_inner peer client required engine =
    if not (capabilities_are_valid required)
    then fails invalid_capability_manifest client
    else if some_and (λ identity. not (identity_is_valid identity)) engine
    then fails engine_identity_mismatch client
    else and_then
        (expect (hello_of required)
          (request peer client none (handshake client.auth_token required engine)))
        (check_engine engine)

unfoldable pub call_ping : Peer → WorkerClient → Answer (Unit {0})
unfolding request expect
call_ping peer client = expect is_pong (request peer client none ping)

unfoldable pub call_open : Peer → WorkerClient → ℕ → WorkerSessionConfig → Answer (Unit {0})
unfolding request expect
call_open peer client session_id config =
    if not (config_is_valid config)
    then fails invalid_session_config client
    else expect is_opened (request peer client (some session_id) (open_session config))

unfoldable pub call_step : Peer → WorkerClient → ℕ → ℕ → Answer ℕ
unfolding request expect
call_step peer client session_id steps =
    if (steps == 0) || ltb max_steps_per_request steps
    then fails invalid_step_count client
    else expect is_stepped (request peer client (some session_id) (step_session steps))

unfoldable pub call_close : Peer → WorkerClient → ℕ → Answer (Unit {0})
unfolding request expect
call_close peer client session_id =
    expect is_closed (request peer client (some session_id) close_session)

unfoldable pub call_cancel : Peer → WorkerClient → ℕ → Answer (Unit {0})
unfolding request expect
call_cancel peer client session_id =
    expect is_cancelled (request peer client (some session_id) cancel_session)

unfoldable pub finish : Peer → WorkerClient → Unit {0} → Answer (Unit {0})
unfolding stop_process
finish peer client done =
    let closed : WorkerClient = record client { writer_open = false } in
    if not peer.exits
    then fails timeout (stop_process closed)
    else answer (ok tt) (record closed { data_stop = true; stopped = true })

unfoldable pub call_shutdown : Peer → WorkerClient → Answer (Unit {0})
unfolding request expect finish
call_shutdown peer client =
    and_then (expect is_acknowledged (request peer client none shutdown)) (finish peer)
