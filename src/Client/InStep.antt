-- ===== src/Client/InStep.antt =====
-- crates/roadsim-worker-client/src/lib.rs: the counters and flags of a client over any calls.
use road_sim.Prelude.{
  ltb, ◌==◌, if◌then◌else◌, Result, ok, err, ℕ, ◌≡◌, refl, ap, Bool, true, false, not, ◌||◌, Option,
  none, some, List, [], ◌∷◌,
}
use road_sim.Worker.Config.{
  EngineIdentity, WorkerSessionConfig, config_is_valid, capabilities_are_valid, identity_is_valid,
}
use road_sim.Worker.Messages.{
  RequestPayload, RequestEnvelope, ResponsePayload, ResponseEnvelope, handshake, ping, open_session,
  step_session, close_session, cancel_session, shutdown,
}
use road_sim.Worker.Token.{AuthToken}
use road_sim.Client.{
  spawned, WorkerClient, WorkerClientError, Peer, Answer, Received, arrived, read_failed, timed_out,
  disconnected, answer, stop_process, unexpected, saturating_next, envelope, counted, correlates,
  judge, rejection, receive, request,
}
use road_sim.Client.Session.{
  WorkerHello, take, some_and, identity_eq, attempt, is_acknowledged, max_steps_per_request, expect,
  hello_of, check_engine, handshake_inner, call_ping, call_open, call_step, call_close, call_cancel,
  finish, call_shutdown,
}

-- The counters agree, and the writer is closed and the data reader told to stop exactly when the
-- client is stopped.
pub record IsInStep (client : WorkerClient) : Type 0 where
  pub counters : client.next_request_id ≡ client.next_sequence
  pub writer : client.writer_open ≡ not client.stopped
  pub reader : client.data_stop ≡ client.stopped

stop_process-IsInStep :
    (client : WorkerClient)
    → client.next_request_id ≡ client.next_sequence
    → IsInStep (stop_process client)
unfolding stop_process
stop_process-IsInStep client h = record { counters = h; writer = refl; reader = refl }

counted-IsInStep : (client : WorkerClient) → IsInStep client → IsInStep (counted client)
unfolding counted
counted-IsInStep client h = record {
  counters = ap saturating_next h.counters;
  writer = h.writer;
  reader = h.reader;
}

stopping : (client : WorkerClient) → IsInStep client → IsInStep (stop_process client)
stopping client h = stop_process-IsInStep client h.counters

after-if :
    {A : Type 0} (test : Bool) (x y : Answer A)
    → IsInStep x.after
    → IsInStep y.after
    → IsInStep (if test then x else y).after
after-if true x y h k = h
after-if false x y h k = k

judge-IsInStep :
    (client : WorkerClient) (response : ResponseEnvelope) (e : Option WorkerClientError)
    → IsInStep client
    → IsInStep (judge client response e).after
unfolding judge
judge-IsInStep client response (some e) h = h
judge-IsInStep client response none h =
    after-if (not (response.protocol_version == client.protocol_version)) _ _ (stopping client h) h

receive-IsInStep :
    (client : WorkerClient) (wanted : RequestEnvelope) (received : Received)
    → IsInStep client
    → IsInStep (receive client wanted received).after
unfolding receive
receive-IsInStep client wanted (arrived response) h =
    after-if (not (correlates wanted response)) _ _ (stopping client h)
      (judge-IsInStep client response (rejection response.payload) h)
receive-IsInStep client wanted (read_failed code) h = stopping client h
receive-IsInStep client wanted timed_out h = stopping client h
receive-IsInStep client wanted disconnected h = stopping client h

request-IsInStep :
    (peer : Peer) (client : WorkerClient) (session_id : Option ℕ) (payload : RequestPayload)
    → IsInStep client
    → IsInStep (request peer client session_id payload).after
unfolding request
request-IsInStep peer client session_id payload h =
    let wanted = envelope client session_id payload in
    let next = counted-IsInStep client h in
    after-if client.stopped _ _ h (
      after-if (not client.writer_open) _ _ next (
        after-if (not (peer.takes wanted)) _ _ (stopping (counted client) next)
          (receive-IsInStep (counted client) wanted (peer.reply wanted) next)))

take-IsInStep :
    {A : Type 0} (client : WorkerClient) (a : Option A)
    → IsInStep client
    → IsInStep (take client a).after
unfolding take unexpected
take-IsInStep client none h = stopping client h
take-IsInStep client (some a) h = h

attempt-IsInStep :
    {A B : Type 0} (client : WorkerClient) (result : Result A WorkerClientError)
    (next : WorkerClient → A → Answer B)
    → IsInStep client
    → ((c : WorkerClient) (a : A) → IsInStep c → IsInStep (next c a).after)
    → IsInStep (attempt client result next).after
attempt-IsInStep client (err e) next h k = h
attempt-IsInStep client (ok a) next h k = k client a h

expect-IsInStep :
    {A : Type 0} (wanted : ResponsePayload → Option A) (got : Answer ResponsePayload)
    → IsInStep got.after
    → IsInStep (expect wanted got).after
unfolding expect
expect-IsInStep wanted got h =
    attempt-IsInStep got.after got.result (λ c p. take c (wanted p)) h
      (λ c p. take-IsInStep c (wanted p))

check_engine-IsInStep :
    (expected : Option EngineIdentity) (client : WorkerClient) (hello : WorkerHello)
    → IsInStep client
    → IsInStep (check_engine expected client hello).after
unfolding check_engine
check_engine-IsInStep expected client hello h =
    after-if (some_and (λ engine. not (identity_eq engine hello.engine)) expected) _ _
      (stopping client h) h

finish-IsInStep :
    (peer : Peer) (client : WorkerClient) (done : Unit {0})
    → IsInStep client
    → IsInStep (finish peer client done).after
unfolding finish
finish-IsInStep peer client done h =
    let closed : WorkerClient = record client { writer_open = false } in
    let ended : WorkerClient = record closed { data_stop = true; stopped = true } in
    after-if (not peer.exits) _ (answer (ok tt) ended) (stop_process-IsInStep closed h.counters)
      (record { counters = h.counters; writer = refl; reader = refl })

-- A call of any kind, with the process as it is during it.
pub data Call : Type 0 where
  shake_hands : Peer → List (List ℕ) → Option EngineIdentity → Call
  pings shuts_down : Peer → Call
  opens : Peer → ℕ → WorkerSessionConfig → Call
  steps : Peer → ℕ → ℕ → Call
  closes cancels : Peer → ℕ → Call

unfoldable pub after_call : WorkerClient → Call → WorkerClient
unfolding handshake_inner call_ping call_shutdown call_open call_step call_close call_cancel
after_call client (shake_hands peer required engine) =
    (handshake_inner peer client required engine).after
after_call client (pings peer) = (call_ping peer client).after
after_call client (shuts_down peer) = (call_shutdown peer client).after
after_call client (opens peer session_id config) = (call_open peer client session_id config).after
after_call client (steps peer session_id n) = (call_step peer client session_id n).after
after_call client (closes peer session_id) = (call_close peer client session_id).after
after_call client (cancels peer session_id) = (call_cancel peer client session_id).after

unfoldable pub after_all : WorkerClient → List Call → WorkerClient
unfolding after_call
after_all client [] = client
after_all client (call ∷ calls) = after_all (after_call client call) calls

asked :
    {A : Type 0} (peer : Peer) (client : WorkerClient) (session_id : Option ℕ)
    (payload : RequestPayload) (wanted : ResponsePayload → Option A)
    → IsInStep client
    → IsInStep (expect wanted (request peer client session_id payload)).after
asked peer client session_id payload wanted h =
    expect-IsInStep wanted (request peer client session_id payload)
      (request-IsInStep peer client session_id payload h)

after_call-IsInStep :
    (client : WorkerClient) (call : Call) → IsInStep client → IsInStep (after_call client call)
unfolding after_call handshake_inner call_ping call_shutdown call_open call_step call_close
    call_cancel
after_call-IsInStep client (shake_hands peer required engine) h =
    let asks = handshake client.auth_token required engine in
    let got = expect (hello_of required) (request peer client none asks) in
    after-if (not (capabilities_are_valid required)) _ _ h (
      after-if (some_and (λ identity. not (identity_is_valid identity)) engine) _ _ h (
        attempt-IsInStep got.after got.result (check_engine engine)
          (asked peer client none asks (hello_of required) h) (check_engine-IsInStep engine)))
after_call-IsInStep client (pings peer) h = asked peer client none ping _ h
after_call-IsInStep client (shuts_down peer) h =
    attempt-IsInStep _ (expect is_acknowledged (request peer client none shutdown)).result
      (finish peer) (asked peer client none shutdown is_acknowledged h) (finish-IsInStep peer)
after_call-IsInStep client (opens peer session_id config) h =
    after-if (not (config_is_valid config)) _ _ h
      (asked peer client (some session_id) (open_session config) _ h)
after_call-IsInStep client (steps peer session_id n) h =
    after-if ((n == 0) || ltb max_steps_per_request n) _ _ h
      (asked peer client (some session_id) (step_session n) _ h)
after_call-IsInStep client (closes peer session_id) h =
    asked peer client (some session_id) close_session _ h
after_call-IsInStep client (cancels peer session_id) h =
    asked peer client (some session_id) cancel_session _ h

after_all-IsInStep :
    (client : WorkerClient) (calls : List Call)
    → IsInStep client
    → IsInStep (after_all client calls)
unfolding after_all
after_all-IsInStep client [] h = h
after_all-IsInStep client (call ∷ calls) h =
    after_all-IsInStep (after_call client call) calls (after_call-IsInStep client call h)

-- After any calls on a spawned client, with any processes, whether the client is stopped by then or
-- not, its two counters agree, and its writer is closed and its data reader told to stop exactly if
-- it is stopped.
pub spawned-IsInStep :
    (auth_token : AuthToken) (version : ℕ) (calls : List Call)
    → IsInStep (after_all (spawned auth_token version) calls)
unfolding spawned
spawned-IsInStep auth_token version calls =
    after_all-IsInStep (spawned auth_token version) calls
      (record { counters = refl; writer = refl; reader = refl })
