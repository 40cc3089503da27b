-- ===== src/Client/Correlated.antt =====
-- crates/roadsim-worker-client/src/lib.rs: what a request returns is the answer to it.
use road_sim.Prelude.{
  &&-true, ◌==◌, if◌then◌else◌, ok, err, ok_eq, ℕ, ◌≡◌, refl, sym, ◌∙◌, Bool, true, false, not,
  Option, none, some, List, arith,
}
use road_sim.Worker.Token.{AuthToken}
use road_sim.Worker.Messages.{RequestPayload, RequestEnvelope, ResponsePayload, ResponseEnvelope}
use road_sim.Client.{
  WorkerClient, spawned, WorkerClientError, Peer, Answer, answer, Received, arrived, read_failed,
  timed_out, disconnected, envelope, counted, session_eq, correlates, judge, rejection, receive,
  request,
}
use road_sim.Client.InStep.{Call, after_all, spawned-IsInStep}

if-ok :
    {A : Type 0} (test : Bool) (x y : Answer A) (e : WorkerClientError) (a : A)
    → x.result ≡ err e
    → (if test then x else y).result ≡ ok a
    → (test ≡ false) × (y.result ≡ ok a) × ((if test then x else y).after ≡ y.after)
if-ok true x y e a h k = cc
if-ok false x y e a h k = (refl, k, refl)

session_eq_lem : (a b : Option ℕ) → session_eq a b ≡ true → a ≡ b
session_eq_lem none none h = refl
session_eq_lem (some a) (some b) h = ground arith
session_eq_lem none (some b) h = cc
session_eq_lem (some a) none h = cc

-- The reply that a payload was taken from, and the client after it.
record IsReceived (client : WorkerClient) (wanted : RequestEnvelope) (received : Received)
    (payload : ResponsePayload) : Type 0 where
  reply : ResponseEnvelope
  came : received ≡ arrived reply
  same : reply.payload ≡ payload
  id : reply.request_id ≡ wanted.request_id
  session : reply.session_id ≡ wanted.session_id
  order : reply.sequence ≡ wanted.sequence
  version : reply.protocol_version ≡ client.protocol_version
  kept : (receive client wanted received).after ≡ client

judge-ok :
    (client : WorkerClient) (response : ResponseEnvelope) (e : Option WorkerClientError)
    (payload : ResponsePayload)
    → (judge client response e).result ≡ ok payload
    → (response.payload ≡ payload)
      × (response.protocol_version ≡ client.protocol_version)
      × ((judge client response e).after ≡ client)
unfolding judge
judge-ok client response (some e) payload h = cc
judge-ok client response none payload h =
    let stale = not (response.protocol_version == client.protocol_version) in
    let kept : Answer ResponsePayload = answer (ok response.payload) client in
    let (current, same, left) = if-ok stale _ kept _ payload refl h in
    (ok_eq same, ground arith, left)

receive-ok :
    (client : WorkerClient) (wanted : RequestEnvelope) (received : Received)
    (payload : ResponsePayload)
    → (receive client wanted received).result ≡ ok payload
    → IsReceived client wanted received payload
unfolding receive correlates
receive-ok client wanted (arrived response) payload h =
    let judged = judge client response (rejection response.payload) in
    let (related, result, left) =
      if-ok (not (correlates wanted response)) _ judged _ payload refl h in
    let (same, version, kept) =
      judge-ok client response (rejection response.payload) payload result in
    let all_same : correlates wanted response ≡ true = ground arith in
    let (id, rest) = &&-true (response.request_id == wanted.request_id) _ all_same in
    let (session, order) = &&-true (session_eq response.session_id wanted.session_id) _ rest in
    record {
      reply = response;
      came = refl;
      same = same;
      id = ground arith;
      session = session_eq_lem response.session_id wanted.session_id session;
      order = ground arith;
      version = version;
      kept = left ∙ kept;
    }
receive-ok client wanted (read_failed code) payload h = cc
receive-ok client wanted timed_out payload h = cc
receive-ok client wanted disconnected payload h = cc

-- The process sent an envelope with this payload, for the identifier, the session and the sequence of
-- the request, in the version of the client; the client was live, and only counted the request.
pub record IsAnswered (peer : Peer) (client : WorkerClient) (session_id : Option ℕ)
    (asked : RequestPayload) (payload : ResponsePayload) : Type 0 where
  pub live : client.stopped ≡ false
  pub reply : ResponseEnvelope
  pub came : peer.reply (envelope client session_id asked) ≡ arrived reply
  pub same : reply.payload ≡ payload
  pub id : reply.request_id ≡ client.next_request_id
  pub session : reply.session_id ≡ session_id
  pub order : reply.sequence ≡ client.next_request_id
  pub version : reply.protocol_version ≡ client.protocol_version
  pub kept : (request peer client session_id asked).after ≡ counted client

request-ok :
    (peer : Peer) (client : WorkerClient) (session_id : Option ℕ) (asked : RequestPayload)
    (payload : ResponsePayload)
    → client.next_request_id ≡ client.next_sequence
    → (request peer client session_id asked).result ≡ ok payload
    → IsAnswered peer client session_id asked payload
unfolding request counted
request-ok peer client session_id asked payload counters h =
    let wanted = envelope client session_id asked in
    let last = receive (counted client) wanted (peer.reply wanted) in
    let (live, first, a) = if-ok client.stopped _ _ _ payload refl h in
    let (writes, second, b) = if-ok (not client.writer_open) _ _ _ payload refl first in
    let (taken, third, c) = if-ok (not (peer.takes wanted)) _ last _ payload refl second in
    let got = receive-ok (counted client) wanted (peer.reply wanted) payload third in
    record {
      live = live;
      reply = got.reply;
      came = got.came;
      same = got.same;
      id = got.id;
      session = got.session;
      order = got.order ∙ sym counters;
      version = got.version;
      kept = a ∙ b ∙ c ∙ got.kept;
    }

-- After any calls on a spawned client, with any processes: when a request returns a payload, the
-- client was not stopped and the process had sent an envelope with this payload that carries the
-- session, the version of the client and, as its identifier and as its sequence, the next number of
-- the client; and the request changed nothing but the two counters.
pub request-IsAnswered :
    (auth_token : AuthToken) (version : ℕ) (calls : List Call) (peer : Peer) (session_id : Option ℕ)
    (asked : RequestPayload) (payload : ResponsePayload)
    → (request peer (after_all (spawned auth_token version) calls) session_id asked).result
      ≡ ok payload
    → IsAnswered peer (after_all (spawned auth_token version) calls) session_id asked payload
request-IsAnswered auth_token version calls peer session_id asked payload k =
    request-ok peer (after_all (spawned auth_token version) calls) session_id asked payload
      (spawned-IsInStep auth_token version calls).counters k
