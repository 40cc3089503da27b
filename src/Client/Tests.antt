-- ===== src/Client/Tests.antt =====
-- Runs of the client.
use road_sim.Prelude.{ok, err, ◌≡◌, refl, true, false, some, [], ◌∷◌}
use road_sim.Worker.Messages.{ResponsePayload, step_session, session_stepped, pong, new_response}
use road_sim.Client.{
  WorkerClient, spawned, Peer, arrived, timed_out, timeout, worker_exited, client_error,
  stop_process, counted, correlates, judge, receive, request,
}
use road_sim.Client.Session.{call_ping, call_step, expect, take}
use road_sim.Client.InStep.{IsInStep, spawned-IsInStep, pings, after_call, after_all}
use road_sim.Client.Correlated.{IsAnswered, request-IsAnswered}

-- A process that answers each request with one payload, and a process that hangs.
abbrev says : ResponsePayload → Peer
says payload = record {
  takes = λ request. true;
  reply = λ request. arrived (new_response request payload);
  exits = true;
}

abbrev hangs : Peer
hangs = record { takes = λ request. true; reply = λ request. timed_out; exits = false }

abbrev client : WorkerClient
client = spawned (record { value = [] }) 3

request_runs :
    ((call_ping (says pong) client).result ≡ ok tt)
    × ((call_ping hangs client).result ≡ err (client_error timeout))
    × ((call_ping (says pong) (call_ping hangs client).after).result
        ≡ err (client_error worker_exited))
    × ((call_step (says (session_stepped 3)) client 7 3).result ≡ ok 3)
unfolding spawned new_response call_ping call_step expect take request stop_process counted receive
    correlates judge
request_runs = (refl, refl, refl, refl)

second_answer :
    (request
      (says (session_stepped 3))
      (after_all (spawned (record { value = [] }) 3) (pings (says pong) ∷ []))
      (some 7)
      (step_session 3)).result
    ≡ ok (session_stepped 3)
unfolding spawned new_response after_all after_call call_ping expect take request stop_process
    counted receive correlates judge
second_answer = refl

request-IsAnswered_example :
    IsAnswered
      (says (session_stepped 3))
      (after_all (spawned (record { value = [] }) 3) (pings (says pong) ∷ []))
      (some 7)
      (step_session 3)
      (session_stepped 3)
request-IsAnswered_example =
    request-IsAnswered (record { value = [] }) 3 (pings (says pong) ∷ []) (says (session_stepped 3))
      (some 7) (step_session 3) (session_stepped 3) second_answer

-- A client that a hanging process stopped.
stopped_by_timeout : after_all client (pings hangs ∷ []) ≡ record client {
  next_request_id = 2;
  next_sequence = 2;
  writer_open = false;
  data_stop = true;
  stopped = true;
}
unfolding spawned after_all after_call call_ping expect take request stop_process counted receive
stopped_by_timeout = refl

spawned-IsInStep_example :
    IsInStep (after_all (spawned (record { value = [] }) 3) (pings hangs ∷ []))
spawned-IsInStep_example = spawned-IsInStep (record { value = [] }) 3 (pings hangs ∷ [])
