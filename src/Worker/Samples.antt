-- ===== src/Worker/Samples.antt =====
-- A pipe in memory, and codecs for the tests: of numbers as one byte, and of visual frames of one
-- agent.
use road_sim.Prelude.{ℕ, sym, ap, Option, none, some, List, [], ◌∷◌, ◌++◌}
use road_sim.Prelude.Members.{some-eq}
use road_sim.Worker.Frame.{Json, Writer}
use road_sim.Worker.Frame.RoundTrip.{IsFaithful, IsPipe}
use road_sim.Worker.Data.{
  VisualFrameBatch, WorkerDataPayload, visual_frame, metric_batch, terminal, WorkerDataEnvelope,
}

abbrev pub memory : Writer (List ℕ)
memory = record { write_all = λ s bytes. some (s ++ bytes); flush = λ s. some s }

abbrev pub contents : List ℕ → List ℕ
contents s = s

pub memory-IsPipe : IsPipe memory contents
memory-IsPipe = record {
  appends = λ s t bytes h. sym (some-eq h);
  flushes = λ s t h. sym (some-eq h);
}

abbrev number_of : List ℕ → Option ℕ
number_of (n ∷ []) = some n
number_of bytes = none

abbrev pub number_json : Json ℕ
number_json = record { to_vec = λ n. some (n ∷ []); from_slice = number_of }

pub number_json-IsFaithful : IsFaithful number_json
number_json-IsFaithful = record { decodes = λ m encoded h. ap number_of (sym (some-eq h)) }

abbrev bind {α β} : {V : Type α} {W : Type β} → Option V → (V → Option W) → Option W
bind none next = none
bind (some v) next = next v

-- One agent.
abbrev pub agent : ℕ → ℕ → ℕ → ℕ → ℕ → ℕ → ℕ → VisualFrameBatch
agent tick id x y heading long wide = record {
  tick = tick;
  agent_ids = id ∷ [];
  x_m = x ∷ [];
  y_m = y ∷ [];
  heading_rad = heading ∷ [];
  length_m = long ∷ [];
  width_m = wide ∷ [];
}

abbrev pub envelope_of : ℕ → ℕ → ℕ → VisualFrameBatch → WorkerDataEnvelope
envelope_of version session sequence batch = record {
  protocol_version = version;
  session_id = session;
  sequence = sequence;
  payload = visual_frame batch;
}

abbrev decode_envelope : List ℕ → Option WorkerDataEnvelope
decode_envelope (v ∷ s ∷ q ∷ tick ∷ id ∷ x ∷ y ∷ heading ∷ long ∷ wide ∷ []) =
    some (envelope_of v s q (agent tick id x y heading long wide))
decode_envelope bytes = none

abbrev encode_batch : ℕ → ℕ → ℕ → VisualFrameBatch → Option (List ℕ)
encode_batch v s q batch = bind (number_of batch.agent_ids) (λ id. bind (number_of batch.x_m) (λ x.
    bind (number_of batch.y_m) (λ y. bind (number_of batch.heading_rad) (λ heading.
      bind (number_of batch.length_m) (λ long.
        bind (number_of batch.width_m)
          (λ wide. some (v ∷ s ∷ q ∷ batch.tick ∷ id ∷ x ∷ y ∷ heading ∷ long ∷ wide ∷ [])))))))

abbrev encode_payload : ℕ → ℕ → ℕ → WorkerDataPayload → Option (List ℕ)
encode_payload v s q (visual_frame batch) = encode_batch v s q batch
encode_payload v s q (metric_batch samples) = none
encode_payload v s q (terminal event) = none

abbrev pub envelope_json : Json WorkerDataEnvelope
envelope_json = record {
  to_vec = λ e. encode_payload e.protocol_version e.session_id e.sequence e.payload;
  from_slice = decode_envelope;
}
