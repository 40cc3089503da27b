-- ===== src/Worker/Data.antt =====
-- crates/roadsim-worker-protocol/src/lib.rs: the output of a worker on its data pipe.
pub mod Frames
use road_sim.Prelude.{
  ||-false, &&-true, subst₂, ltb, leb, ◌==◌, if◌then◌else◌, ltb→lt, lt→ltb, ==_iff, ==-refl,
  <→==-false, Bool-cases, Option-cases, length, length-append, is_empty, any, all, first_adjacent,
  any_adjacent, contains, first_repeated, or_else, is_some, Result, ok, err, reject_if, reject_some,
  ok_or, map_err, ◌>>=◌, ◌>>◌, for_each, Result-cases, >>=-eq-ok, >>-eq-ok, map_err-eq-ok,
  reject_if-eq-ok, reject_some-eq-ok, ok_eq, ℕ, zero, suc, ◌+◌, ◌-◌, ◌*◌, ◌/◌, ◌%◌, ◌^◌, ◌≤◌, ◌<◌,
  ◌≡◌, refl, sym, ap, ap₂, subst, ◌∙◌, ◌≢◌, ◌↔◌, ◌⊎◌, inl, inr, Bool, true, false, not, ◌&&◌, ◌||◌,
  Option, none, some, List, [], ◌∷◌, ◌++◌, map, Memᴰ, arith, insert_by, sort_by, sort_by_key,
  IsSorted, IsTotal, sort_by-IsSorted, key_le, key_le_total,
}
use road_sim.Types.Units.{is_finite, is_zero, is_negative}
use road_sim.Worker.Config.{is_identifier_byte, is_version_byte}
use road_sim.Worker.Frame.{
  FrameErrorCode, invalid_json, Json, Writer, write_bounded_frame, Read, read_bounded_frame,
  max_data_frame_bytes,
}

abbrev pub worker_protocol_version : ℕ
worker_protocol_version = 3

abbrev pub max_visual_agents : ℕ
max_visual_agents = 100000

abbrev pub max_metric_samples : ℕ
max_metric_samples = 4096

pub data WorkerDiagnosticCode : Type 0 where
  protocol_version_mismatch authentication_failed handshake_required : WorkerDiagnosticCode
  unsupported_capability invalid_capability_manifest engine_identity_mismatch : WorkerDiagnosticCode
  engine_unavailable engine_start_failed engine_step_failed engine_close_failed :
      WorkerDiagnosticCode
  session_config_invalid session_step_invalid sequence_out_of_order : WorkerDiagnosticCode
  session_already_active session_not_found invalid_request : WorkerDiagnosticCode

pub data DataValidationErrorCode : Type 0 where
  version_mismatch visual_array_length_mismatch agent_order_invalid : DataValidationErrorCode
  metric_batch_size_invalid metric_order_invalid terminal_event_invalid : DataValidationErrorCode
  non_finite_or_invalid_value : DataValidationErrorCode

pub record VisualFrameBatch : Type 0 where
  pub tick : ℕ
  pub agent_ids : List ℕ
  pub x_m : List ℕ
  pub y_m : List ℕ
  pub heading_rad : List ℕ
  pub length_m : List ℕ
  pub width_m : List ℕ

abbrev not_positive : ℕ → Bool
not_positive value = not (is_finite value) || (is_negative value || is_zero value)

abbrev not_finite : ℕ → Bool
not_finite value = not (is_finite value)

abbrev pub lengths_differ : VisualFrameBatch → Bool
lengths_differ batch =
    let count = length batch.agent_ids in
    ltb max_visual_agents count
    || (not (length batch.x_m == count)
        || (not (length batch.y_m == count)
            || (not (length batch.heading_rad == count)
                || (not (length batch.length_m == count) || not (length batch.width_m == count)))))

unfoldable pub values_invalid : VisualFrameBatch → Bool
values_invalid batch =
    any not_finite (batch.x_m ++ batch.y_m ++ batch.heading_rad)
    || any not_positive (batch.length_m ++ batch.width_m)

unfoldable pub validate_visual : VisualFrameBatch → Result (Unit {0}) DataValidationErrorCode
unfolding values_invalid
validate_visual batch = do
  reject_if (lengths_differ batch) visual_array_length_mismatch
  reject_if (any_adjacent (λ a b. leb b a) batch.agent_ids) agent_order_invalid
  reject_if (values_invalid batch) non_finite_or_invalid_value

-- `VisualFrameBatch::new`
unfoldable pub new_visual : VisualFrameBatch → Result VisualFrameBatch DataValidationErrorCode
unfolding validate_visual
new_visual batch = validate_visual batch >> ok batch

pub record MetricSample : Type 0 where
  pub tick : ℕ
  pub definition_id : List ℕ
  pub definition_version : List ℕ
  pub value : ℕ

unfoldable pub sample_invalid : MetricSample → Bool
sample_invalid sample =
    is_empty sample.definition_id
    || (ltb 128 (length sample.definition_id)
        || (not (all is_identifier_byte sample.definition_id)
            || (is_empty sample.definition_version
                || (ltb 64 (length sample.definition_version)
                    || (not (all is_version_byte sample.definition_version)
                        || not_finite sample.value)))))

unfoldable pub validate_sample : MetricSample → Result (Unit {0}) DataValidationErrorCode
unfolding sample_invalid
validate_sample sample = reject_if (sample_invalid sample) non_finite_or_invalid_value

-- `MetricSample::new`
unfoldable pub new_sample : MetricSample → Result MetricSample DataValidationErrorCode
unfolding validate_sample
new_sample sample = validate_sample sample >> ok sample

-- The order of texts, byte by byte; a proper prefix comes first.
abbrev pub text_lt : List ℕ → List ℕ → Bool
text_lt left [] = false
text_lt [] (b ∷ right) = true
text_lt (a ∷ left) (b ∷ right) = let rest = text_lt left right in ltb a b || ((a == b) && rest)

-- `left < right`, of ticks with the identifiers of definitions.
unfoldable pub sample_lt : MetricSample → MetricSample → Bool
sample_lt left right =
    ltb left.tick right.tick
    || ((left.tick == right.tick) && text_lt left.definition_id right.definition_id)

unfoldable pub validate_metrics : List MetricSample → Result (Unit {0}) DataValidationErrorCode
unfolding validate_sample sample_lt
validate_metrics samples = do
  reject_if (is_empty samples || ltb max_metric_samples (length samples)) metric_batch_size_invalid
  for_each validate_sample samples
  reject_if (any_adjacent (λ left right. not (sample_lt left right)) samples) metric_order_invalid

-- `MetricBatch::new`
unfoldable pub new_metrics : List MetricSample → Result (List MetricSample) DataValidationErrorCode
unfolding validate_metrics
new_metrics samples = validate_metrics samples >> ok samples

pub data TerminalStatus : Type 0 where
  completed cancelled failed : TerminalStatus

pub record TerminalEvent : Type 0 where
  pub status : TerminalStatus
  pub diagnostic : Option WorkerDiagnosticCode

abbrev pub terminal_is_valid : TerminalStatus → Option WorkerDiagnosticCode → Bool
terminal_is_valid failed diagnostic = is_some diagnostic
terminal_is_valid completed diagnostic = not (is_some diagnostic)
terminal_is_valid cancelled diagnostic = not (is_some diagnostic)

unfoldable pub validate_terminal : TerminalEvent → Result (Unit {0}) DataValidationErrorCode
validate_terminal event =
    reject_if (not (terminal_is_valid event.status event.diagnostic)) terminal_event_invalid

pub data WorkerDataPayload : Type 0 where
  visual_frame : VisualFrameBatch → WorkerDataPayload
  metric_batch : List MetricSample → WorkerDataPayload
  terminal : TerminalEvent → WorkerDataPayload

pub record WorkerDataEnvelope : Type 0 where
  pub protocol_version : ℕ
  pub session_id : ℕ
  pub sequence : ℕ
  pub payload : WorkerDataPayload

unfoldable pub validate_payload : WorkerDataPayload → Result (Unit {0}) DataValidationErrorCode
unfolding validate_visual validate_metrics validate_terminal
validate_payload (visual_frame batch) = validate_visual batch
validate_payload (metric_batch samples) = validate_metrics samples
validate_payload (terminal event) = validate_terminal event

-- `WorkerDataEnvelope::new`
unfoldable pub new_envelope : ℕ → ℕ → WorkerDataPayload → WorkerDataEnvelope
new_envelope session_id sequence payload = record {
  protocol_version = worker_protocol_version;
  session_id = session_id;
  sequence = sequence;
  payload = payload;
}

-- `WorkerDataEnvelope::validate`
unfoldable pub validate : WorkerDataEnvelope → Result (Unit {0}) DataValidationErrorCode
unfolding validate_payload
validate envelope = do
  reject_if (not (envelope.protocol_version == worker_protocol_version)) version_mismatch
  validate_payload envelope.payload

unfoldable pub write_data_frame :
    {S : Type 0}
    → Json WorkerDataEnvelope
    → Writer S
    → S
    → WorkerDataEnvelope
    → Result S FrameErrorCode
unfolding validate write_bounded_frame
write_data_frame json writer s envelope = do
  map_err (λ _. invalid_json) (validate envelope)
  write_bounded_frame json writer s envelope max_data_frame_bytes

unfoldable pub read_data_frame : Json WorkerDataEnvelope → List ℕ → Read WorkerDataEnvelope
unfolding read_bounded_frame
read_data_frame json bytes = read_bounded_frame json bytes max_data_frame_bytes
