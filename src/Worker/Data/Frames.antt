-- ===== src/Worker/Data/Frames.antt =====
-- What goes over the data pipe is valid.
use road_sim.Prelude.{
  ||-false, ltb, leb, ◌==◌, length, any_adjacent, ok, ok_or, map_err, >>-eq-ok, map_err-eq-ok,
  reject_if-eq-ok, ℕ, zero, suc, ◌<◌, ◌≡◌, refl, sym, ap, ◌∙◌, false, not, some, List, [], ◌∷◌,
  ◌++◌, arith,
}
use road_sim.Prelude.{map_err-eq-ok}
use road_sim.Prelude.Members.{get_elem?, some-eq}
use road_sim.Worker.Frame.{invalid_json, Json, Writer, reads, max_data_frame_bytes}
use road_sim.Worker.Frame.RoundTrip.{frame_of, IsPipe, write-Sent, read-frame_of}
use road_sim.Worker.Data.{
  VisualFrameBatch, lengths_differ, max_visual_agents, visual_array_length_mismatch,
  agent_order_invalid, validate_visual, visual_frame, WorkerDataEnvelope, version_mismatch,
  worker_protocol_version, validate_payload, validate, write_data_frame, read_data_frame,
}

rises :
    (ids : List ℕ) (i j a b : ℕ)
    → any_adjacent (λ a b. leb b a) ids ≡ false
    → get_elem? ids i ≡ some a
    → get_elem? ids j ≡ some b
    → i < j
    → a < b
rises [] i j a b h k l less = cc
rises (x ∷ []) zero (suc j) a b h k l less = cc
rises (x ∷ []) (suc i) j a b h k l less = cc
rises (x ∷ y ∷ ids) zero (suc zero) a b h k l less =
    let (step, _) = ||-false (leb y x) (any_adjacent (λ a b. leb b a) (y ∷ ids)) h in
    let first = some-eq k in let second = some-eq l in ground arith
rises (x ∷ y ∷ ids) zero (suc (suc j)) a b h k l less =
    let (step, rest) = ||-false (leb y x) (any_adjacent (λ a b. leb b a) (y ∷ ids)) h in
    let first = some-eq k in
    let later = rises (y ∷ ids) zero (suc j) y b rest refl l (omega arith) in ground arith
rises (x ∷ y ∷ ids) (suc i) (suc j) a b h k l less =
    let (_, rest) = ||-false (leb y x) (any_adjacent (λ a b. leb b a) (y ∷ ids)) h in
    rises (y ∷ ids) i j a b rest k l (omega arith)
rises ids i zero a b h k l less = absurd (omega arith)

-- The identifiers of the agents rise, and each of the arrays has one value for each agent.
pub record IsOrdered (batch : VisualFrameBatch) : Type 0 where
  pub agents :
      (i j a b : ℕ)
      → get_elem? batch.agent_ids i ≡ some a
      → get_elem? batch.agent_ids j ≡ some b
      → i < j
      → a < b
  pub x_len : length batch.x_m ≡ length batch.agent_ids
  pub y_len : length batch.y_m ≡ length batch.agent_ids
  pub heading_len : length batch.heading_rad ≡ length batch.agent_ids
  pub length_len : length batch.length_m ≡ length batch.agent_ids
  pub width_len : length batch.width_m ≡ length batch.agent_ids

counts-eq : (m n : ℕ) → not (m == n) ≡ false → m ≡ n
counts-eq m n h = ground arith

validate_visual-IsOrdered :
    (batch : VisualFrameBatch) → validate_visual batch ≡ ok tt → IsOrdered batch
unfolding validate_visual
validate_visual-IsOrdered batch h =
    let count = length batch.agent_ids in
    let (lengths, h1) = reject_if-eq-ok (lengths_differ batch) visual_array_length_mismatch _ h in
    let (order, _) =
      reject_if-eq-ok (any_adjacent (λ a b. leb b a) batch.agent_ids) agent_order_invalid _ h1 in
    let (_, l1) = ||-false (ltb max_visual_agents count) _ lengths in
    let (x, l2) = ||-false (not (length batch.x_m == count)) _ l1 in
    let (y, l3) = ||-false (not (length batch.y_m == count)) _ l2 in
    let (heading, l4) = ||-false (not (length batch.heading_rad == count)) _ l3 in
    let (long, wide) = ||-false (not (length batch.length_m == count)) _ l4 in
    record {
      agents = λ i j a b. rises batch.agent_ids i j a b order;
      x_len = counts-eq (length batch.x_m) count x;
      y_len = counts-eq (length batch.y_m) count y;
      heading_len = counts-eq (length batch.heading_rad) count heading;
      length_len = counts-eq (length batch.length_m) count long;
      width_len = counts-eq (length batch.width_m) count wide;
    }

validate-visual :
    (envelope : WorkerDataEnvelope) (batch : VisualFrameBatch)
    → validate envelope ≡ ok tt
    → envelope.payload ≡ visual_frame batch
    → IsOrdered batch
unfolding validate validate_payload
validate-visual envelope batch h e =
    let (_, h1) =
      reject_if-eq-ok (not (envelope.protocol_version == worker_protocol_version)) version_mismatch
        (validate_payload envelope.payload) h in
    validate_visual-IsOrdered batch (ap validate_payload (sym e) ∙ h1)

-- A data frame is written only for an envelope that `validate` accepts; the pipe gets the bytes of the
-- envelope behind their length, from which, whatever comes behind them, `read_data_frame` returns what
-- these bytes decode to; and if the envelope is a visual frame, the identifiers of its agents rise and
-- each array has one value for each agent.
pub write_data_frame-valid :
    {S : Type 0} (json : Json WorkerDataEnvelope) (writer : Writer S) (contents : S → List ℕ)
    → IsPipe writer contents
    → (s t : S) (envelope : WorkerDataEnvelope) → write_data_frame json writer s envelope ≡ ok t
    → (validate envelope ≡ ok tt)
      × (encoded : List ℕ) × (json.to_vec envelope ≡ some encoded)
      × (contents t ≡ contents s ++ frame_of encoded)
      × ((rest : List ℕ)
          → read_data_frame json (frame_of encoded ++ rest)
            ≡ reads (ok_or (json.from_slice encoded) invalid_json) rest)
      × ((batch : VisualFrameBatch) → envelope.payload ≡ visual_frame batch → IsOrdered batch)
unfolding write_data_frame read_data_frame
write_data_frame-valid json writer contents pipe s t envelope h =
    let (checked, wrote) = >>-eq-ok (map_err (λ _. invalid_json) (validate envelope)) _ h in
    let valid = map_err-eq-ok (λ _. invalid_json) (validate envelope) checked in
    let sent = write-Sent json writer contents pipe s t envelope max_data_frame_bytes wrote in
    (
      valid,
      sent.encoded,
      sent.encodes,
      sent.appended,
      λ rest.
          read-frame_of json sent.encoded rest max_data_frame_bytes sent.nonempty sent.small
            sent.word,
      λ batch. validate-visual envelope batch valid,
    )
