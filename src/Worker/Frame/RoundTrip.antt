-- ===== src/Worker/Frame/RoundTrip.antt =====
-- What is written as frames is read back, message by message.
use road_sim.Prelude.{
  ltb, leb, ◌==◌, Option-cases, length, is_empty, ok, ok_or, >>=-eq-ok, reject_if-eq-ok, ℕ, ◌^◌,
  ◌≤◌, ◌<◌, ◌≡◌, refl, ap, ◌∙◌, inl, inr, false, some, List, [], ◌∷◌, ◌++◌, arith,
}
use mathlib.Core.List.{append_assoc}
use road_sim.Prelude.{ok_or-ok}
use road_sim.Worker.Frame.{
  io, empty_frame, frame_too_large, invalid_json, Json, Writer, to_le_bytes, write_bounded_frame,
  reads, read_payload, read_bounded_frame,
}
use road_sim.Worker.Frame.Bytes.{from-to_le_bytes, read_exact-append}

unfoldable pub frame_of : List ℕ → List ℕ
frame_of encoded = to_le_bytes (length encoded) ++ encoded

-- What the JSON library documents for messages without floating-point numbers, as all control messages
-- are: decoding undoes encoding.
pub record IsFaithful {T : Type 0} (json : Json T) : Type 0 where
  pub decodes :
      (m : T) (encoded : List ℕ) → json.to_vec m ≡ some encoded → json.from_slice encoded ≡ some m

-- What a pipe documents: a write that succeeds appends its bytes.
pub record IsPipe {S : Type 0} (writer : Writer S) (contents : S → List ℕ) : Type 0 where
  pub appends :
      (s t : S) (bytes : List ℕ)
      → writer.write_all s bytes ≡ some t
      → contents t ≡ contents s ++ bytes
  pub flushes : (s t : S) → writer.flush s ≡ some t → contents t ≡ contents s

-- The payload that a successful write sends.
pub record Sent {T : Type 0} (json : Json T) (m : T) (maximum_bytes : ℕ) (before after : List ℕ)
    : Type 0 where
  pub encoded : List ℕ
  pub encodes : json.to_vec m ≡ some encoded
  pub appended : after ≡ before ++ frame_of encoded
  pub nonempty : 0 < length encoded
  pub small : length encoded ≤ maximum_bytes
  pub word : length encoded < 2 ^ 32

module _ {T S : Type 0} (json : Json T) (writer : Writer S) (contents : S → List ℕ)
    (pipe : IsPipe writer contents) where
  pub write-Sent :
      (s t : S) (m : T) (maximum_bytes : ℕ)
      → write_bounded_frame json writer s m maximum_bytes ≡ ok t
      → Sent json m maximum_bytes (contents s) (contents t)
  unfolding write_bounded_frame frame_of
  write-Sent s t m maximum_bytes h =
      let (encoded, found, h1) = >>=-eq-ok (ok_or (json.to_vec m) invalid_json) _ h in
      let (full, h2) = reject_if-eq-ok (is_empty encoded) empty_frame _ h1 in
      let (small, h3) = reject_if-eq-ok (ltb maximum_bytes (length encoded)) frame_too_large _ h2 in
      let (word, h4) = reject_if-eq-ok (leb (2 ^ 32) (length encoded)) frame_too_large _ h3 in
      let prefix = to_le_bytes (length encoded) in
      elim (Option-cases (writer.write_all s prefix)) [
        | inl e ↦ cc (rw e at h4)
        | inr (u, e) ↦ elim (Option-cases (writer.write_all u encoded)) [
          | inl f ↦ cc (rw (e, f) at h4)
          | inr (v, f) ↦ record {
            encoded = encoded;
            encodes = ok_or-ok (json.to_vec m) invalid_json found;
            appended =
                pipe.flushes v t (ok_or-ok (writer.flush v) io (rw (e, f) at h4))
                ∙ pipe.appends u v encoded f
                ∙ ap (λ l. l ++ encoded) (pipe.appends s u prefix e)
                ∙ append_assoc (contents s) prefix encoded;
            nonempty = longer encoded full;
            small = ground arith;
            word = ground arith;
          }
        ]
      ]
    where
      longer : (l : List ℕ) → is_empty l ≡ false → 0 < length l
      longer [] h = cc
      longer (x ∷ l) h = omega arith

pub read-frame_of :
    {T : Type 0} (json : Json T) (encoded rest : List ℕ) (maximum_bytes : ℕ)
    → 0 < length encoded
    → length encoded ≤ maximum_bytes
    → length encoded < 2 ^ 32
    → read_bounded_frame json (frame_of encoded ++ rest) maximum_bytes
      ≡ reads (ok_or (json.from_slice encoded) invalid_json) rest
unfolding read_bounded_frame read_payload frame_of
read-frame_of json encoded rest maximum_bytes full small word =
    let some_bytes : (length encoded == 0) ≡ false = ground arith in
    let fits : ltb maximum_bytes (length encoded) ≡ false = ground arith in
    rw (from-to_le_bytes (length encoded) word, some_bytes, fits, read_exact-append encoded rest)
      refl

-- A write that succeeds appends some bytes to the pipe, from which, whatever comes behind them, a read
-- with the same limit returns the message and leaves what comes behind.
pub write-read :
    {T S : Type 0} (json : Json T) (writer : Writer S) (contents : S → List ℕ)
    → IsFaithful json
    → IsPipe writer contents
    → (s t : S) (m : T) (maximum_bytes : ℕ)
    → write_bounded_frame json writer s m maximum_bytes ≡ ok t
    → (frame : List ℕ) × (contents t ≡ contents s ++ frame)
      × ((rest : List ℕ)
          → read_bounded_frame json (frame ++ rest) maximum_bytes ≡ reads (ok m) rest)
write-read json writer contents faithful pipe s t m maximum_bytes h =
    let sent = write-Sent json writer contents pipe s t m maximum_bytes h in
    (
      frame_of sent.encoded,
      sent.appended,
      λ rest.
          read-frame_of json sent.encoded rest maximum_bytes sent.nonempty sent.small sent.word
          ∙ ap (λ o. reads (ok_or o invalid_json) rest)
              (faithful.decodes m sent.encoded sent.encodes),
    )
