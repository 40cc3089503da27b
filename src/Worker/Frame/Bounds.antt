-- ===== src/Worker/Frame/Bounds.antt =====
-- What a read has consumed, whatever the other side sends.
use road_sim.Prelude.{
  ltb, ◌==◌, Bool-cases, Option-cases, length, Result, ok, ℕ, ◌≤◌, ◌<◌, ◌≡◌, sym, ap, ◌∙◌, inl, inr,
  some, List, [], ◌∷◌, ◌++◌, arith,
}
use road_sim.Worker.Frame.{
  FrameErrorCode, invalid_json, Json, Read, reads, from_le_bytes, read_exact, read_payload,
  read_bounded_frame,
}
use road_sim.Worker.Frame.Bytes.{read_exact-some}
use road_sim.Prelude.{ok_or-ok}

-- The frame behind a message: a length within the limit, and a payload of this length that decodes to
-- the message.
pub record IsFrame {T : Type 0} (json : Json T) (bytes left : List ℕ) (m : T) (maximum_bytes : ℕ)
    : Type 0 where
  pub a : ℕ
  pub b : ℕ
  pub c : ℕ
  pub d : ℕ
  pub payload : List ℕ
  pub shape : bytes ≡ a ∷ b ∷ c ∷ d ∷ payload ++ left
  pub size : from_le_bytes a b c d ≡ length payload
  pub full : 0 < length payload
  pub small : length payload ≤ maximum_bytes
  pub decodes : json.from_slice payload ≡ some m

module _ {T : Type 0} (json : Json T) (maximum_bytes : ℕ) where
  result-eq :
      {r q : Result T FrameErrorCode} {left rest : List ℕ} → reads r left ≡ reads q rest → r ≡ q
  result-eq e = ap (λ (r : Read T). r.result) e

  left-eq :
      {r q : Result T FrameErrorCode} {left rest : List ℕ}
      → reads r left ≡ reads q rest
      → left ≡ rest
  left-eq e = ap (λ (r : Read T). r.left) e

  read_payload-some :
      (n : ℕ) (bytes left : List ℕ) (m : T)
      → read_payload json n bytes maximum_bytes ≡ reads (ok m) left
      → (payload : List ℕ) × (bytes ≡ payload ++ left)
        × (n ≡ length payload)
        × (0 < n)
        × (n ≤ maximum_bytes)
        × (json.from_slice payload ≡ some m)
  unfolding read_payload
  read_payload-some n bytes left m h = elim (Bool-cases (n == 0)) [
    | inl e ↦ cc (result-eq (rw e at h))
    | inr e ↦ elim (Bool-cases (ltb maximum_bytes n)) [
      | inl f ↦ cc (result-eq (rw (e, f) at h))
      | inr f ↦ elim (Option-cases (read_exact n bytes)) [
        | inl g ↦ cc (result-eq (rw (e, f, g) at h))
        | inr ((taken, rest), g) ↦
            let out = rw (e, f, g) at h in
            let (whole, size) = read_exact-some n bytes taken rest g in
            (
              taken,
              whole ∙ ap (λ l. taken ++ l) (left-eq out),
              sym size,
              ground arith,
              ground arith,
              ok_or-ok (json.from_slice taken) invalid_json (result-eq out),
            )
      ]
    ]
  ]

  -- A message that a read returns stood in a frame at the front of the bytes, whose length is within
  -- the limit, and the read leaves what comes behind it.
  pub read-IsFrame :
      (bytes left : List ℕ) (m : T)
      → read_bounded_frame json bytes maximum_bytes ≡ reads (ok m) left
      → IsFrame json bytes left m maximum_bytes
  unfolding read_bounded_frame
  read-IsFrame [] left m h = cc (result-eq h)
  read-IsFrame (a ∷ []) left m h = cc (result-eq h)
  read-IsFrame (a ∷ b ∷ []) left m h = cc (result-eq h)
  read-IsFrame (a ∷ b ∷ c ∷ []) left m h = cc (result-eq h)
  read-IsFrame (a ∷ b ∷ c ∷ d ∷ bytes) left m h =
      let (payload, whole, size, full, small, decodes) =
        read_payload-some (from_le_bytes a b c d) bytes left m h in
      record {
        a = a;
        b = b;
        c = c;
        d = d;
        payload = payload;
        shape = ap (λ l. a ∷ b ∷ c ∷ d ∷ l) whole;
        size = size;
        full = omega (arith, full, size);
        small = omega (arith, small, size);
        decodes = decodes;
      }
