-- ===== src/Worker/Frame.antt =====
-- crates/roadsim-worker-protocol/src/lib.rs: frames on a pipe, each a message encoded as JSON behind
-- its length in four bytes. A reader is the list of bytes that the other side sends before it closes
-- the pipe; the JSON library and the writer are parameters.
pub mod Bytes
pub mod RoundTrip
pub mod Truncated
pub mod Bounds
use road_sim.Prelude.{
  ||-false, &&-true, subst₂, ltb, leb, ◌==◌, if◌then◌else◌, ltb→lt, lt→ltb, ==_iff, ==-refl,
  <→==-false, Bool-cases, Option-cases, length, length-append, is_empty, any, all, first_adjacent,
  any_adjacent, contains, first_repeated, or_else, is_some, Result, ok, err, reject_if, reject_some,
  ok_or, map_err, ◌>>=◌, ◌>>◌, for_each, Result-cases, >>=-eq-ok, >>-eq-ok, map_err-eq-ok,
  reject_if-eq-ok, reject_some-eq-ok, ok_eq, ℕ, zero, suc, ◌+◌, ◌-◌, ◌*◌, ◌/◌, ◌%◌, ◌^◌, ◌≤◌, ◌<◌,
  ◌≡◌, refl, sym, ap, ap₂, subst, ◌∙◌, ◌≢◌, ◌↔◌, ◌⊎◌, inl, inr, Bool, true, false, not, ◌&&◌, ◌||◌,
  Option, none, some, List, [], ◌∷◌, ◌++◌, map, Memᴰ, arith, insert_by, sort_by, sort_by_key,
  IsSorted, IsTotal, sort_by-IsSorted, key_le, key_le_total,
}

abbrev pub max_control_frame_bytes : ℕ
max_control_frame_bytes = 1048576

abbrev pub max_data_frame_bytes : ℕ
max_data_frame_bytes = 16777216

pub data FrameErrorCode : Type 0 where
  end_of_stream io empty_frame frame_too_large invalid_json : FrameErrorCode

-- `serde_json::to_vec` and `serde_json::from_slice` on the messages of one type.
pub record Json (T : Type 0) : Type 0 where
  pub to_vec : T → Option (List ℕ)
  pub from_slice : List ℕ → Option T

-- A `Write`, as what its calls do to its state; `none` is an I/O error.
pub record Writer (S : Type 0) : Type 0 where
  pub write_all : S → List ℕ → Option S
  pub flush : S → Option S

-- `u32::to_le_bytes` and `u32::from_le_bytes`
abbrev pub to_le_bytes : ℕ → List ℕ
to_le_bytes n = n % 256 ∷ n / 256 % 256 ∷ n / 65536 % 256 ∷ n / 16777216 % 256 ∷ []

abbrev pub from_le_bytes : ℕ → ℕ → ℕ → ℕ → ℕ
from_le_bytes a b c d = a + b * 256 + c * 65536 + d * 16777216

abbrev bind {α β} : {V : Type α} {W : Type β} → Option V → (V → Option W) → Option W
bind none next = none
bind (some v) next = next v

module _ {T S : Type 0} (json : Json T) (writer : Writer S) where
  unfoldable pub write_bounded_frame : S → T → ℕ → Result S FrameErrorCode
  write_bounded_frame s message maximum_bytes = do
    encoded ← ok_or (json.to_vec message) invalid_json
    reject_if (is_empty encoded) empty_frame
    reject_if (ltb maximum_bytes (length encoded)) frame_too_large
    reject_if (leb (2 ^ 32) (length encoded)) frame_too_large
    let prefix = to_le_bytes (length encoded)
    ok_or
        (bind (writer.write_all s prefix)
          (λ t. bind (writer.write_all t encoded) (λ u. writer.flush u)))
        io

  -- `write_frame`
  unfoldable pub write_frame : S → T → Result S FrameErrorCode
  unfolding write_bounded_frame
  write_frame s message = write_bounded_frame s message max_control_frame_bytes

-- What a read returns, and the bytes that it leaves.
pub record Read (T : Type 0) : Type 0 where
  pub result : Result T FrameErrorCode
  pub left : List ℕ

abbrev pub reads : {T : Type 0} → Result T FrameErrorCode → List ℕ → Read T
reads result left = record { result = result; left = left }

-- `read_exact`: so many bytes and those behind them, or none if there are fewer.
unfoldable pub read_exact : ℕ → List ℕ → Option (List ℕ × List ℕ)
read_exact zero bytes = some ([], bytes)
read_exact (suc n) [] = none
read_exact (suc n) (b ∷ bytes) = bind (read_exact n bytes) (λ (taken, left). some (b ∷ taken, left))

module _ {T : Type 0} (json : Json T) where
  -- The payload, once the prefix is read; a failing `read_exact` has consumed what there was.
  unfoldable pub read_payload : ℕ → List ℕ → ℕ → Read T
  unfolding read_exact
  read_payload n bytes maximum_bytes =
      if n == 0
      then reads (err empty_frame) bytes
      else if ltb maximum_bytes n
      then reads (err frame_too_large) bytes
      else elim (read_exact n bytes) [
        | none ↦ reads (err io) []
        | some taken ↦ reads (ok_or (json.from_slice taken.0) invalid_json) taken.1
      ]

  unfoldable pub read_bounded_frame : List ℕ → ℕ → Read T
  unfolding read_payload
  read_bounded_frame [] maximum_bytes = reads (err end_of_stream) []
  read_bounded_frame (a ∷ b ∷ c ∷ d ∷ bytes) maximum_bytes =
      read_payload (from_le_bytes a b c d) bytes maximum_bytes
  read_bounded_frame bytes maximum_bytes = reads (err io) []

  -- `read_frame`
  unfoldable pub read_frame : List ℕ → Read T
  unfolding read_bounded_frame
  read_frame bytes = read_bounded_frame bytes max_control_frame_bytes
