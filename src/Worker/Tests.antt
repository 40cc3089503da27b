-- ===== src/Worker/Tests.antt =====
-- Runs of the worker protocol, and the theorems at them.
use road_sim.Prelude.{
  ok, err, ok_or, ℕ, zero, suc, ◌≡◌, refl, ◌↔◌, true, false, some, List, [], ◌∷◌, ◌++◌,
}
use road_sim.Worker.Token.{AuthToken, parse, matches, fold_difference, token_error}
use road_sim.Worker.Token.Matches.{matches_iff}
use road_sim.Worker.Frame.{
  invalid_json, frame_too_large, reads, write_bounded_frame, read_bounded_frame, read_payload,
  read_exact,
}
use road_sim.Worker.Frame.RoundTrip.{frame_of, write-read}
use road_sim.Worker.Frame.Bounds.{IsFrame, read-IsFrame}
use road_sim.Worker.Config.{
  WorkerSessionConfig, config_is_valid, components, components_of, component_of, leading, parts,
}
use road_sim.Worker.Config.Paths.{resolve, bundle_path-below}
use road_sim.Worker.Data.{
  WorkerDataEnvelope, visual_frame, validate, validate_payload, validate_visual, values_invalid,
  write_data_frame, read_data_frame, VisualFrameBatch,
}
use road_sim.Worker.Data.Frames.{IsOrdered, write_data_frame-valid}
use road_sim.Worker.Samples.{
  memory, contents, memory-IsPipe, number_json, number_json-IsFaithful, agent, envelope_of,
  envelope_json,
}

abbrev many : ℕ → ℕ → List ℕ
many zero byte = []
many (suc n) byte = byte ∷ many n byte

-- 64 digits, and the same with another last one.
abbrev digits_one : List ℕ
digits_one = many 63 97 ++ 48 ∷ []

abbrev digits_two : List ℕ
digits_two = many 63 97 ++ 49 ∷ []

abbrev token : List ℕ → AuthToken
token value = record { value = value }

parse_runs :
    (parse digits_one ≡ ok (token digits_one))
    × (parse digits_two ≡ ok (token digits_two))
    × (parse (many 64 65) ≡ err token_error)
    × (matches (token digits_one) (token digits_two) ≡ false)
unfolding parse matches fold_difference
parse_runs = (refl, refl, refl, refl)

matches_iff_example :
    (matches (token digits_one) (token digits_two) ≡ true) ↔ (digits_one ≡ digits_two)
matches_iff_example =
    matches_iff digits_one digits_two (token digits_one) (token digits_two) parse_runs.0
      parse_runs.1

write_runs : write_bounded_frame number_json memory (9 ∷ []) 7 100 ≡ ok (9 ∷ 1 ∷ 0 ∷ 0 ∷ 0 ∷ 7 ∷ [])
unfolding write_bounded_frame
write_runs = refl

read_runs :
    (read_bounded_frame number_json (1 ∷ 0 ∷ 0 ∷ 0 ∷ 7 ∷ 8 ∷ []) 100 ≡ reads (ok 7) (8 ∷ []))
    × (read_bounded_frame number_json (0 ∷ 1 ∷ 0 ∷ 0 ∷ 7 ∷ []) 100
        ≡ reads (err frame_too_large) (7 ∷ []))
unfolding read_bounded_frame read_payload read_exact
read_runs = (refl, refl)

write-read_example :
    (frame : List ℕ) × (9 ∷ 1 ∷ 0 ∷ 0 ∷ 0 ∷ 7 ∷ [] ≡ 9 ∷ frame)
    × ((rest : List ℕ) → read_bounded_frame number_json (frame ++ rest) 100 ≡ reads (ok 7) rest)
write-read_example =
    write-read number_json memory contents number_json-IsFaithful memory-IsPipe (9 ∷ [])
      (9 ∷ 1 ∷ 0 ∷ 0 ∷ 0 ∷ 7 ∷ []) 7 100 write_runs

read-IsFrame_example : IsFrame number_json (1 ∷ 0 ∷ 0 ∷ 0 ∷ 7 ∷ 8 ∷ []) (8 ∷ []) 7 100
read-IsFrame_example =
    read-IsFrame number_json 100 (1 ∷ 0 ∷ 0 ∷ 0 ∷ 7 ∷ 8 ∷ []) (8 ∷ []) 7 read_runs.0

-- `run/./out`, and paths that leave the directory.
abbrev config : List ℕ → WorkerSessionConfig
config path = record { bundle_path = path; root_seed = 1; step_length_ms = 100 }

abbrev run_out : List ℕ
run_out = 114 ∷ 117 ∷ 110 ∷ 47 ∷ 46 ∷ 47 ∷ 111 ∷ 117 ∷ 116 ∷ []

config_runs :
    (config_is_valid (config run_out) ≡ true)
    × (config_is_valid (config (97 ∷ 47 ∷ 46 ∷ 46 ∷ [])) ≡ false)
    × (config_is_valid (config (47 ∷ 97 ∷ [])) ≡ false)
    × (config_is_valid (config (46 ∷ [])) ≡ false)
unfolding config_is_valid components components_of component_of leading parts
config_runs = (refl, refl, refl, refl)

bundle_path-below_example :
    (name : List ℕ) × (names : List (List ℕ)) × (resolve ((100 ∷ []) ∷ []) run_out
      ≡ names ++ name ∷ (100 ∷ []) ∷ [])
bundle_path-below_example = bundle_path-below (config run_out) ((100 ∷ []) ∷ []) config_runs.0

-- An agent of length and width 1.0.
abbrev batch : VisualFrameBatch
batch = agent 5 1 0 0 0 4607182418800017408 4607182418800017408

abbrev envelope : WorkerDataEnvelope
envelope = envelope_of 3 1 0 batch

abbrev sent : List ℕ
sent =
    10 ∷ 0 ∷ 0 ∷ 0 ∷ 3 ∷ 1 ∷ 0 ∷ 5 ∷ 1 ∷ 0 ∷ 0 ∷ 0 ∷ 4607182418800017408 ∷ 4607182418800017408 ∷ []

write_data_runs : write_data_frame envelope_json memory [] envelope ≡ ok sent
unfolding write_data_frame write_bounded_frame validate validate_payload validate_visual
    values_invalid
write_data_runs = refl

write_data_frame-valid_example :
    (validate envelope ≡ ok tt)
    × (encoded : List ℕ) × (envelope_json.to_vec envelope ≡ some encoded)
    × (sent ≡ frame_of encoded)
    × ((rest : List ℕ)
        → read_data_frame envelope_json (frame_of encoded ++ rest)
          ≡ reads (ok_or (envelope_json.from_slice encoded) invalid_json) rest)
    × ((b : VisualFrameBatch) → envelope.payload ≡ visual_frame b → IsOrdered b)
write_data_frame-valid_example =
    write_data_frame-valid envelope_json memory contents memory-IsPipe [] sent envelope
      write_data_runs
