-- ===== src/Backend/Seed.antt =====
-- crates/roadsim-backend-api/src/lib.rs: seeds of substreams, on words of 64 bits with wrap-around.
use road_sim.Prelude.{ℕ, ◌+◌, ◌*◌, ◌/◌, ◌%◌, ◌^◌}
use Prim.Native.Nat.{bit_xor}

pub data SeedAlgorithmVersion : Type 0 where
  v1 : SeedAlgorithmVersion

pub data SeedPurpose : Type 0 where
  agent_spawn : SeedPurpose

-- `value.rotate_left(17)`
abbrev pub rotate_left_17 : ℕ → ℕ
rotate_left_17 value = value * 2 ^ 17 % 2 ^ 64 + value / 2 ^ 47

-- `value ^ (value >> shift)`
unfoldable pub xor_shift : ℕ → ℕ → ℕ
xor_shift value shift = bit_xor value (value / 2 ^ shift)

unfoldable pub splitmix64 : ℕ → ℕ
unfolding xor_shift
splitmix64 value =
    let a = (value + 0x9e3779b97f4a7c15) % 2 ^ 64 in
    let b = xor_shift a 30 * 0xbf58476d1ce4e5b9 % 2 ^ 64 in
    let c = xor_shift b 27 * 0x94d049bb133111eb % 2 ^ 64 in xor_shift c 31

abbrev pub algorithm_tag : SeedAlgorithmVersion → ℕ
algorithm_tag v1 = 0x726f616473696d01

abbrev pub purpose_tag : SeedPurpose → ℕ
purpose_tag agent_spawn = 0x6167656e745f7370

unfoldable pub derive_seed : SeedAlgorithmVersion → ℕ → SeedPurpose → ℕ → ℕ
unfolding splitmix64
derive_seed algorithm root purpose entity_id = splitmix64 (
    bit_xor
      (bit_xor (bit_xor root (algorithm_tag algorithm)) (rotate_left_17 (purpose_tag purpose)))
      entity_id)
