-- ===== src/Worker/Config.antt =====
-- crates/roadsim-worker-protocol/src/lib.rs: the identity of an engine, capabilities, and the
-- configuration of a session, whose bundle path names a file below the run directory. Texts are their
-- UTF-8 bytes. `Path::components` is that of Unix.
pub mod Paths
use road_sim.Prelude.{
  ||-false, &&-true, subst₂, ltb, leb, ◌==◌, if◌then◌else◌, ltb→lt, lt→ltb, ==_iff, ==-refl,
  <→==-false, Bool-cases, Option-cases, length, length-append, is_empty, any, all, first_adjacent,
  any_adjacent, contains, first_repeated, or_else, is_some, Result, ok, err, reject_if, reject_some,
  ok_or, map_err, ◌>>=◌, ◌>>◌, for_each, Result-cases, >>=-eq-ok, >>-eq-ok, map_err-eq-ok,
  reject_if-eq-ok, reject_some-eq-ok, ok_eq, ℕ, zero, suc, ◌+◌, ◌-◌, ◌*◌, ◌/◌, ◌%◌, ◌^◌, ◌≤◌, ◌<◌,
  ◌≡◌, refl, sym, ap, ap₂, subst, ◌∙◌, ◌≢◌, ◌↔◌, ◌⊎◌, inl, inr, Bool, true, false, not, ◌&&◌, ◌||◌,
  Option, none, some, List, [], ◌∷◌, ◌++◌, map, Memᴰ, arith, insert_by, sort_by, sort_by_key,
  IsSorted, IsTotal, sort_by-IsSorted, key_le, key_le_total,
}

abbrev pub max_capabilities : ℕ
max_capabilities = 64

abbrev pub max_bundle_path_bytes : ℕ
max_bundle_path_bytes = 240

abbrev is_digit : ℕ → Bool
is_digit byte = leb 48 byte && leb byte 57

abbrev is_lowercase : ℕ → Bool
is_lowercase byte = leb 97 byte && leb byte 122

abbrev is_alphanumeric : ℕ → Bool
is_alphanumeric byte = is_digit byte || ((leb 65 byte && leb byte 90) || is_lowercase byte)

-- `b'.' | b'_' | b'-'`
abbrev is_mark : ℕ → Bool
is_mark byte = (byte == 46) || ((byte == 95) || (byte == 45))

abbrev pub is_identifier_byte : ℕ → Bool
is_identifier_byte byte = is_lowercase byte || (is_digit byte || is_mark byte)

-- With `b'+'` besides.
abbrev pub is_version_byte : ℕ → Bool
is_version_byte byte = is_alphanumeric byte || (is_mark byte || (byte == 43))

unfoldable pub machine_identifier_is_valid : List ℕ → ℕ → Bool
machine_identifier_is_valid value maximum_bytes =
    not (is_empty value) && (leb (length value) maximum_bytes && all is_identifier_byte value)

unfoldable pub version_component_is_valid : List ℕ → ℕ → Bool
version_component_is_valid value maximum_bytes =
    not (is_empty value) && (leb (length value) maximum_bytes && all is_version_byte value)

unfoldable pub capabilities_are_valid : List (List ℕ) → Bool
unfolding machine_identifier_is_valid
capabilities_are_valid capabilities =
    leb (length capabilities) max_capabilities
    && all (λ capability. machine_identifier_is_valid capability 128) capabilities

unfoldable pub worker_version_is_valid : List ℕ → Bool
unfolding version_component_is_valid
worker_version_is_valid version = version_component_is_valid version 64

pub record EngineIdentity : Type 0 where
  pub name : List ℕ
  pub version : List ℕ
  pub build_revision : List ℕ

pub data EngineIdentityError : Type 0 where
  engine_identity_error : EngineIdentityError

unfoldable pub identity_is_valid : EngineIdentity → Bool
unfolding machine_identifier_is_valid version_component_is_valid
identity_is_valid identity =
    machine_identifier_is_valid identity.name 128
    && (version_component_is_valid identity.version 64
        && version_component_is_valid identity.build_revision 128)

unfoldable pub new_identity : List ℕ → List ℕ → List ℕ → Result EngineIdentity EngineIdentityError
unfolding identity_is_valid
new_identity name version build_revision =
    let identity : EngineIdentity = record {
      name = name;
      version = version;
      build_revision = build_revision;
    } in
    if identity_is_valid identity then ok identity else err engine_identity_error

-- `std::path::Component`, of Unix paths.
pub data Component : Type 0 where
  root_dir cur_dir parent_dir : Component
  normal : List ℕ → Component

abbrev cons_first : ℕ → List (List ℕ) → List (List ℕ)
cons_first byte [] = (byte ∷ []) ∷ []
cons_first byte (part ∷ parts) = (byte ∷ part) ∷ parts

-- The parts of a path between its separators.
unfoldable pub parts : List ℕ → List (List ℕ)
parts [] = [] ∷ []
parts (byte ∷ bytes) =
    let rest = parts bytes in if byte == 47 then [] ∷ rest else cons_first byte rest

-- `.` and `..`
abbrev pub is_dot : List ℕ → Bool
is_dot (a ∷ []) = a == 46
is_dot part = false

abbrev pub is_dot_dot : List ℕ → Bool
is_dot_dot (a ∷ b ∷ []) = (a == 46) && (b == 46)
is_dot_dot part = false

-- Repeated separators and `.` are dropped.
unfoldable pub component_of : List ℕ → List Component
component_of part =
    if is_empty part || is_dot part
    then []
    else if is_dot_dot part
    then parent_dir ∷ []
    else normal part ∷ []

unfoldable pub components_of : List (List ℕ) → List Component
unfolding component_of
components_of [] = []
components_of (part ∷ rest) = component_of part ++ components_of rest

-- The component of a leading separator or of a leading `.`.
unfoldable pub leading : List (List ℕ) → List Component
leading [] = []
leading (part ∷ []) = if is_dot part then cur_dir ∷ [] else []
leading (part ∷ rest) =
    if is_empty part then root_dir ∷ [] else if is_dot part then cur_dir ∷ [] else []

-- `Path::new(path).components()`
unfoldable pub components : List ℕ → List Component
unfolding parts components_of leading
components path = leading (parts path) ++ components_of (parts path)

abbrev pub is_normal : Component → Bool
is_normal (normal part) = true
is_normal component = false

pub record WorkerSessionConfig : Type 0 where
  pub bundle_path : List ℕ
  pub root_seed : ℕ
  pub step_length_ms : ℕ

pub data WorkerSessionConfigError : Type 0 where
  worker_session_config_error : WorkerSessionConfigError

-- `WorkerSessionConfig::is_valid`
unfoldable pub config_is_valid : WorkerSessionConfig → Bool
unfolding components
config_is_valid config =
    not (is_empty config.bundle_path)
    && (leb (length config.bundle_path) max_bundle_path_bytes
        && ((leb 1 config.step_length_ms && leb config.step_length_ms 1000)
            && all is_normal (components config.bundle_path)))

unfoldable pub new_config : List ℕ → ℕ → ℕ → Result WorkerSessionConfig WorkerSessionConfigError
unfolding config_is_valid
new_config bundle_path root_seed step_length_ms =
    let config : WorkerSessionConfig = record {
      bundle_path = bundle_path;
      root_seed = root_seed;
      step_length_ms = step_length_ms;
    } in
    if config_is_valid config then ok config else err worker_session_config_error
