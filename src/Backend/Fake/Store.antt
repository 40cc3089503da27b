-- ===== src/Backend/Fake/Store.antt =====
-- crates/roadsim-backend-fake/src/lib.rs: `FakeBackend`, whose state is its map of artifacts. Its lock
-- is taken to be sound: no call has panicked while it held the lock.
use road_sim.Prelude.{
  ℕ, Bool, true, false, not, ◌&&◌, List, [], ◌∷◌, ◌++◌, Option, none, some, Result, ok, err, leb,
  ◌==◌, if◌then◌else◌, any, is_empty, sort_by, ==-refl, ◌≡◌, refl,
}
use road_sim.Backend.Api.{
  backend_api_version, CapabilityId, road_vehicles_basic, capability_rank, BackendHello,
  BackendErrorPhase, BackendErrorCode, BackendError, backend_error, BackendId, ScenarioSnapshot,
  BackendArtifact, RunConfig,
}
use road_sim.Backend.Fake.{CompiledNetwork, StoredArtifact, FakeSession, new}

-- `FAKE_BACKEND_ID`: the bytes of "roadsim.fake.v1".
abbrev pub fake_backend_id : BackendId
fake_backend_id = 0x726f616473696d2e66616b652e7631

-- The artifacts under their network and scenario digests, in the order of their insertion.
abbrev pub Artifacts : Type 0
Artifacts = List ((ℕ × ℕ) × StoredArtifact)

abbrev pub same_key : ℕ × ℕ → ℕ × ℕ → Bool
same_key (a, b) (c, d) = (a == c) && (b == d)

-- `BTreeMap::get` and `BTreeMap::insert`
unfoldable pub stored : ℕ × ℕ → Artifacts → Option StoredArtifact
stored key [] = none
stored key ((k, artifact) ∷ artifacts) =
    if same_key k key then some artifact else stored key artifacts

unfoldable pub store : ℕ × ℕ → StoredArtifact → Artifacts → Artifacts
store key artifact [] = (key, artifact) ∷ []
store key artifact ((k, old) ∷ artifacts) =
    let rest = store key artifact artifacts in
    if same_key k key then (key, artifact) ∷ artifacts else (k, old) ∷ rest

abbrev pub capabilities : List CapabilityId
capabilities = road_vehicles_basic ∷ []

abbrev pub capability_eq : CapabilityId → CapabilityId → Bool
capability_eq a b = capability_rank a == capability_rank b

abbrev pub capability_le : CapabilityId → CapabilityId → Bool
capability_le a b = leb (capability_rank a) (capability_rank b)

unfoldable pub unsupported_in : List CapabilityId → List CapabilityId
unsupported_in [] = []
unsupported_in (c ∷ requirements) =
    (if any (capability_eq c) capabilities then [] else c ∷ []) ++ unsupported_in requirements

-- `dedup()`
unfoldable pub dedup_capabilities : List CapabilityId → List CapabilityId
dedup_capabilities [] = []
dedup_capabilities (a ∷ []) = a ∷ []
dedup_capabilities (a ∷ b ∷ cs) =
    let rest = dedup_capabilities (b ∷ cs) in if capability_eq a b then rest else a ∷ rest

-- `BackendError::unsupported`
unfoldable pub unsupported_error : List CapabilityId → BackendError
unfolding dedup_capabilities sort_by
unsupported_error given = record {
  phase = BackendErrorPhase.unsupported;
  code = BackendErrorCode.unsupported_capabilities;
  unsupported_capabilities = dedup_capabilities (sort_by capability_le given);
}

unfoldable pub handshake : ℕ → Result BackendHello BackendError
handshake api_version =
    if not (api_version == backend_api_version)
    then err (backend_error BackendErrorPhase.handshake BackendErrorCode.protocol_mismatch)
    else ok (record {
      backend_id = fake_backend_id;
      api_version = backend_api_version;
      capabilities = capabilities;
      deterministic = true;
    })

unfoldable pub compile :
    Artifacts → CompiledNetwork → ScenarioSnapshot → Result BackendArtifact BackendError × Artifacts
unfolding store unsupported_in unsupported_error
compile artifacts network scenario =
    if network.lane_count == 0
    then (err (backend_error BackendErrorPhase.compile BackendErrorCode.empty_network), artifacts)
    else if not (is_empty (unsupported_in network.requirements))
    then (err (unsupported_error (unsupported_in network.requirements)), artifacts)
    else (
      ok (record {
        backend_id = fake_backend_id;
        network_hash = network.content_hash;
        scenario_hash = scenario.content_hash;
      }),
      store (network.content_hash, scenario.content_hash)
          (record { network = network; scenario = scenario }) artifacts,
    )

abbrev pub started : RunConfig → Option StoredArtifact → Result FakeSession BackendError
started run none = err (backend_error BackendErrorPhase.compile BackendErrorCode.artifact_not_found)
started run (some artifact) = ok (new artifact run)

unfoldable pub start : Artifacts → BackendArtifact → RunConfig → Result FakeSession BackendError
unfolding stored
start artifacts artifact run =
    if not (artifact.backend_id == fake_backend_id)
    then err (backend_error BackendErrorPhase.compile BackendErrorCode.artifact_backend_mismatch)
    else if not (artifact.scenario_hash == run.scenario_hash)
    then err (backend_error BackendErrorPhase.compile BackendErrorCode.invalid_run_config)
    else started run (stored (artifact.network_hash, artifact.scenario_hash) artifacts)

same_key_refl : (k : ℕ × ℕ) → same_key k k ≡ true
same_key_refl (a, b) = rw (==-refl a, ==-refl b)

stored-store :
    (key : ℕ × ℕ) (artifact : StoredArtifact) (artifacts : Artifacts)
    → stored key (store key artifact artifacts) ≡ some artifact
unfolding stored store
stored-store key artifact [] = rw (same_key_refl key)
stored-store key artifact ((k, old) ∷ artifacts) =
    by_test (stored-store key artifact artifacts) (same_key k key) refl
  where
    by_test :
        stored key (store key artifact artifacts) ≡ some artifact
        → (b : Bool) → same_key k key ≡ b
        → stored key
            (if b then (key, artifact) ∷ artifacts else (k, old) ∷ store key artifact artifacts)
          ≡ some artifact
    by_test below true e = rw (same_key_refl key)
    by_test below false e = rw (e, below)

-- A run of the scenario of a compilation that succeeded starts from its artifact, with a new session
-- of the network and the scenario compiled, whatever was compiled before.
pub compile-start :
    (artifacts after : Artifacts) (network : CompiledNetwork) (scenario : ScenarioSnapshot)
    (artifact : BackendArtifact) (run : RunConfig)
    → compile artifacts network scenario ≡ (ok artifact, after)
    → run.scenario_hash ≡ scenario.content_hash
    → start after artifact run ≡ ok (new (record { network = network; scenario = scenario }) run)
unfolding compile start
compile-start artifacts after network scenario artifact run compiled same =
    by_tests (network.lane_count == 0) (is_empty (unsupported_in network.requirements)) compiled
  where
    made : BackendArtifact
    made = record {
      backend_id = fake_backend_id;
      network_hash = network.content_hash;
      scenario_hash = scenario.content_hash;
    }

    kept : Artifacts
    kept =
        store (network.content_hash, scenario.content_hash)
          (record { network = network; scenario = scenario }) artifacts

    fails : BackendError → Result BackendArtifact BackendError × Artifacts
    fails e = (err e, artifacts)

    starts : start kept made run ≡ ok (new (record { network = network; scenario = scenario }) run)
    starts = rw (
      same,
      ==-refl scenario.content_hash,
      stored-store (network.content_hash, scenario.content_hash)
          (record { network = network; scenario = scenario }) artifacts,
    )

    by_tests :
        (a b : Bool)
        → (if a
            then fails (backend_error BackendErrorPhase.compile BackendErrorCode.empty_network)
            else if not b
            then fails (unsupported_error (unsupported_in network.requirements))
            else (ok made, kept))
          ≡ (ok artifact, after)
        → start after artifact run
          ≡ ok (new (record { network = network; scenario = scenario }) run)
    by_tests true b h = cc
    by_tests false false h = cc
    by_tests false true h = cc (h, starts)
