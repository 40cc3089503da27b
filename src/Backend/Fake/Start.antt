-- ===== src/Backend/Fake/Start.antt =====
-- crates/roadsim-backend-api/src/lib.rs, `RunConfig::new`, and the session that starts from it.
use road_sim.Prelude.{
  ℕ, ◌<◌, ◌^◌, ◌≡◌, ap, subst, ok, arith, ltb, ◌==◌, ◌||◌, if◌then◌else◌, Result, err, Bool, true,
  false, refl,
}
use road_sim.Backend.Api.{
  RunConfig, BackendError, BackendErrorPhase, BackendErrorCode, backend_error, new_run,
}
use road_sim.Backend.Fake.{StoredArtifact, new}
use road_sim.Backend.Fake.Run.{IsConsistent}

some_step : (d s : ℕ) → (d == 0 || s == 0 || ltb d s) ≡ false → 0 < s
some_step d s h = ground arith

-- A session on a run configuration that `RunConfig::new` accepted, from 64-bit numbers, starts
-- consistent: a positive step, no tick past the end, no more frames than ticks, and no keys.
pub new-IsConsistent :
    (artifact : StoredArtifact) (hash duration step seed : ℕ) (run : RunConfig)
    → new_run hash duration step seed ≡ ok run
    → duration < 2 ^ 64
    → IsConsistent (new artifact run)
unfolding new_run new
new-IsConsistent artifact hash duration step seed run h machine =
    by_test (duration == 0 || step == 0 || ltb duration step) refl h
  where
    made : RunConfig
    made = record {
      scenario_hash = hash;
      duration_ticks = duration;
      step_ticks = step;
      root_seed = seed;
    }

    refused : BackendError
    refused = backend_error BackendErrorPhase.compile BackendErrorCode.invalid_run_config

    run_or : Result RunConfig BackendError → RunConfig
    run_or (ok r) = r
    run_or (err e) = made

    by_test :
        (b : Bool)
        → (duration == 0 || step == 0 || ltb duration step) ≡ b
        → (if b then err refused else ok made) ≡ ok run
        → IsConsistent (new artifact run)
    by_test true e a = cc
    by_test false e a =
        subst (λ r. IsConsistent (new artifact r)) (ap run_or a)
          (record {
            some_step = some_step duration step e;
            machine = machine;
            within = omega arith;
            emitted = omega arith;
            remembered = omega arith;
          })
