-- ===== src/Types/Fault.antt =====
-- The shape that the domain's errors share: `CatalogError`, `ControlError`, `ScenarioError`,
-- `MultimodalError`, `RuleConfigError` and `CommandError` are a code with the objects concerned.
use road_sim.Prelude.{List}
use road_sim.Types.Ids.{ObjectRef, canonical}

pub record Fault (Code : Type 0) : Type 0 where
  pub code : Code
  pub object_refs : List ObjectRef

-- Their constructor `new`, which sorts the references and removes repetitions.
unfoldable pub fault : {Code : Type 0} → Code → List ObjectRef → Fault Code
fault code refs = record { code = code; object_refs = canonical refs }
