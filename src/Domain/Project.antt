-- ===== src/Domain/Project.antt =====
-- crates/roadsim-domain/src/project.rs.
use road_sim.Prelude.{ℕ, Option, Result, ok, ◌>>◌, reject_if, ltb}
use road_sim.Types.Units.{CoordinateMeters}
use road_sim.Domain.Text.{Text, is_blank, byte_length}
use road_sim.Domain.Catalog
use road_sim.Domain.Catalog.{DesignCatalog}
use road_sim.Domain.Scenario.{ScenarioError}
use road_sim.Domain.Study
use road_sim.Domain.Study.{StudyCatalog}
use road_sim.Domain.Rules
use road_sim.Domain.Rules.{RuleConfiguration}

pub data DomainErrorCode : Type 0 where
  empty_text text_too_long non_metric_engineering_crs : DomainErrorCode

pub record DomainError : Type 0 where
  pub code : DomainErrorCode
  pub field : Text

-- `BoundedText::<MAX>::try_new`
unfoldable pub bounded_text : ℕ → Text → Text → Result Text DomainError
unfolding is_blank byte_length
bounded_text max value field = do
  reject_if (is_blank value) (record { code = empty_text; field = field })
  reject_if (ltb max (byte_length value)) (record { code = text_too_long; field = field })
  ok value

pub record ProjectMetadata : Type 0 where
  pub name : Text

pub data CrsDefinition : Type 0 where
  authority : (authority_name code : Text) → CrsDefinition
  wkt : Text → CrsDefinition

pub data EngineeringUnit : Type 0 where
  metre degree foot : EngineeringUnit

pub record EngineeringCrsDescriptor : Type 0 where
  pub definition : CrsDefinition
  pub declared_unit : EngineeringUnit

pub data AxisOrder : Type 0 where
  east_north north_east : AxisOrder

pub record LocalOrigin : Type 0 where
  pub east_m : CoordinateMeters
  pub north_m : CoordinateMeters

-- A vertical datum is not specified, or named.
abbrev pub VerticalDatum : Type 0
VerticalDatum = Option Text

pub record CrsProvenance : Type 0 where
  pub source : Text
  pub transform_method : Text
  pub axis_order_decision : Text

pub record CoordinateReference : Type 0 where
  pub source : CrsDefinition
  pub engineering : EngineeringCrsDescriptor
  pub origin : LocalOrigin
  pub axis_order : AxisOrder
  pub vertical_datum : VerticalDatum
  pub provenance : CrsProvenance

pub record Project : Type 0 where
  pub id : ℕ
  pub metadata : ProjectMetadata
  pub coordinate_reference : CoordinateReference
  pub design_catalog : DesignCatalog
  pub study_catalog : StudyCatalog
  pub rule_configuration : RuleConfiguration

unfoldable pub with_catalog : ℕ → ProjectMetadata → CoordinateReference → DesignCatalog → Project
with_catalog id metadata coordinate_reference design_catalog = record {
  id = id;
  metadata = metadata;
  coordinate_reference = coordinate_reference;
  design_catalog = design_catalog;
  study_catalog = Study.empty;
  rule_configuration = Rules.unconfigured;
}

unfoldable pub new : ℕ → ProjectMetadata → CoordinateReference → Project
unfolding with_catalog
new id metadata coordinate_reference = with_catalog id metadata coordinate_reference Catalog.empty

unfoldable pub with_study_catalog : Project → StudyCatalog → Result Project ScenarioError
with_study_catalog project study_catalog = do
  Study.validate_against study_catalog project.design_catalog
  ok (record project { study_catalog = study_catalog })

unfoldable pub with_rule_configuration : Project → RuleConfiguration → Project
with_rule_configuration project rule_configuration = record project {
  rule_configuration = rule_configuration;
}
