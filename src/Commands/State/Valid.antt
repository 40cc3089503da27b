-- ===== src/Commands/State/Valid.antt =====
-- Projects that the domain accepts, and their rebuilding.
use road_sim.Prelude.{
  ◌≡◌, sym, ap, ap₂, ◌∙◌, subst, List, ok, err, Result-cases, inl, inr, sort_by_key,
}
use road_sim.Prelude.Keyed.{IsStrict}
use road_sim.Types.Fault.{Fault}
use road_sim.Domain.Corridor.{Corridor, key}
use road_sim.Domain.Catalog.{DesignCatalog}
use road_sim.Domain.Scenario.{ScenarioErrorCode}
use road_sim.Domain.Study
use road_sim.Domain.Design.{replace_corridors}
use road_sim.Domain.Design.Laws.{
  replace_corridors-sort, replace_corridors-eq-ok, replace_corridors_again,
}
use road_sim.Domain.Project.{Project, with_catalog, with_study_catalog, with_rule_configuration}
use road_sim.Commands.State.{rebuild_project, broken_invariant}

-- The corridors stand in strict order, and the domain's own constructors give the project again.
pub record IsValid (p : Project) : Type 0 where
  pub strict : IsStrict key p.design_catalog.corridors
  pub stable : replace_corridors p.design_catalog p.design_catalog.corridors ≡ ok p.design_catalog
  pub studied : Study.validate_against p.study_catalog p.design_catalog ≡ ok tt

pub rebuild_project_of :
    (p : Project) (d : DesignCatalog)
    → Study.validate_against p.study_catalog d ≡ ok tt
    → rebuild_project p d ≡ ok (record p { design_catalog = d })
unfolding rebuild_project with_catalog with_study_catalog with_rule_configuration
rebuild_project_of p d h = rw h

rebuild_project_refused :
    (p : Project) (d : DesignCatalog) {f : Fault ScenarioErrorCode}
    → Study.validate_against p.study_catalog d ≡ err f
    → rebuild_project p d ≡ err (broken_invariant f)
unfolding rebuild_project with_catalog with_study_catalog with_rule_configuration
rebuild_project_refused p d h = rw h

pub rebuild_project-eq-ok :
    (p : Project) (d : DesignCatalog) {q : Project}
    → rebuild_project p d ≡ ok q
    → (q ≡ record p { design_catalog = d }) × (Study.validate_against p.study_catalog d ≡ ok tt)
unfolding rebuild_project with_catalog with_study_catalog with_rule_configuration
rebuild_project-eq-ok p d {q} h = elim (Result-cases (Study.validate_against p.study_catalog d)) [
  | inl (tt, e) ↦ (cc (rebuild_project_of p d e), e)
  | inr (f, e) ↦ cc (rebuild_project_refused p d e)
]

module _ (p q : Project) (cs : List Corridor) (d : DesignCatalog)
    (replaced : replace_corridors p.design_catalog cs ≡ ok d)
    (rebuilt : rebuild_project p d ≡ ok q) where
  -- What a commit makes of the corridors.
  pub corridors_of_rebuilt : q.design_catalog.corridors ≡ sort_by_key key cs
  corridors_of_rebuilt =
      ap (λ (x : Project). x.design_catalog.corridors) (rebuild_project-eq-ok p d rebuilt).0
      ∙ ap (λ (x : DesignCatalog). x.corridors)
          (replace_corridors-eq-ok p.design_catalog cs replaced).0

  design_of_rebuilt : q.design_catalog ≡ d
  design_of_rebuilt = ap (λ (x : Project). x.design_catalog) (rebuild_project-eq-ok p d rebuilt).0

  replaced_again :
      (ds : List Corridor)
      → replace_corridors q.design_catalog ds ≡ replace_corridors p.design_catalog ds
  replaced_again ds =
      ap (λ x. replace_corridors x ds) design_of_rebuilt
      ∙ replace_corridors_again p.design_catalog cs ds replaced

  rebuilt_again : (e : DesignCatalog) → rebuild_project q e ≡ rebuild_project p e
  unfolding rebuild_project with_catalog with_study_catalog with_rule_configuration
  rebuilt_again e = rw (rebuild_project-eq-ok p d rebuilt).0

  -- What a commit publishes is valid.
  pub rebuilt-IsValid : IsValid q
  rebuilt-IsValid = record {
    strict =
        subst (IsStrict key) (sym corridors_of_rebuilt)
          (replace_corridors-eq-ok p.design_catalog cs replaced).1;
    stable =
        replaced_again q.design_catalog.corridors
        ∙ ap (replace_corridors p.design_catalog) corridors_of_rebuilt
        ∙ replace_corridors-sort p.design_catalog cs
        ∙ replaced
        ∙ ap ok (sym design_of_rebuilt);
    studied =
        ap₂ Study.validate_against
          (ap (λ (x : Project). x.study_catalog) (rebuild_project-eq-ok p d rebuilt).0)
          design_of_rebuilt
        ∙ (rebuild_project-eq-ok p d rebuilt).1;
  }

  -- From what a commit published, a valid project is restored by its corridors.
  pub replaced_back :
      IsValid p
      → replace_corridors q.design_catalog p.design_catalog.corridors ≡ ok p.design_catalog
  replaced_back v = replaced_again p.design_catalog.corridors ∙ v.stable

  pub rebuilt_back : IsValid p → rebuild_project q p.design_catalog ≡ ok p
  rebuilt_back v = rebuilt_again p.design_catalog ∙ rebuild_project_of p p.design_catalog v.studied
