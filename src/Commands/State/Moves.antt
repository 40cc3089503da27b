-- ===== src/Commands/State/Moves.antt =====
-- What a command does to a project, whatever state holds it: the part of `execute` that does not
-- depend on the revision.
use road_sim.Prelude.{◌+◌, ◌<◌, ◌≡◌, sym, ap, ◌∙◌, List, ok, arith}
use road_sim.Domain.Corridor.{Corridor}
use road_sim.Domain.Catalog.{DesignCatalog}
use road_sim.Domain.Design.{replace_corridors}
use road_sim.Domain.Project.{Project}
use road_sim.Commands.Primitive.{CommandOutcome, no_outcome, merge, Command, inverse, apply}
use road_sim.Commands.Primitive.Apply.{operations}
use road_sim.Commands.State.{ModelState, max_revision, rebuild_project, with_revision, execute}
use road_sim.Commands.State.Valid.{IsValid}
use road_sim.Commands.State.Execute.{execute-eq-ok, execute_of}
use road_sim.Commands.State.Undo.{execute-IsValid, execute-inverse}

pub record Moves (c : Command) (p : Project) (out : CommandOutcome) (q : Project) : Type 0 where
  pub applied : CommandOutcome
  pub working : List Corridor
  pub design : DesignCatalog
  pub applies : apply c p.design_catalog.corridors ≡ (ok applied, working)
  pub outcome : out ≡ merge no_outcome applied
  pub replaced : replace_corridors p.design_catalog working ≡ ok design
  pub rebuilt : rebuild_project p design ≡ ok q

pub execute-Moves :
    (c : Command) (s : ModelState) {out : CommandOutcome} {s' : ModelState}
    → execute c s ≡ (ok out, s')
    → Moves c s.project out s'.project
execute-Moves c s h =
    let done = execute-eq-ok c s h in
    record {
      applied = done.applied;
      working = done.working;
      design = done.advanced.design;
      applies = done.applies;
      outcome = done.outcome;
      replaced = done.advanced.replaced;
      rebuilt = done.advanced.rebuilt;
    }

pub Moves-execute :
    (c : Command) (s : ModelState) {out : CommandOutcome} {q : Project}
    → Moves c s.project out q
    → s.revision < max_revision
    → execute c s ≡ (ok out, record s { project = q; revision = s.revision + 1 })
Moves-execute c s {out} {q} m room =
    execute_of c s m.applied m.working m.design q m.applies room m.replaced m.rebuilt
    ∙ ap (λ o. (ok o, record s { project = q; revision = s.revision + 1 })) (sym m.outcome)

module _ (c : Command) (p q : Project) (out : CommandOutcome) (m : Moves c p out q) where
  started : execute c (with_revision 0 p 0) ≡ (ok out, with_revision 0 q 1)
  started = Moves-execute c (with_revision 0 p 0) m (omega arith)

  pub Moves-IsValid : IsValid q
  Moves-IsValid = execute-IsValid c (with_revision 0 p 0) (with_revision 0 q 1) out started

  pub Moves-inverse :
      IsValid p
      → (undone : CommandOutcome) × Moves (inverse out.inverse) q undone p
        × (undone.inverse ≡ operations c)
  Moves-inverse valid =
      let (undone, ran, back) =
        execute-inverse c (with_revision 0 p 0) (with_revision 0 q 1) out started valid
          (omega arith) in
      (undone, execute-Moves (inverse out.inverse) (with_revision 0 q 1) ran, back)

-- The project before and the command decide the outcome and the project after.
pub Moves-unique :
    (c : Command) (p : Project) {out out' : CommandOutcome} {q q' : Project}
    → Moves c p out q
    → Moves c p out' q'
    → (out ≡ out') × (q ≡ q')
Moves-unique c p m m' = (cc, cc)
