-- ===== src/Commands/State/Undo.antt =====
-- A command that succeeded, and the execution of its inverse.
use road_sim.Prelude.{
  ◌+◌, ◌<◌, ◌≡◌, sym, ap, ap₂, ◌∙◌, fun_ext, ◌≢◌, List, [], ◌∷◌, ok, some, sort_by_key,
}
use mathlib.Core.List.{append-nil}
use road_sim.Prelude.Keyed.{find-sort_by_key, sort_by_key-eq_of_find, Distinct, IsStrict-Distinct}
use road_sim.Domain.Corridor.{Corridor, key}
use road_sim.Domain.Design.{replace_corridors}
use road_sim.Domain.Design.Laws.{replace_corridors-sort}
use road_sim.Commands.Primitive.{
  CommandOutcome, no_outcome, merge, Command, primitive, inverse, apply, apply_inverse,
}
use road_sim.Commands.Primitive.Store.{perform_all}
use road_sim.Commands.Primitive.Sequence.{perform_all-inverse}
use road_sim.Commands.Primitive.Refinement.{view, view-IsKeyed}
use road_sim.Commands.Primitive.Apply.{
  operations, apply-Agrees, Agrees-ok, Agrees-some, Ran, inverse-ne-nil,
}
use road_sim.Commands.State.{ModelState, max_revision, execute}
use road_sim.Commands.State.Valid.{
  IsValid, rebuilt-IsValid, corridors_of_rebuilt, replaced_back, rebuilt_back,
}
use road_sim.Commands.State.Execute.{corridors_of, Executed, execute-eq-ok, execute_of}

-- An empty sequence of operations is refused.
apply-operations :
    (c : Command) (m n : List Corridor) (out : CommandOutcome)
    → apply c m ≡ (ok out, n)
    → operations c ≢ []
unfolding apply apply_inverse
apply-operations (primitive o) m n out h = λ e. cc
apply-operations (inverse []) m n out h = cc
apply-operations (inverse (o ∷ os)) m n out h = λ e. cc

merge-inverse : (out : CommandOutcome) → (merge no_outcome out).inverse ≡ out.inverse
unfolding merge
merge-inverse out = append-nil out.inverse

module _ (c : Command) (s s' : ModelState) (out : CommandOutcome)
    (executed : execute c s ≡ (ok out, s')) where
  done : Executed c s out s'
  done = execute-eq-ok c s executed

  -- The project that a command publishes is valid, whatever project it was executed on.
  pub execute-IsValid : IsValid s'.project
  execute-IsValid =
      rebuilt-IsValid s.project s'.project done.working done.advanced.design done.advanced.replaced
        done.advanced.rebuilt

  out-inverse : out.inverse ≡ done.applied.inverse
  out-inverse = ap (λ (x : CommandOutcome). x.inverse) done.outcome ∙ merge-inverse done.applied

  some_work : operations c ≢ []
  some_work = apply-operations c (corridors_of s) done.working done.applied done.applies

  module _ (valid : IsValid s.project) where
    ran :
        (perform_all (operations c) (view (corridors_of s))
          ≡ some (done.applied.inverse, view done.working))
        × Distinct key done.working
    ran =
        Agrees-ok (apply c (corridors_of s)) _
          (apply-Agrees c (corridors_of s) some_work
            (IsStrict-Distinct key (corridors_of s) valid.strict))
          done.applies

    view-after : view (corridors_of s') ≡ view done.working
    view-after = fun_ext λ i.
        ap (λ m. view m i)
          (corridors_of_rebuilt s.project s'.project done.working done.advanced.design
            done.advanced.replaced done.advanced.rebuilt)
        ∙ find-sort_by_key key i done.working

    back :
        perform_all out.inverse (view (corridors_of s'))
        ≡ some (operations c, view (corridors_of s))
    back =
        ap₂ perform_all out-inverse view-after
        ∙ perform_all-inverse (operations c) (view (corridors_of s)) (view-IsKeyed (corridors_of s))
            ran.0

    inverse_work : out.inverse ≢ []
    inverse_work e =
        inverse-ne-nil (operations c) (view (corridors_of s)) some_work ran.0 (sym out-inverse ∙ e)

    ran_back :
        Ran (apply (inverse out.inverse) (corridors_of s')) (operations c) (view (corridors_of s))
    ran_back =
        Agrees-some (apply (inverse out.inverse) (corridors_of s')) _
          (apply-Agrees (inverse out.inverse) (corridors_of s') inverse_work
            (IsStrict-Distinct key (corridors_of s') execute-IsValid.strict))
          back

    restored : sort_by_key key ran_back.model ≡ corridors_of s
    restored =
        sort_by_key-eq_of_find key ran_back.model (corridors_of s) ran_back.distinct valid.strict
          (λ i. ap (λ f. f i) ran_back.shows)

    replaced :
        replace_corridors s'.project.design_catalog ran_back.model ≡ ok s.project.design_catalog
    replaced =
        sym (replace_corridors-sort s'.project.design_catalog ran_back.model)
        ∙ ap (replace_corridors s'.project.design_catalog) restored
        ∙ replaced_back s.project s'.project done.working done.advanced.design
            done.advanced.replaced done.advanced.rebuilt valid

    -- After a command that succeeded on a state with a valid project, and unless the revisions are
    -- used up, its inverse succeeds too: it restores the project, two revisions on, and the inverse
    -- of the inverse is the command's operations.
    pub execute-inverse :
        s'.revision < max_revision
        → (undone : CommandOutcome) × (execute (inverse out.inverse) s'
            ≡ (ok undone, record s { revision = s.revision + 1 + 1 }))
          × (undone.inverse ≡ operations c)
    execute-inverse room = (
      merge no_outcome ran_back.out,
      execute_of (inverse out.inverse) s' ran_back.out ran_back.model s.project.design_catalog
            s.project ran_back.ends room replaced
            (rebuilt_back s.project s'.project done.working done.advanced.design
              done.advanced.replaced done.advanced.rebuilt valid)
          ∙ ap₂
              (λ i r. (
                ok (merge no_outcome ran_back.out),
                record { project = s.project; revision = r + 1; identity = i },
              ))
              done.identity done.advanced.next,
      merge-inverse ran_back.out ∙ ran_back.inverses,
    )
