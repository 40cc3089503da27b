-- ===== src/Commands/Primitive/Apply.antt =====
-- A command, whichever implements the trait, as a sequence of primitive commands on the store.
use mathlib.Core.List.{append-nil}
use road_sim.Prelude.{
  ◌≡◌, refl, sym, ap, ap₂, ◌∙◌, subst, ◌≢◌, List, [], ◌∷◌, ◌++◌, Option, none, some, ok, err,
}
use road_sim.Prelude.Keyed.{Distinct}
use road_sim.Domain.Corridor.{Corridor, key}
use road_sim.Commands.Primitive.{
  PrimitiveCommand, InverseCommand, CommandOutcome, no_outcome, Applied, Command, primitive,
  inverse, apply, apply_primitive, apply_inverse, run_operations,
}
use road_sim.Commands.Primitive.Store.{Store, perform, go_on, perform_all}
use road_sim.Commands.Primitive.Sequence.{perform_all-cons}
use road_sim.Commands.Primitive.Refinement.{
  view, Agrees, one, onto, apply_primitive-Agrees, run_operations-Agrees,
}

abbrev pub operations : Command → InverseCommand
operations (primitive o) = o ∷ []
operations (inverse os) = os

one-go_on : (r : Option (PrimitiveCommand × Store)) → one r ≡ go_on r (λ g. perform_all [] g)
unfolding perform_all
one-go_on none = refl
one-go_on (some (i, g)) = refl

onto-nil : (r : Option (InverseCommand × Store)) → onto [] r ≡ r
onto-nil none = refl
onto-nil (some (is, g)) = ap (λ js. some (js, g)) (append-nil is)

-- On a working list that holds no identifier twice, a command with an operation in it ends as the
-- map of its corridors by identifier promises: it fails where one of its operations has no result
-- on that map, and otherwise its list shows the map after them all, holds no identifier twice, and
-- its inverse is the inverses of the operations in the opposite order.
pub apply-Agrees :
    (c : Command) (m : List Corridor)
    → operations c ≢ []
    → Distinct key m
    → Agrees (apply c m) (perform_all (operations c) (view m))
unfolding apply apply_inverse perform_all
apply-Agrees (primitive o) m some_work d =
    subst (Agrees (apply_primitive o m)) (one-go_on (perform o (view m)))
      (apply_primitive-Agrees o m d)
apply-Agrees (inverse []) m some_work d = absurd (some_work refl)
apply-Agrees (inverse (o ∷ os)) m some_work d =
    subst (Agrees (run_operations (o ∷ os) no_outcome m)) (onto-nil _)
      (run_operations-Agrees (o ∷ os) no_outcome m d)

pub Agrees-ok :
    (a : Applied) (r : Option (InverseCommand × Store)) {out : CommandOutcome} {m : List Corridor}
    → Agrees a r
    → a ≡ (ok out, m)
    → (r ≡ some (out.inverse, view m)) × Distinct key m
Agrees-ok (ok o, n) none h e = absurd h
Agrees-ok (ok o, n) (some (is, g)) {out} {m} h e =
    let same : n ≡ m = cc e in
    let same_out : o ≡ out = cc e in
    (
      ap₂ (λ js f. some (js, f)) (sym h.0 ∙ ap (λ x. x.inverse) same_out) (sym h.2 ∙ ap view same),
      subst (Distinct key) same h.1,
    )
Agrees-ok (err e', n) r h e = cc

-- A run that the store allows, with what it leaves.
pub record Ran (a : Applied) (is : InverseCommand) (g : Store) : Type 0 where
  pub out : CommandOutcome
  pub model : List Corridor
  pub ends : a ≡ (ok out, model)
  pub inverses : out.inverse ≡ is
  pub distinct : Distinct key model
  pub shows : view model ≡ g

pub Agrees-some :
    (a : Applied) (r : Option (InverseCommand × Store)) {is : InverseCommand} {g : Store}
    → Agrees a r
    → r ≡ some (is, g)
    → Ran a is g
Agrees-some (ok o, n) none h e = absurd h
Agrees-some (ok o, n) (some (js, f)) h e = record {
  out = o;
  model = n;
  ends = refl;
  inverses = h.0 ∙ cc e;
  distinct = h.1;
  shows = h.2 ∙ cc e;
}
Agrees-some (err e', n) none h e = cc
Agrees-some (err e', n) (some _) h e = absurd h

-- The inverse of a command with an operation has one too.
pub inverse-ne-nil :
    (os : InverseCommand) (f : Store) {is : InverseCommand} {g : Store}
    → os ≢ []
    → perform_all os f ≡ some (is, g)
    → is ≢ []
inverse-ne-nil [] f some_work h e = some_work refl
inverse-ne-nil (o ∷ os) f {is} {g} some_work h e =
    let p = perform_all-cons o os f {is = is} {h = g} h in
    snoc-ne-nil p.rest p.first (cc (p.inverses, e))
  where
    snoc-ne-nil : (js : InverseCommand) (i : PrimitiveCommand) → js ++ i ∷ [] ≢ []
    snoc-ne-nil [] i h = cc
    snoc-ne-nil (j ∷ js) i h = cc
