-- ===== src/Commands/History/Linked.antt =====
-- Histories whose commands fit the state: each one leads back to the project that the next fits.
use road_sim.Prelude.{ℕ, List, [], ◌∷◌, Bool, true, false, ◌==◌, length, if◌then◌else◌}
use road_sim.Domain.Project.{Project}
use road_sim.Commands.Primitive.{InverseCommand, CommandOutcome, Command, inverse}
use road_sim.Commands.State.{ModelState}
use road_sim.Commands.State.Valid.{IsValid}
use road_sim.Commands.State.Moves.{Moves, Moves-inverse}
use road_sim.Commands.History.{CommandHistory, pop_front, push_bounded}

-- The commands lead from the project, one after the other, through valid projects.
unfoldable pub Linked : List InverseCommand → Project → Type 0
Linked [] p = Unit
Linked (u ∷ us) p =
    (q : Project) × (out : CommandOutcome) × Moves (inverse u) p out q × IsValid q × Linked us q

pub record IsLinked (h : CommandHistory) (s : ModelState) : Type 0 where
  pub valid : IsValid s.project
  pub undo : Linked h.undo s.project
  pub redo : Linked h.redo s.project

pop_front-Linked : (us : List InverseCommand) (p : Project) → Linked us p → Linked (pop_front us) p
unfolding Linked pop_front
pop_front-Linked [] p l = tt
pop_front-Linked (u ∷ []) p l = tt
pop_front-Linked (u ∷ v ∷ us) p (q, out, m, valid, l) =
    (q, out, m, valid, pop_front-Linked (v ∷ us) q l)

-- A command that undoes a move, pushed on those that fit the project before it.
pub push_bounded-Linked :
    (us : List InverseCommand) (n : ℕ) (c : Command) (p q : Project) (out : CommandOutcome)
    → Moves c p out q
    → IsValid p
    → Linked us p
    → Linked (push_bounded us n out.inverse) q
unfolding Linked push_bounded
push_bounded-Linked us n c p q out m valid l =
    let (undone, back, _) = Moves-inverse c p q out m valid in
    (p, undone, back, valid, kept (length us == n))
  where
    kept : (b : Bool) → Linked (if b then pop_front us else us) p
    kept true = pop_front-Linked us p l
    kept false = l
