-- ===== src/Commands/History/Roundtrip.antt =====
-- `undo` after `execute`, `undo` on its own, and `redo` after `undo`.
use road_sim.Prelude.{
  ℕ, ◌+◌, ◌<◌, ◌≤◌, ◌≡◌, refl, sym, ap, subst, ◌∙◌, List, [], ◌∷◌, Result, ok, err, Bool, true,
  false, ◌==◌, length, if◌then◌else◌, arith, <→==-false,
}
use road_sim.Domain.Project.{Project}
use road_sim.Commands.Primitive.{InverseCommand, CommandOutcome, CommandError, Command, inverse}
use road_sim.Commands.Primitive.Apply.{operations}
use road_sim.Commands.State.{ModelState, Changed, max_revision, execute}
use road_sim.Commands.State.Valid.{IsValid}
use road_sim.Commands.State.Execute.{execute-eq-ok}
use road_sim.Commands.State.Moves.{Moves, execute-Moves, Moves-execute, Moves-inverse}
use road_sim.Commands.History.{
  CommandHistory, Recorded, observe, record_new, push_bounded, ensure_state, if_ensured, after_new,
  history_execute, after_undo, undo_last, undo, after_redo, redo_last, redo, pop_front,
}
use road_sim.Commands.History.Linked.{Linked, IsLinked}
use road_sim.Commands.History.Atomic.{IsSynced, ensure_state_of, ensure_state-IsSynced}

module _ (h : CommandHistory) (s : ModelState) where
  if_ensured_of : (call : Recorded) → IsSynced h s → if_ensured h s call ≡ call
  if_ensured_of call synced = rw (if_ensured, ensure_state_of h s synced)

  if_ensured-eq-ok :
      (call : Recorded) {out : CommandOutcome} {h' : CommandHistory} {s' : ModelState}
      → if_ensured h s call ≡ (ok out, h', s')
      → IsSynced h s × (call ≡ (ok out, h', s'))
  if_ensured-eq-ok call {out} {h'} {s'} = by_result (ensure_state h s) refl
    where
      by_result :
          (r : Result (Unit {0}) CommandError)
          → ensure_state h s ≡ r
          → elim r [ ok _ ↦ call | err e ↦ (err e, h, s) ] ≡ (ok out, h', s')
          → IsSynced h s × (call ≡ (ok out, h', s'))
      by_result (ok u) a b = (ensure_state-IsSynced h s a, b)
      by_result (err e) a b = cc

  after_new-eq-ok :
      (x : Changed) {out : CommandOutcome} {h' : CommandHistory} {s' : ModelState}
      → after_new h x ≡ (ok out, h', s')
      → (x ≡ (ok out, s')) × (h' ≡ record_new (observe h s') out.inverse)
  unfolding after_new
  after_new-eq-ok (ok o, t) e = (cc, cc)
  after_new-eq-ok (err f, t) e = (cc, cc)

  pub history_execute-eq-ok :
      (c : Command) {out : CommandOutcome} {h' : CommandHistory} {s' : ModelState}
      → history_execute h s c ≡ (ok out, h', s')
      → IsSynced h s × (execute c s ≡ (ok out, s')) × (h' ≡ record_new (observe h s') out.inverse)
  unfolding history_execute
  history_execute-eq-ok c e =
      let (synced, rest) = if_ensured-eq-ok (after_new h (execute c s)) e in
      let (ran, recorded) = after_new-eq-ok (execute c s) rest in (synced, ran, recorded)

  -- `undo` of a command that moves the state's project.
  pub undo_of :
      (u : InverseCommand) (us : List InverseCommand) (q : Project) (out : CommandOutcome)
      → h.undo ≡ u ∷ us
      → IsSynced h s
      → s.revision < max_revision
      → Moves (inverse u) s.project out q
      → undo h s ≡ after_undo h us (ok out, record s { project = q; revision = s.revision + 1 })
  unfolding undo undo_last
  undo_of u us q out e synced room m =
      if_ensured_of (undo_last h s h.undo) synced
      ∙ ap (undo_last h s) e
      ∙ ap (after_undo h us) (Moves-execute (inverse u) s m room)

  pub redo_of :
      (u : InverseCommand) (us : List InverseCommand) (q : Project) (out : CommandOutcome)
      → h.redo ≡ u ∷ us
      → IsSynced h s
      → s.revision < max_revision
      → Moves (inverse u) s.project out q
      → redo h s ≡ after_redo h us (ok out, record s { project = q; revision = s.revision + 1 })
  unfolding redo redo_last
  redo_of u us q out e synced room m =
      if_ensured_of (redo_last h s h.redo) synced
      ∙ ap (redo_last h s) e
      ∙ ap (after_redo h us) (Moves-execute (inverse u) s m room)

push_bounded-nil : (n : ℕ) (c : InverseCommand) → push_bounded [] n c ≡ c ∷ []
unfolding push_bounded pop_front
push_bounded-nil n c = by_test (length {A = InverseCommand} [] == n)
  where
    by_test : (b : Bool) → c ∷ (if b then pop_front [] else []) ≡ c ∷ []
    by_test true = refl
    by_test false = refl

-- Where there is room, nothing is dropped.
push_bounded-room :
    (us : List InverseCommand) (n : ℕ) (c : InverseCommand)
    → length us < n
    → push_bounded us n c ≡ c ∷ us
unfolding push_bounded
push_bounded-room us n c room = rw (<→==-false (length us) n room)

execute-step :
    (c : Command) (s : ModelState) {out : CommandOutcome} {s' : ModelState}
    → execute c s ≡ (ok out, s')
    → (s'.revision ≡ s.revision + 1) × (s'.identity ≡ s.identity)
execute-step c s e = ((execute-eq-ok c s e).advanced.next, (execute-eq-ok c s e).identity)

-- A command that the history executed on a valid state, with room in the history and one more
-- revision to spare, is undone: `undo` succeeds, restores the project and the list of commands to
-- undo, and leaves the operations of the command as the only ones to redo.
pub execute-undo :
    (h h' : CommandHistory) (s s' : ModelState) (c : Command) (out : CommandOutcome)
    → history_execute h s c ≡ (ok out, h', s')
    → IsValid s.project
    → length h.undo < h.capacity
    → s.revision + 1 < max_revision
    → (undone : CommandOutcome) × (undo h' s' ≡ (
      ok undone,
      record h { observed_revision = s.revision + 1 + 1; redo = operations c ∷ [] },
      record s { revision = s.revision + 1 + 1 },
    ))
unfolding record_new after_undo
execute-undo h h' s s' c out ran valid room left =
    let (synced, moved, recorded) = history_execute-eq-ok h s c ran in
    let (undone, back, redone) =
      Moves-inverse c s.project s'.project out (execute-Moves c s moved) valid in
    let (next, same) = execute-step c s moved in
    let synced' : IsSynced h' s' =
      subst (λ x. IsSynced x s') (sym recorded)
        (record { identity = synced.identity ∙ sym same; revision = refl }) in
    let pushed : h'.undo ≡ out.inverse ∷ h.undo =
      ap (λ (x : CommandHistory). x.undo) recorded
      ∙ push_bounded-room h.undo h.capacity out.inverse room in
    let undoes =
      undo_of h' s' out.inverse h.undo s.project undone pushed synced'
        (subst (λ r. r < max_revision) (sym next) left) back in
    (undone, undoes ∙ rw (recorded, next, same, push_bounded-nil h.capacity undone.inverse, redone))

-- On a history whose commands fit the state, with something to undo, room in both lists and two
-- more revisions to spare, `undo` succeeds and leaves a valid project, and `redo` after it succeeds
-- and restores the project and the history, two revisions on.
pub undo-redo :
    (h : CommandHistory) (s : ModelState) (u : InverseCommand) (us : List InverseCommand)
    → IsLinked h s
    → IsSynced h s
    → h.undo ≡ u ∷ us
    → length h.undo ≤ h.capacity
    → length h.redo < h.capacity
    → s.revision + 1 < max_revision
    → (out : CommandOutcome) × (q : Project) × (again : CommandOutcome) × IsValid q
      × (undo h s ≡ (
        ok out,
        record h { observed_revision = s.revision + 1; undo = us; redo = out.inverse ∷ h.redo },
        record s { project = q; revision = s.revision + 1 },
      ))
      × (redo
            (record h {
              observed_revision = s.revision + 1;
              undo = us;
              redo = out.inverse ∷ h.redo;
            })
            (record s { project = q; revision = s.revision + 1 })
          ≡ (
            ok again,
            record h { observed_revision = s.revision + 1 + 1 },
            record s { revision = s.revision + 1 + 1 },
          ))
unfolding Linked after_undo after_redo
undo-redo h s u us linked synced top full room left =
    let (q, out, m, valid, rest) = subst (λ x. Linked x s.project) top linked.undo in
    let (again, back, undone) = Moves-inverse (inverse u) s.project q out m linked.valid in
    let h1 : CommandHistory = record h {
      observed_revision = s.revision + 1;
      undo = us;
      redo = out.inverse ∷ h.redo;
    } in
    let s1 : ModelState = record s { project = q; revision = s.revision + 1 } in
    let synced1 : IsSynced h1 s1 = record { identity = synced.identity; revision = refl } in
    let fits : length us < h.capacity = omega (arith, full, ap (length {A = InverseCommand}) top) in
    (
      out,
      q,
      again,
      valid,
      undo_of h s u us q out top synced (omega (arith, left)) m
          ∙ ap
              (λ r.
                (ok out, record h { observed_revision = s.revision + 1; undo = us; redo = r }, s1))
              (push_bounded-room h.redo h.capacity out.inverse room),
      redo_of h1 s1 out.inverse h.redo s.project again refl synced1 left back
          ∙ ap
              (λ r. (
                ok again,
                record h { observed_revision = s.revision + 1 + 1; undo = r },
                record s { revision = s.revision + 1 + 1 },
              ))
              (push_bounded-room us h.capacity again.inverse fits
                ∙ ap (λ x. x ∷ us) undone
                ∙ sym top),
    )
