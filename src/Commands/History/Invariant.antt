-- ===== src/Commands/History/Invariant.antt =====
-- crates/roadsim-commands/src/lib.rs: the calls on a history whose commands fit its state.
use road_sim.Prelude.{
  ℕ, ◌≡◌, refl, sym, subst, List, [], ◌∷◌, Result, ok, err, Bool, true, false, not, ◌==◌,
  if◌then◌else◌,
}
use road_sim.Commands.Primitive.{InverseCommand, CommandError, Command, inverse}
use road_sim.Commands.State.{ModelState, Changed, CommandEnvelope, execute, execute_envelope}
use road_sim.Commands.State.Valid.{IsValid}
use road_sim.Commands.State.Atomic.{IsAtomic-err, execute-IsAtomic}
use road_sim.Commands.State.Moves.{execute-Moves, Moves-IsValid, Moves-unique}
use road_sim.Commands.History.{
  CommandHistory, Recorded, record_new, ensure_state, if_ensured, after_new, history_execute,
  history_execute_envelope, after_undo, undo_last, undo, after_redo, redo_last, redo, new,
}
use road_sim.Commands.History.Linked.{Linked, IsLinked, push_bounded-Linked}

-- The history and the state that a call leaves.
abbrev pub IsLinkedAfter : Recorded → Type 0
IsLinkedAfter (r, h, s) = IsLinked h s

pub new-IsLinked : (s : ModelState) (n : ℕ) → IsValid s.project → IsLinked (new s n) s
unfolding new Linked
new-IsLinked s n valid = record { valid = valid; undo = tt; redo = tt }

module _ (h : CommandHistory) (s : ModelState) (linked : IsLinked h s) where
  if_ensured-IsLinked : (call : Recorded) → IsLinkedAfter call → IsLinkedAfter (if_ensured h s call)
  if_ensured-IsLinked call kept = by_result (ensure_state h s)
    where
      by_result :
          (r : Result (Unit {0}) CommandError)
          → IsLinkedAfter (elim r [ ok _ ↦ call | err e ↦ (err e, h, s) ])
      by_result (ok u) = kept
      by_result (err e) = linked

  unchanged : (s' : ModelState) → s' ≡ s → IsLinked h s'
  unchanged s' e = subst (IsLinked h) (sym e) linked

  after_new-IsLinked : (c : Command) (x : Changed) → execute c s ≡ x → IsLinkedAfter (after_new h x)
  unfolding after_new record_new Linked
  after_new-IsLinked c (ok out, s') e =
      let m = execute-Moves c s e in
      record {
        valid = Moves-IsValid c s.project s'.project out m;
        undo =
            push_bounded-Linked h.undo h.capacity c s.project s'.project out m linked.valid
              linked.undo;
        redo = tt;
      }
  after_new-IsLinked c (err f, s') e =
      unchanged s' (IsAtomic-err s (execute c s) (execute-IsAtomic c s) e)

  undo_last-IsLinked :
      (us : List InverseCommand) → Linked us s.project → IsLinkedAfter (undo_last h s us)
  unfolding undo_last Linked after_undo
  undo_last-IsLinked [] l = linked
  undo_last-IsLinked (u ∷ us) (q, out, m, valid, l) = by_result (execute (inverse u) s) refl
    where
      by_result : (x : Changed) → execute (inverse u) s ≡ x → IsLinkedAfter (after_undo h us x)
      by_result (err f, s') e =
          unchanged s' (IsAtomic-err s (execute (inverse u) s) (execute-IsAtomic (inverse u) s) e)
      by_result (ok done, s') e =
          let n = execute-Moves (inverse u) s e in
          record {
            valid = Moves-IsValid (inverse u) s.project s'.project done n;
            undo = subst (Linked us) (Moves-unique (inverse u) s.project m n).1 l;
            redo =
                push_bounded-Linked h.redo h.capacity (inverse u) s.project s'.project done n
                  linked.valid linked.redo;
          }

  redo_last-IsLinked :
      (us : List InverseCommand) → Linked us s.project → IsLinkedAfter (redo_last h s us)
  unfolding redo_last Linked after_redo
  redo_last-IsLinked [] l = linked
  redo_last-IsLinked (u ∷ us) (q, out, m, valid, l) = by_result (execute (inverse u) s) refl
    where
      by_result : (x : Changed) → execute (inverse u) s ≡ x → IsLinkedAfter (after_redo h us x)
      by_result (err f, s') e =
          unchanged s' (IsAtomic-err s (execute (inverse u) s) (execute-IsAtomic (inverse u) s) e)
      by_result (ok done, s') e =
          let n = execute-Moves (inverse u) s e in
          record {
            valid = Moves-IsValid (inverse u) s.project s'.project done n;
            redo = subst (Linked us) (Moves-unique (inverse u) s.project m n).1 l;
            undo =
                push_bounded-Linked h.undo h.capacity (inverse u) s.project s'.project done n
                  linked.valid linked.undo;
          }

  pub history_execute-IsLinked : (c : Command) → IsLinkedAfter (history_execute h s c)
  unfolding history_execute
  history_execute-IsLinked c = if_ensured-IsLinked _ (after_new-IsLinked c (execute c s) refl)

  pub history_execute_envelope-IsLinked :
      (e : CommandEnvelope) → IsLinkedAfter (history_execute_envelope h s e)
  unfolding history_execute_envelope execute_envelope after_new
  history_execute_envelope-IsLinked e =
      if_ensured-IsLinked _
        (by_test _ _ (s.identity == e.target_identity) (e.expected_revision == s.revision))
    where
      by_test :
          (f g : CommandError) (a b : Bool)
          → IsLinkedAfter (
              after_new h
                (if not a then (err f, s) else if not b then (err g, s) else execute e.command s))
      by_test f g true true = after_new-IsLinked e.command (execute e.command s) refl
      by_test f g true false = linked
      by_test f g false b = linked

  pub undo-IsLinked : IsLinkedAfter (undo h s)
  unfolding undo
  undo-IsLinked = if_ensured-IsLinked _ (undo_last-IsLinked h.undo linked.undo)

  pub redo-IsLinked : IsLinkedAfter (redo h s)
  unfolding redo
  redo-IsLinked = if_ensured-IsLinked _ (redo_last-IsLinked h.redo linked.redo)
