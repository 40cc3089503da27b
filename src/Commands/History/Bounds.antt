-- ===== src/Commands/History/Bounds.antt =====
-- crates/roadsim-commands/src/lib.rs: the capacity of the history and the length of its lists.
use road_sim.Prelude.{
  ℕ, suc, ◌<◌, ◌≤◌, ◌≡◌, refl, ap, List, [], ◌∷◌, Result, ok, err, Bool, true, false, ◌==◌, ==_iff,
  length, if◌then◌else◌, arith,
}
use road_sim.Commands.Primitive.{InverseCommand, CommandError, Command, inverse}
use road_sim.Commands.State.{
  ModelState, ModelTransaction, Changed, CommandEnvelope, execute, execute_envelope, commit,
}
use road_sim.Commands.History.{
  CommandHistory, Recorded, pop_front, push_bounded, record_new, ensure_state, if_ensured,
  after_new, history_execute, history_execute_envelope, commit_transaction, after_undo, undo_last,
  undo, after_redo, redo_last, redo,
}

-- The capacity is not zero (`NonZeroUsize`), and neither list is longer.
pub record IsBounded (h : CommandHistory) : Type 0 where
  pub some_capacity : 0 < h.capacity
  pub undo : length h.undo ≤ h.capacity
  pub redo : length h.redo ≤ h.capacity

abbrev pub IsBoundedAfter : Recorded → Type 0
IsBoundedAfter (r, h, s) = IsBounded h

length-pop_front :
    (c : InverseCommand) (us : List InverseCommand) → length (pop_front (c ∷ us)) ≡ length us
unfolding pop_front
length-pop_front c [] = refl
length-pop_front c (d ∷ us) = ap suc (length-pop_front d us)

not_full : (a n : ℕ) → (a == n) ≡ false → a ≤ n → a < n
not_full a n e h = ground arith

length-dropped :
    (us : List InverseCommand) (n : ℕ) → 0 < n → length us ≡ n → length (pop_front us) < n
unfolding pop_front
length-dropped [] n some_capacity e = some_capacity
length-dropped (c ∷ us) n some_capacity e = omega (arith, e, length-pop_front c us)

length-push_bounded :
    (us : List InverseCommand) (n : ℕ) (c : InverseCommand)
    → 0 < n
    → length us ≤ n
    → length (push_bounded us n c) ≤ n
unfolding push_bounded
length-push_bounded us n c some_capacity fits = by_test (length us == n) refl
  where
    by_test : (b : Bool) → (length us == n) ≡ b → length (c ∷ (if b then pop_front us else us)) ≤ n
    by_test true e = omega (arith, length-dropped us n some_capacity ((==_iff _ _).0 e))
    by_test false e = omega (arith, not_full (length us) n e fits)

module _ (h : CommandHistory) (bounded : IsBounded h) where
  if_ensured-IsBounded :
      (s : ModelState) (call : Recorded)
      → IsBoundedAfter call
      → IsBoundedAfter (if_ensured h s call)
  if_ensured-IsBounded s call kept = by_result (ensure_state h s)
    where
      by_result :
          (r : Result (Unit {0}) CommandError)
          → IsBoundedAfter (elim r [ ok _ ↦ call | err e ↦ (err e, h, s) ])
      by_result (ok u) = kept
      by_result (err e) = bounded

  after_new-IsBounded : (x : Changed) → IsBoundedAfter (after_new h x)
  unfolding after_new record_new
  after_new-IsBounded (ok out, s') = record {
    some_capacity = bounded.some_capacity;
    undo = length-push_bounded h.undo h.capacity out.inverse bounded.some_capacity bounded.undo;
    redo = omega arith;
  }
  after_new-IsBounded (err e, s') = bounded

  undo_last-IsBounded :
      (s : ModelState) (us : List InverseCommand)
      → length us ≤ h.capacity
      → IsBoundedAfter (undo_last h s us)
  unfolding undo_last after_undo
  undo_last-IsBounded s [] fits = bounded
  undo_last-IsBounded s (u ∷ us) fits = by_result (execute (inverse u) s)
    where
      by_result : (x : Changed) → IsBoundedAfter (after_undo h us x)
      by_result (ok out, s') = record {
        some_capacity = bounded.some_capacity;
        undo = omega (arith, fits);
        redo = length-push_bounded h.redo h.capacity out.inverse bounded.some_capacity bounded.redo;
      }
      by_result (err e, s') = bounded

  redo_last-IsBounded :
      (s : ModelState) (us : List InverseCommand)
      → length us ≤ h.capacity
      → IsBoundedAfter (redo_last h s us)
  unfolding redo_last after_redo
  redo_last-IsBounded s [] fits = bounded
  redo_last-IsBounded s (u ∷ us) fits = by_result (execute (inverse u) s)
    where
      by_result : (x : Changed) → IsBoundedAfter (after_redo h us x)
      by_result (ok out, s') = record {
        some_capacity = bounded.some_capacity;
        redo = omega (arith, fits);
        undo = length-push_bounded h.undo h.capacity out.inverse bounded.some_capacity bounded.undo;
      }
      by_result (err e, s') = bounded

-- Whatever is called on a history within its capacity, with whatever result, leaves it within its
-- capacity.
pub calls-IsBounded :
    (h : CommandHistory) (s : ModelState)
    → IsBounded h
    → ((c : Command) → IsBoundedAfter (history_execute h s c))
      × ((e : CommandEnvelope) → IsBoundedAfter (history_execute_envelope h s e))
      × ((t : ModelTransaction) → IsBoundedAfter (commit_transaction h s t))
      × IsBoundedAfter (undo h s)
      × IsBoundedAfter (redo h s)
unfolding history_execute history_execute_envelope commit_transaction undo redo
calls-IsBounded h s bounded = (
  λ c. if_ensured-IsBounded h bounded s _ (after_new-IsBounded h bounded (execute c s)),
  λ e. if_ensured-IsBounded h bounded s _ (after_new-IsBounded h bounded (execute_envelope e s)),
  λ t. if_ensured-IsBounded h bounded s _ (after_new-IsBounded h bounded (commit t s)),
  if_ensured-IsBounded h bounded s _ (undo_last-IsBounded h bounded s h.undo bounded.undo),
  if_ensured-IsBounded h bounded s _ (redo_last-IsBounded h bounded s h.redo bounded.redo),
)
