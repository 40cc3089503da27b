-- ===== src/Commands/History/Atomic.antt =====
-- crates/roadsim-commands/src/lib.rs: the calls on the history, their errors, and the revisions.
use road_sim.Prelude.{◌+◌, ◌≡◌, refl, sym, ◌∙◌, List, [], ◌∷◌, Result, ok, err, ==_iff, arith}
use road_sim.Commands.Primitive.{InverseCommand, CommandError, Command, inverse}
use road_sim.Commands.State.{ModelState, ModelTransaction, Changed, CommandEnvelope}
use road_sim.Commands.State.Atomic.{
  IsAtomic, commit-IsAtomic, execute-IsAtomic, execute_envelope-IsAtomic,
}
use road_sim.Commands.History.{
  CommandHistory, Recorded, ensure_state, record_new, after_new, if_ensured, history_execute,
  history_execute_envelope, commit_transaction, after_undo, undo_last, undo, after_redo, redo_last,
  redo,
}

-- The history is the state's, as it is now.
pub record IsSynced (h : CommandHistory) (s : ModelState) : Type 0 where
  pub identity : h.state_identity ≡ s.identity
  pub revision : h.observed_revision ≡ s.revision

-- An error changes neither; a success moves the revision by one, keeps the identity, and the
-- history is the new state's.
unfoldable pub IsFollowed : CommandHistory → ModelState → Recorded → Type 0
IsFollowed h s (ok out, h', s') =
    IsSynced h' s'
    × (s'.revision ≡ s.revision + 1)
    × (s'.identity ≡ s.identity)
    × (h'.capacity ≡ h.capacity)
IsFollowed h s (err e, h', s') = (h' ≡ h) × (s' ≡ s)

ensured :
    (h : CommandHistory) (s : ModelState) {u : Unit {0}}
    → ensure_state h s ≡ ok u
    → (h.state_identity ≡ s.identity) × (h.observed_revision ≡ s.revision)
unfolding ensure_state
ensured h s e = ground arith

pub ensure_state-IsSynced :
    (h : CommandHistory) (s : ModelState) {u : Unit {0}} → ensure_state h s ≡ ok u → IsSynced h s
ensure_state-IsSynced h s e = record { identity = (ensured h s e).0; revision = (ensured h s e).1 }

pub ensure_state_of :
    (h : CommandHistory) (s : ModelState) → IsSynced h s → ensure_state h s ≡ ok tt
unfolding ensure_state
ensure_state_of h s synced = rw ((==_iff _ _).1 synced.identity, (==_iff _ _).1 synced.revision)

if_ensured-IsFollowed :
    (h : CommandHistory) (s : ModelState) (call : Recorded)
    → (IsSynced h s → IsFollowed h s call)
    → IsFollowed h s (if_ensured h s call)
unfolding IsFollowed
if_ensured-IsFollowed h s call f = by_result (ensure_state h s) refl
  where
    by_result :
        (r : Result (Unit {0}) CommandError)
        → ensure_state h s ≡ r
        → IsFollowed h s (elim r [ ok _ ↦ call | err e ↦ (err e, h, s) ])
    by_result (ok u) e = f (ensure_state-IsSynced h s e)
    by_result (err e) _ = (refl, refl)

module _ (h : CommandHistory) (s : ModelState) (synced : IsSynced h s) where
  after_new-IsFollowed : (x : Changed) → IsAtomic s x → IsFollowed h s (after_new h x)
  unfolding IsFollowed IsAtomic after_new record_new
  after_new-IsFollowed (ok out, s') a =
      (record { identity = synced.identity ∙ sym a.1; revision = refl }, a.0, a.1, refl)
  after_new-IsFollowed (err e, s') a = (refl, a)

  after_undo-IsFollowed :
      (us : List InverseCommand) (x : Changed) → IsAtomic s x → IsFollowed h s (after_undo h us x)
  unfolding IsFollowed IsAtomic after_undo
  after_undo-IsFollowed us (ok out, s') a =
      (record { identity = synced.identity ∙ sym a.1; revision = refl }, a.0, a.1, refl)
  after_undo-IsFollowed us (err e, s') a = (refl, a)

  after_redo-IsFollowed :
      (us : List InverseCommand) (x : Changed) → IsAtomic s x → IsFollowed h s (after_redo h us x)
  unfolding IsFollowed IsAtomic after_redo
  after_redo-IsFollowed us (ok out, s') a =
      (record { identity = synced.identity ∙ sym a.1; revision = refl }, a.0, a.1, refl)
  after_redo-IsFollowed us (err e, s') a = (refl, a)

  undo_last-IsFollowed : (us : List InverseCommand) → IsFollowed h s (undo_last h s us)
  unfolding IsFollowed undo_last
  undo_last-IsFollowed [] = (refl, refl)
  undo_last-IsFollowed (u ∷ us) = after_undo-IsFollowed us _ (execute-IsAtomic (inverse u) s)

  redo_last-IsFollowed : (us : List InverseCommand) → IsFollowed h s (redo_last h s us)
  unfolding IsFollowed redo_last
  redo_last-IsFollowed [] = (refl, refl)
  redo_last-IsFollowed (u ∷ us) = after_redo-IsFollowed us _ (execute-IsAtomic (inverse u) s)

pub history_execute-IsFollowed :
    (h : CommandHistory) (s : ModelState) (c : Command) → IsFollowed h s (history_execute h s c)
unfolding history_execute
history_execute-IsFollowed h s c =
    if_ensured-IsFollowed h s _ λ synced. after_new-IsFollowed h s synced _ (execute-IsAtomic c s)

pub history_execute_envelope-IsFollowed :
    (h : CommandHistory) (s : ModelState) (e : CommandEnvelope)
    → IsFollowed h s (history_execute_envelope h s e)
unfolding history_execute_envelope
history_execute_envelope-IsFollowed h s e =
    if_ensured-IsFollowed h s _
      λ synced. after_new-IsFollowed h s synced _ (execute_envelope-IsAtomic e s)

pub commit_transaction-IsFollowed :
    (h : CommandHistory) (s : ModelState) (t : ModelTransaction)
    → IsFollowed h s (commit_transaction h s t)
unfolding commit_transaction
commit_transaction-IsFollowed h s t =
    if_ensured-IsFollowed h s _ λ synced. after_new-IsFollowed h s synced _ (commit-IsAtomic t s)

pub undo-IsFollowed : (h : CommandHistory) (s : ModelState) → IsFollowed h s (undo h s)
unfolding undo
undo-IsFollowed h s = if_ensured-IsFollowed h s _ λ synced. undo_last-IsFollowed h s synced h.undo

pub redo-IsFollowed : (h : CommandHistory) (s : ModelState) → IsFollowed h s (redo h s)
unfolding redo
redo-IsFollowed h s = if_ensured-IsFollowed h s _ λ synced. redo_last-IsFollowed h s synced h.redo

-- Whatever is called on the history and the state, an error changes neither of them, and a success
-- moves the revision by one, keeps the identity of the state and the capacity, and leaves the
-- history in step with the new state.
pub calls-IsFollowed :
    (h : CommandHistory) (s : ModelState)
    → ((c : Command) → IsFollowed h s (history_execute h s c))
      × ((e : CommandEnvelope) → IsFollowed h s (history_execute_envelope h s e))
      × ((t : ModelTransaction) → IsFollowed h s (commit_transaction h s t))
      × IsFollowed h s (undo h s)
      × IsFollowed h s (redo h s)
calls-IsFollowed h s = (
  history_execute-IsFollowed h s,
  history_execute_envelope-IsFollowed h s,
  commit_transaction-IsFollowed h s,
  undo-IsFollowed h s,
  redo-IsFollowed h s,
)
