-- ===== src/Commands/History/Session.antt =====
-- Sequences of calls on a history and its state.
use road_sim.Prelude.{ℕ, ◌+◌, ◌<◌, ◌≡◌, refl, List, [], ◌∷◌, ok, err, arith, sym, subst, subst₂}
use road_sim.Commands.Primitive.{InverseCommand, CommandOutcome, Command}
use road_sim.Domain.Project.{Project}
use road_sim.Commands.State.{ModelState, CommandEnvelope, max_revision}
use road_sim.Commands.State.Valid.{IsValid}
use road_sim.Commands.History.{
  CommandHistory, Recorded, history_execute, history_execute_envelope, undo, redo, new,
  push_bounded, after_undo,
}
use road_sim.Commands.History.Roundtrip.{undo_of}
use road_sim.Commands.History.Linked.{IsLinked, Linked}
use road_sim.Commands.History.Atomic.{
  IsSynced, IsFollowed, history_execute-IsFollowed, history_execute_envelope-IsFollowed,
  undo-IsFollowed, redo-IsFollowed,
}
use road_sim.Commands.History.Bounds.{IsBounded, IsBoundedAfter, calls-IsBounded}
use road_sim.Commands.History.Invariant.{
  IsLinkedAfter, new-IsLinked, history_execute-IsLinked, history_execute_envelope-IsLinked,
  undo-IsLinked, redo-IsLinked,
}

-- What a user of the history calls.
pub data Call : Type 0 where
  run_command : Command → Call
  run_envelope : CommandEnvelope → Call
  run_undo : Call
  run_redo : Call

unfoldable pub run : Call → CommandHistory → ModelState → Recorded
run (Call.run_command c) h s = history_execute h s c
run (Call.run_envelope e) h s = history_execute_envelope h s e
run Call.run_undo h s = undo h s
run Call.run_redo h s = redo h s

abbrev pub left_by : Recorded → CommandHistory × ModelState
left_by (r, h, s) = (h, s)

unfoldable pub run_all : List Call → CommandHistory × ModelState → CommandHistory × ModelState
unfolding run
run_all [] x = x
run_all (call ∷ calls) (h, s) = run_all calls (left_by (run call h s))

-- The commands of the history fit the state, which it follows, within the capacity.
pub record IsReady (h : CommandHistory) (s : ModelState) : Type 0 where
  pub linked : IsLinked h s
  pub synced : IsSynced h s
  pub bounded : IsBounded h

abbrev pub AreReady : CommandHistory × ModelState → Type 0
AreReady (h, s) = IsReady h s

new-IsReady : (s : ModelState) (n : ℕ) → IsValid s.project → 0 < n → IsReady (new s n) s
unfolding new
new-IsReady s n valid some_capacity = record {
  linked = new-IsLinked s n valid;
  synced = record { identity = refl; revision = refl };
  bounded = record { some_capacity = some_capacity; undo = omega arith; redo = omega arith };
}

-- What the three invariants leave.
ready_after :
    (h : CommandHistory) (s : ModelState) (r : Recorded)
    → IsSynced h s
    → IsLinkedAfter r
    → IsFollowed h s r
    → IsBoundedAfter r
    → AreReady (left_by r)
unfolding IsFollowed
ready_after h s (ok out, h', s') synced linked (synced', _, _, _) bounded = record {
  linked = linked;
  synced = synced';
  bounded = bounded;
}
ready_after h s (err e, h', s') synced linked (a, b) bounded = record {
  linked = linked;
  synced = subst₂ IsSynced (sym a) (sym b) synced;
  bounded = bounded;
}

run-IsReady :
    (call : Call) (h : CommandHistory) (s : ModelState)
    → IsReady h s
    → AreReady (left_by (run call h s))
unfolding run
run-IsReady (Call.run_command c) h s r =
    ready_after h s _ r.synced (history_execute-IsLinked h s r.linked c)
      (history_execute-IsFollowed h s c) ((calls-IsBounded h s r.bounded).0 c)
run-IsReady (Call.run_envelope e) h s r =
    ready_after h s _ r.synced (history_execute_envelope-IsLinked h s r.linked e)
      (history_execute_envelope-IsFollowed h s e) ((calls-IsBounded h s r.bounded).1 e)
run-IsReady Call.run_undo h s r =
    ready_after h s _ r.synced (undo-IsLinked h s r.linked) (undo-IsFollowed h s)
      (calls-IsBounded h s r.bounded).3
run-IsReady Call.run_redo h s r =
    ready_after h s _ r.synced (redo-IsLinked h s r.linked) (redo-IsFollowed h s)
      (calls-IsBounded h s r.bounded).4

run_all-IsReady :
    (calls : List Call) (h : CommandHistory) (s : ModelState)
    → IsReady h s
    → AreReady (run_all calls (h, s))
unfolding run_all
run_all-IsReady [] h s r = r
run_all-IsReady (call ∷ calls) h s r =
    let (h', s') = left_by (run call h s) in run_all-IsReady calls h' s' (run-IsReady call h s r)

-- From a new history of a valid state, with a capacity that is not zero, any sequence of commands,
-- envelopes, undos and redos, some of which may fail, leaves a valid state, a history in step with
-- it and within its capacity, and commands to undo and redo that each lead to a valid project on
-- which the next one succeeds.
pub session-IsReady :
    (calls : List Call) (s : ModelState) (n : ℕ)
    → IsValid s.project
    → 0 < n
    → AreReady (run_all calls (new s n, s))
session-IsReady calls s n valid some_capacity =
    run_all-IsReady calls (new s n) s (new-IsReady s n valid some_capacity)

-- After any sequence of commands, envelopes, undos and redos on a new history of a valid state, with
-- a capacity that is not zero, `undo` succeeds whenever there is a command to undo and a revision to
-- spare: it leaves a valid project and one command less to undo.
pub session-undo :
    (calls : List Call) (s : ModelState) (n : ℕ) (h : CommandHistory) (t : ModelState)
    (u : InverseCommand) (us : List InverseCommand)
    → IsValid s.project
    → 0 < n
    → run_all calls (new s n, s) ≡ (h, t)
    → h.undo ≡ u ∷ us
    → t.revision < max_revision
    → (out : CommandOutcome) × (q : Project) × IsValid q
      × (undo h t ≡ (
        ok out,
        record h {
          observed_revision = t.revision + 1;
          undo = us;
          redo = push_bounded h.redo h.capacity out.inverse;
        },
        record t { project = q; revision = t.revision + 1 },
      ))
unfolding Linked after_undo
session-undo calls s n h t u us valid some_capacity reached top room =
    let ready : IsReady h t =
      subst AreReady reached (session-IsReady calls s n valid some_capacity) in
    let (q, out, m, valid', rest) = subst (λ x. Linked x t.project) top ready.linked.undo in
    (out, q, valid', undo_of h t u us q out top ready.synced room m)
