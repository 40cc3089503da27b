-- ===== src/Backend/Fake/Repeats.antt =====
-- crates/roadsim-backend-fake/src/lib.rs: control commands that come again after other calls.
use road_sim.Prelude.{
  ℕ, suc, ◌+◌, ◌≤◌, ◌≡◌, refl, ap, Bool, true, false, inl, inr, Bool-cases, List, [], ◌∷◌, Option,
  none, some, Result, ok, err, length, leb, ◌==◌, if◌then◌else◌, arith,
}
use road_sim.Backend.Api.{BackendError, SessionState, is_terminal, ControlKind, ControlCommand, Ack}
use road_sim.Backend.Fake.{
  Remembered, get, insert, FakeSession, terminal_error, remember, control_new, control_known,
  control, next_frame, next_event, cancel, is_paused,
}
use road_sim.Backend.Fake.Controls.{duplicate_ack, control-duplicate, control-IsRemembered}
use road_sim.Backend.Fake.Run.{length-insert}

-- Another key is still remembered as it was.
get-insert_other :
    (key other : ℕ) (kind : ControlKind) (m : Remembered)
    → (other == key) ≡ false
    → get (insert other kind m) key ≡ get m key
get-insert_other key other kind [] ne = rw ne refl
get-insert_other key other kind ((k, old) ∷ m) ne =
    ground (arith, get-insert_other key other kind m ne)

-- A call of any kind on a session.
pub data Call : Type 0 where
  sends : ControlCommand → Call
  polls cancels : Call

-- How many of the calls are control commands.
unfoldable pub commands_in : List Call → ℕ
commands_in [] = 0
commands_in (sends command ∷ calls) = suc (commands_in calls)
commands_in (polls ∷ calls) = commands_in calls
commands_in (cancels ∷ calls) = commands_in calls

-- A key is remembered, and there is room for more.
record IsKept (key : ℕ) (kind : ControlKind) (room : ℕ) (m : Remembered) : Type 0 where
  known : get m key ≡ some kind
  fits : length m + room ≤ 64

remember-IsKept :
    (key : ℕ) (kind : ControlKind) (room : ℕ) (m : Remembered) (command : ControlCommand)
    → get m command.idempotency_key ≡ none
    → IsKept key kind (suc room) m
    → IsKept key kind room (remember m command)
unfolding remember
remember-IsKept key kind room m command new kept =
    let not_full : leb 64 (length m) ≡ false = ground (arith, kept.fits) in
    let longer = length-insert command.idempotency_key command.kind m in
    elim (Bool-cases (command.idempotency_key == key)) [
      | inl same ↦
          let one_key : command.idempotency_key ≡ key = ground (arith, same) in
          cc (new, ap (get m) one_key, kept.known)
      | inr other ↦ record {
        known =
            rw (not_full, get-insert_other key command.idempotency_key command.kind m other)
              kept.known;
        fits = rw not_full (omega (arith, longer, kept.fits));
      }
    ]

less_room :
    (room key : ℕ) (kind : ControlKind) (m : Remembered)
    → IsKept key kind (suc room) m
    → IsKept key kind room m
less_room room key kind m kept = record { known = kept.known; fits = omega (arith, kept.fits) }

module _ (room : ℕ) (key : ℕ) (kind : ControlKind) where
  after-if :
      {A : Type 0} (test : Bool) (x y : A × FakeSession)
      → IsKept key kind room x.1.idempotency
      → IsKept key kind room y.1.idempotency
      → IsKept key kind room (if test then x else y).1.idempotency
  after-if true x y h k = h
  after-if false x y h k = k

  control_new-IsKept :
      (s : FakeSession) (command : ControlCommand) (o : Option SessionState)
      → get s.idempotency command.idempotency_key ≡ none
      → IsKept key kind (suc room) s.idempotency
      → IsKept key kind room (control_new s command o).1.idempotency
  unfolding control_new
  control_new-IsKept s command none new kept = less_room room key kind s.idempotency kept
  control_new-IsKept s command (some t) new kept =
      remember-IsKept key kind room s.idempotency command new kept

  control_known-IsKept :
      (s : FakeSession) (command : ControlCommand) (o : Option ControlKind)
      → get s.idempotency command.idempotency_key ≡ o
      → IsKept key kind (suc room) s.idempotency
      → IsKept key kind room (control_known s command o).1.idempotency
  unfolding control_known
  control_known-IsKept s command none new kept = control_new-IsKept s command _ new kept
  control_known-IsKept s command (some previous) known kept =
      less_room room key kind s.idempotency kept

  control-IsKept :
      (s : FakeSession) (command : ControlCommand)
      → IsKept key kind (suc room) s.idempotency
      → IsKept key kind room (control s command).1.idempotency
  unfolding control
  control-IsKept s command kept =
      after-if (is_terminal s.state) _ _ (less_room room key kind s.idempotency kept)
        (control_known-IsKept s command _ refl kept)

  cancel-IsKept :
      (s : FakeSession)
      → IsKept key kind room s.idempotency
      → IsKept key kind room (cancel s).1.idempotency
  unfolding cancel
  cancel-IsKept s kept = after-if (is_terminal s.state) _ _ kept kept

  next_event-IsKept :
      {Frame : Type 0} (frame : ℕ → Result Frame BackendError) (s : FakeSession)
      → IsKept key kind room s.idempotency
      → IsKept key kind room (next_event frame s).1.idempotency
  unfolding next_event next_frame
  next_event-IsKept frame s kept = after-if (is_terminal s.state) _ _ kept (
      after-if s.pending_state_event _ _ kept (
        after-if (is_paused s.state) _ _ kept
          (after-if (leb s.run.duration_ticks s.next_tick) _ _ kept kept)))

over-control :
    (t : FakeSession) (command : ControlCommand)
    → is_terminal t.state ≡ true
    → control t command ≡ (err terminal_error, t)
unfolding control
over-control t command over = rw over refl

known-control :
    (t : FakeSession) (command : ControlCommand)
    → get t.idempotency command.idempotency_key ≡ some command.kind
    → control t command
      ≡ (if is_terminal t.state then err terminal_error else ok (duplicate_ack command), t)
known-control t command known = elim (Bool-cases (is_terminal t.state)) [
  | inl over ↦ rw over (over-control t command over)
  | inr active ↦ rw active (control-duplicate t command active known)
]

module _ {Frame : Type 0} (frame : ℕ → Result Frame BackendError) where
  unfoldable pub after_call : FakeSession → Call → FakeSession
  after_call s (sends command) = (control s command).1
  after_call s polls = (next_event frame s).1
  after_call s cancels = (cancel s).1

  unfoldable pub after_calls : FakeSession → List Call → FakeSession
  unfolding after_call
  after_calls s [] = s
  after_calls s (call ∷ calls) = after_calls (after_call s call) calls

  after_calls-IsKept :
      (key : ℕ) (kind : ControlKind) (calls : List Call) (s : FakeSession)
      → IsKept key kind (commands_in calls) s.idempotency
      → IsKept key kind 0 (after_calls s calls).idempotency
  unfolding after_calls after_call commands_in
  after_calls-IsKept key kind [] s kept = kept
  after_calls-IsKept key kind (sends command ∷ calls) s kept =
      after_calls-IsKept key kind calls (control s command).1
        (control-IsKept (commands_in calls) key kind s command kept)
  after_calls-IsKept key kind (polls ∷ calls) s kept =
      after_calls-IsKept key kind calls (next_event frame s).1
        (next_event-IsKept (commands_in calls) key kind frame s kept)
  after_calls-IsKept key kind (cancels ∷ calls) s kept =
      after_calls-IsKept key kind calls (cancel s).1
        (cancel-IsKept (commands_in calls) key kind s kept)

  -- A command that a session has acknowledged and that is sent again after any further calls, where the
  -- keys remembered at the acknowledgement and the control commands sent since are together at most
  -- 64, changes nothing, and is acknowledged as a duplicate or, if the session is over by then,
  -- refused.
  pub control-later :
      (s s' : FakeSession) (command : ControlCommand) (ack : Ack) (calls : List Call)
      → control s command ≡ (ok ack, s')
      → length s'.idempotency + commands_in calls ≤ 64
      → control (after_calls s' calls) command ≡ (
        if is_terminal (after_calls s' calls).state
            then err terminal_error
            else ok (record { sequence = command.sequence; duplicate = true }),
        after_calls s' calls,
      )
  control-later s s' command ack calls sent few =
      let known = (control-IsRemembered s s' command ack sent).known in
      let kept =
        after_calls-IsKept command.idempotency_key command.kind calls s'
          (record { known = known; fits = few }) in
      known-control (after_calls s' calls) command kept.known
