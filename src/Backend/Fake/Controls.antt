-- ===== src/Backend/Fake/Controls.antt =====
-- Commands to a session, and the keys under which it remembers them.
use road_sim.Prelude.{
  ℕ, ◌≡◌, refl, sym, ap, ◌∙◌, subst, Bool, true, false, [], ◌∷◌, Option, none, some, ok, err, ltb,
  ◌==◌, ==-refl, if◌then◌else◌,
}
use road_sim.Backend.Api.{SessionState, is_terminal, ControlKind, kind_eq, ControlCommand, Ack}
use road_sim.Backend.Fake.{
  Remembered, get, insert, FakeSession, terminal_error, conflict_error, next_state, Controlled,
  remember, control_new, control_known, control,
}

get-insert :
    (key : ℕ) (kind : ControlKind) (m : Remembered) → get (insert key kind m) key ≡ some kind
get-insert key kind [] = rw (==-refl key)
get-insert key kind ((k, old) ∷ m) = by_tests (get-insert key kind m) (ltb key k) (k == key) refl
  where
    by_tests :
        get (insert key kind m) key ≡ some kind
        → (a b : Bool) → (k == key) ≡ b
        → get
            (if a
              then (key, kind) ∷ (k, old) ∷ m
              else if b
              then (key, kind) ∷ m
              else (k, old) ∷ insert key kind m)
            key
          ≡ some kind
    by_tests below true b e = rw (==-refl key)
    by_tests below false true e = rw (==-refl key)
    by_tests below false false e = rw (e, below)

kind_eq_refl : (kind : ControlKind) → kind_eq kind kind ≡ true
kind_eq_refl ControlKind.pause = refl
kind_eq_refl ControlKind.resume = refl

abbrev active_or_none : Option SessionState → Bool
active_or_none none = false
active_or_none (some t) = is_terminal t

next_state-active :
    (s : SessionState) (kind : ControlKind) {t : SessionState}
    → next_state s kind ≡ some t
    → is_terminal t ≡ false
next_state-active SessionState.running ControlKind.pause e = sym (ap active_or_none e)
next_state-active SessionState.running ControlKind.resume e = cc
next_state-active SessionState.paused ControlKind.resume e = sym (ap active_or_none e)
next_state-active SessionState.paused ControlKind.pause e = cc
next_state-active SessionState.completed kind e = cc
next_state-active SessionState.cancelled kind e = cc
next_state-active SessionState.failed kind e = cc

abbrev pub duplicate_ack : ControlCommand → Ack
duplicate_ack command = record { sequence = command.sequence; duplicate = true }

-- A command whose key is remembered with its kind, on a session that is not over.
pub control-duplicate :
    (s : FakeSession) (command : ControlCommand)
    → is_terminal s.state ≡ false
    → get s.idempotency command.idempotency_key ≡ some command.kind
    → control s command ≡ (ok (duplicate_ack command), s)
unfolding control control_known
control-duplicate s command active known = rw (active, known, kind_eq_refl command.kind)

-- The command is remembered, and the session is not over.
pub record IsRemembered (s : FakeSession) (command : ControlCommand) : Type 0 where
  pub known : get s.idempotency command.idempotency_key ≡ some command.kind
  pub active : is_terminal s.state ≡ false

control_new-IsRemembered :
    (s : FakeSession) (command : ControlCommand) (o : Option SessionState) {ack : Ack}
    {s' : FakeSession}
    → next_state s.state command.kind ≡ o
    → control_new s command o ≡ (ok ack, s')
    → IsRemembered s' command
unfolding control_new remember
control_new-IsRemembered s command none next e = cc
control_new-IsRemembered s command (some t) {ack} {s'} next e = record {
  known =
      ap (λ (x : FakeSession). get x.idempotency command.idempotency_key) (sym after)
      ∙ get-insert command.idempotency_key command.kind _;
  active =
      ap (λ (x : FakeSession). is_terminal x.state) (sym after)
      ∙ next_state-active s.state command.kind next;
}
  where
    after :
        record s {
          state = t;
          idempotency = remember s.idempotency command;
          pending_state_event = true;
        }
        ≡ s'
    after = cc e

kind_eq-eq : (a b : ControlKind) → kind_eq a b ≡ true → a ≡ b
kind_eq-eq ControlKind.pause ControlKind.pause e = refl
kind_eq-eq ControlKind.resume ControlKind.resume e = refl
kind_eq-eq ControlKind.pause ControlKind.resume e = cc
kind_eq-eq ControlKind.resume ControlKind.pause e = cc

control_known-IsRemembered :
    (s : FakeSession) (command : ControlCommand) (o : Option ControlKind) {ack : Ack}
    {s' : FakeSession}
    → is_terminal s.state ≡ false
    → get s.idempotency command.idempotency_key ≡ o
    → control_known s command o ≡ (ok ack, s')
    → IsRemembered s' command
unfolding control_known
control_known-IsRemembered s command none active known e =
    control_new-IsRemembered s command _ refl e
control_known-IsRemembered s command (some previous) {ack} {s'} active known e =
    by_test (kind_eq previous command.kind) refl e
  where
    answer : Bool → Controlled
    answer b = (if b then ok (duplicate_ack command) else err conflict_error, s)

    by_test :
        (b : Bool)
        → kind_eq previous command.kind ≡ b
        → answer b ≡ (ok ack, s')
        → IsRemembered s' command
    by_test true same h =
        let kept : s ≡ s' = cc h in
        subst (λ x. IsRemembered x command) kept
          (record {
            known = known ∙ ap some (kind_eq-eq previous command.kind same);
            active = active;
          })
    by_test false same h = cc

pub control-IsRemembered :
    (s s' : FakeSession) (command : ControlCommand) (ack : Ack)
    → control s command ≡ (ok ack, s')
    → IsRemembered s' command
unfolding control
control-IsRemembered s s' command ack e = by_test (is_terminal s.state) refl e
  where
    by_test :
        (b : Bool)
        → is_terminal s.state ≡ b
        → (if b
            then (err terminal_error, s)
            else control_known s command (get s.idempotency command.idempotency_key))
          ≡ (ok ack, s')
        → IsRemembered s' command
    by_test true over h = cc
    by_test false active h = control_known-IsRemembered s command _ active refl h

-- A command that a session has acknowledged, sent again at once, is acknowledged as a duplicate and
-- changes nothing.
pub control-again :
    (s s' : FakeSession) (command : ControlCommand) (ack : Ack)
    → control s command ≡ (ok ack, s')
    → control s' command ≡ (ok (record { sequence = command.sequence; duplicate = true }), s')
control-again s s' command ack e =
    let remembered = control-IsRemembered s s' command ack e in
    control-duplicate s' command remembered.active remembered.known
