-- ===== src/Backend/Fake/Run.antt =====
-- A session's ticks, frames and remembered keys.
use road_sim.Prelude.{
  ℕ, suc, ◌+◌, ◌^◌, ◌%◌, ◌<◌, ◌≤◌, ◌≡◌, refl, min, Bool, true, false, [], ◌∷◌, Option, none, some,
  Result, ok, err, length, ltb, leb, ◌==◌, if◌then◌else◌, arith,
}
use road_sim.Backend.Api.{
  BackendError, RunConfig, SessionState, is_terminal, ControlKind, ControlCommand, BackendEvent,
}
use road_sim.Backend.Fake.{
  Remembered, pop_first, insert, FakeSession, terminal_error, lifecycle_error, next_state, remember,
  control_new, control_known, control, advance_tick, next_frame, next_event, cancel, is_paused,
  framed,
}

-- The run is one that `RunConfig::new` accepts, in machine numbers; no tick is past its end, no more
-- frames than ticks went out, and the keys are at most 64.
pub record IsConsistent (s : FakeSession) : Type 0 where
  pub some_step : 0 < s.run.step_ticks
  pub machine : s.run.duration_ticks < 2 ^ 64
  pub within : s.next_tick ≤ s.run.duration_ticks
  pub emitted : s.emitted_frames ≤ s.next_tick
  pub remembered : length s.idempotency ≤ 64

pub advance_tick_eq :
    (tick : ℕ) (run : RunConfig)
    → run.duration_ticks < 2 ^ 64
    → advance_tick tick run ≡ min (tick + run.step_ticks) run.duration_ticks
unfolding advance_tick
advance_tick_eq tick run machine = ground arith

pub length-insert :
    (key : ℕ) (kind : ControlKind) (m : Remembered) → length (insert key kind m) ≤ suc (length m)
length-insert key kind [] = omega arith
length-insert key kind ((k, old) ∷ m) = by_tests (length-insert key kind m) (ltb key k) (k == key)
  where
    by_tests :
        length (insert key kind m) ≤ suc (length m)
        → (a b : Bool)
        → length (
            if a
            then (key, kind) ∷ (k, old) ∷ m
            else if b
            then (key, kind) ∷ m
            else (k, old) ∷ insert key kind m)
          ≤ suc (suc (length m))
    by_tests rest true b = omega arith
    by_tests rest false true = omega arith
    by_tests rest false false = omega (arith, rest)

not_full : (n : ℕ) → n ≤ 64 → leb 64 n ≡ false → n < 64
not_full n fits e = ground arith

length-pop_first : (m : Remembered) → length m ≤ 64 → length (pop_first m) < 64
length-pop_first [] fits = omega arith
length-pop_first (x ∷ m) fits = omega (arith, fits)

length-remember :
    (m : Remembered) (command : ControlCommand) → length m ≤ 64 → length (remember m command) ≤ 64
unfolding remember
length-remember m command fits = by_test (leb 64 (length m)) refl
  where
    by_test :
        (b : Bool)
        → leb 64 (length m) ≡ b
        → length (insert command.idempotency_key command.kind (if b then pop_first m else m)) ≤ 64
    by_test true e = omega (
      arith,
      length-insert command.idempotency_key command.kind (pop_first m),
      length-pop_first m fits,
    )
    by_test false e =
        omega
          (arith, length-insert command.idempotency_key command.kind m, not_full (length m) fits e)

next_within : (tick d step : ℕ) → 0 < step → tick < d → (tick < min (tick + step) d)
next_within tick d step a b = ground arith

pub incremented : (n d : ℕ) → n < d → d < 2 ^ 64 → (n + 1) % 2 ^ 64 ≡ n + 1
incremented n d a b = ground arith

-- The session that a call leaves.
abbrev pub session_of : {A : Type 0} → Result A BackendError × FakeSession → FakeSession
session_of (r, s) = s

either_way :
    {A : Type 0} (b : Bool) (x y : Result A BackendError × FakeSession)
    → (b ≡ true → IsConsistent (session_of x))
    → (b ≡ false → IsConsistent (session_of y))
    → IsConsistent (session_of (if b then x else y))
either_way true x y f g = f refl
either_way false x y f g = g refl

not_ended : (d tick : ℕ) → leb d tick ≡ false → tick < d
not_ended d tick e = ground arith

module _ {Frame : Type 0} (frame : ℕ → Result Frame BackendError) where
  control_known-IsConsistent :
      (s : FakeSession) (command : ControlCommand) (o : Option ControlKind)
      → IsConsistent s
      → IsConsistent (control_known s command o).1
  unfolding control_known control_new
  control_known-IsConsistent s command (some previous) c = c
  control_known-IsConsistent s command none c = by_next (next_state s.state command.kind)
    where
      by_next : (o : Option SessionState) → IsConsistent (control_new s command o).1
      by_next none = c
      by_next (some t) = record {
        some_step = c.some_step;
        machine = c.machine;
        within = c.within;
        emitted = c.emitted;
        remembered = length-remember s.idempotency command c.remembered;
      }

  control-IsConsistent :
      (s : FakeSession) (command : ControlCommand)
      → IsConsistent s
      → IsConsistent (session_of (control s command))
  unfolding control
  control-IsConsistent s command c =
      either_way (is_terminal s.state) (err terminal_error, s) _ (λ _. c)
        (λ _. control_known-IsConsistent s command _ c)

  next_frame-IsConsistent :
      (s : FakeSession) → IsConsistent s → IsConsistent (session_of (next_frame frame s))
  unfolding next_frame
  next_frame-IsConsistent s c =
      either_way (leb s.run.duration_ticks s.next_tick) (ok _, ended) (framed _, advanced)
        (λ _. record {
          some_step = c.some_step;
          machine = c.machine;
          within = c.within;
          emitted = c.emitted;
          remembered = c.remembered;
        })
        (λ e. record {
          some_step = c.some_step;
          machine = c.machine;
          within = omega (arith, tick);
          emitted = omega (
            arith,
            tick,
            next_within s.next_tick s.run.duration_ticks s.run.step_ticks c.some_step
                (not_ended _ _ e),
            incremented s.emitted_frames s.run.duration_ticks
                (omega (arith, not_ended _ _ e, c.emitted)) c.machine,
            c.emitted,
          );
          remembered = c.remembered;
        })
    where
      ended : FakeSession
      ended = record s { state = SessionState.completed }

      advanced : FakeSession
      advanced = record s {
        next_tick = advance_tick s.next_tick s.run;
        emitted_frames = (s.emitted_frames + 1) % 2 ^ 64;
      }

      tick :
          advance_tick s.next_tick s.run ≡ min (s.next_tick + s.run.step_ticks) s.run.duration_ticks
      tick = advance_tick_eq s.next_tick s.run c.machine

  next_event-IsConsistent :
      (s : FakeSession) → IsConsistent s → IsConsistent (session_of (next_event frame s))
  unfolding next_event
  next_event-IsConsistent s c =
      either_way (is_terminal s.state) (err terminal_error, s) _ (λ _. c)
        λ _.
          either_way s.pending_state_event (ok (BackendEvent.state_changed s.state), announced) _
            (λ _. record {
              some_step = c.some_step;
              machine = c.machine;
              within = c.within;
              emitted = c.emitted;
              remembered = c.remembered;
            })
            λ _.
              either_way (is_paused s.state) (err lifecycle_error, s) _ (λ _. c)
                (λ _. next_frame-IsConsistent s c)
    where
      announced : FakeSession
      announced = record s { pending_state_event = false }

  cancel-IsConsistent : (s : FakeSession) → IsConsistent s → IsConsistent (session_of (cancel s))
  unfolding cancel
  cancel-IsConsistent s c =
      either_way (is_terminal s.state) (err terminal_error, s) (ok _, stopped) (λ _. c)
        (λ _. record {
          some_step = c.some_step;
          machine = c.machine;
          within = c.within;
          emitted = c.emitted;
          remembered = c.remembered;
        })
    where
      stopped : FakeSession
      stopped = record s { state = SessionState.cancelled }

  -- A session that is consistent, so that its ticks are within the run, its frames at most its ticks
  -- and its remembered keys at most 64, stays so whatever is called on it and whatever the frames are.
  pub calls-IsConsistent :
      (s : FakeSession)
      → IsConsistent s
      → ((command : ControlCommand) → IsConsistent (session_of (control s command)))
        × IsConsistent (session_of (next_event frame s))
        × IsConsistent (session_of (cancel s))
  calls-IsConsistent s c = (
    λ command. control-IsConsistent s command c,
    next_event-IsConsistent s c,
    cancel-IsConsistent s c,
  )
