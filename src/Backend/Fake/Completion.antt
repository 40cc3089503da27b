-- ===== src/Backend/Fake/Completion.antt =====
-- A run that is only asked for events: its frames, and its end.
use road_sim.Prelude.{
  ℕ, suc, zero, ◌+◌, ◌-◌, ◌*◌, ◌^◌, ◌<◌, ◌≤◌, ◌≡◌, ap, subst, ◌∙◌, min, true, false, [], Result, ok,
  leb, arith,
}
use road_sim.Backend.Api.{BackendError, RunConfig, SessionState, BackendEvent}
use road_sim.Backend.Fake.{
  FakeSession, StoredArtifact, new, advance_tick, next_frame, next_event, framed,
}
use road_sim.Backend.Fake.Run.{advance_tick_eq, incremented}

-- A running session after that many frames.
abbrev pub after_frames : StoredArtifact → RunConfig → ℕ → FakeSession
after_frames artifact run n = record {
  artifact = artifact;
  run = run;
  state = SessionState.running;
  next_tick = min (n * run.step_ticks) run.duration_ticks;
  emitted_frames = n;
  pending_state_event = false;
  idempotency = [];
}

next_multiple : (n step d : ℕ) → min (n * step + step) d ≡ min ((n + 1) * step) d
next_multiple n step d = ground arith

first_tick : (step d : ℕ) → 0 ≡ min (0 * step) d
first_tick step d = ground arith

min-below : (a d : ℕ) → a < d → min a d ≡ a
min-below a d h = ground arith

leb-past : (a d : ℕ) → d ≤ a → leb d (min a d) ≡ true
leb-past a d h = ground arith

leb-below : (a d : ℕ) → a < d → leb d a ≡ false
leb-below a d h = ground arith

le_multiple : (n step : ℕ) → 0 < step → n ≤ n * step
le_multiple zero step some = omega arith
le_multiple (suc n) step some = omega (arith, le_multiple n step some, some)

-- The session after that many calls of `next_event`.
abbrev pub poll : {Frame : Type 0} → (ℕ → Result Frame BackendError) → ℕ → FakeSession → FakeSession
poll frame zero s = s
poll frame (suc n) s = (next_event frame (poll frame n s)).1

module _ {Frame : Type 0} (frame : ℕ → Result Frame BackendError) (artifact : StoredArtifact)
    (run : RunConfig) (some_step : 0 < run.step_ticks) (machine : run.duration_ticks < 2 ^ 64) where
  next_event-frame :
      (n : ℕ)
      → n * run.step_ticks < run.duration_ticks
      → next_event frame (after_frames artifact run n)
        ≡ (framed (frame (n * run.step_ticks)), after_frames artifact run (n + 1))
  unfolding next_event next_frame
  next_event-frame n below =
      let below_end : n < run.duration_ticks =
        omega (arith, le_multiple n run.step_ticks some_step, below) in
      let tick : advance_tick (n * run.step_ticks) run
          ≡ min ((n + 1) * run.step_ticks) run.duration_ticks =
        advance_tick_eq (n * run.step_ticks) run machine
        ∙ next_multiple n run.step_ticks run.duration_ticks in
      rw (
        min-below (n * run.step_ticks) run.duration_ticks below,
        leb-below (n * run.step_ticks) run.duration_ticks below,
        tick,
        incremented n run.duration_ticks below_end machine,
      )

  poll-new :
      (n : ℕ)
      → n * run.step_ticks < run.duration_ticks + run.step_ticks
      → poll frame (suc n) (new artifact run) ≡ after_frames artifact run n
  unfolding next_event new
  poll-new zero h =
      ap (λ tick. record (after_frames artifact run 0) { next_tick = tick })
        (first_tick run.step_ticks run.duration_ticks)
  poll-new (suc n) h =
      ap (λ s. (next_event frame s).1) (poll-new n (omega (arith, h)))
      ∙ ap (λ (x : Result (BackendEvent Frame) BackendError × FakeSession). x.1)
          (next_event-frame n (omega (arith, h)))
      ∙ ap (after_frames artifact run) (omega arith)

  next_event-end :
      (n : ℕ)
      → run.duration_ticks ≤ n * run.step_ticks
      → next_event frame (after_frames artifact run n) ≡ (
        ok (
            BackendEvent.completed (record {
              terminal_state = SessionState.completed;
              final_tick = run.duration_ticks;
              emitted_frames = n;
            })),
        record (after_frames artifact run n) { state = SessionState.completed },
      )
  unfolding next_event next_frame
  next_event-end n past = rw (leb-past (n * run.step_ticks) run.duration_ticks past)

  next_event-poll :
      (n : ℕ)
      → n * run.step_ticks < run.duration_ticks + run.step_ticks
      → (next_event frame (poll frame (suc n) (new artifact run))).0
        ≡ (next_event frame (after_frames artifact run n)).0
  next_event-poll n h = ap (λ s. (next_event frame s).0) (poll-new n h)

le_multiple_more : (k n step : ℕ) → n * step ≤ (k + n) * step
le_multiple_more zero n step = omega arith
le_multiple_more (suc k) n step = omega (arith, le_multiple_more k n step)

*-mono : (n m step : ℕ) → n ≤ m → n * step ≤ m * step
*-mono n m step a =
    let whole : m - n + n ≡ m = omega (arith, a) in
    subst (λ x. n * step ≤ x * step) whole (le_multiple_more (m - n) n step)

multiple_below : (n m step d : ℕ) → n ≤ m → m * step < d → n * step < d
multiple_below n m step d a b = omega (arith, b, *-mono n m step a)

-- With a positive step and a duration of 64 bits, a session that is only asked for events, `m + 1`
-- being the number of steps that the duration takes: after the event for its start, the call
-- numbered `n`, from 0, gives the frame at tick `n` times the step, for every `n` up to `m`, and the
-- call after the `m + 1` frames gives the completion, with the duration as its final tick and
-- `m + 1` as its number of frames.
pub run_completes :
    {Frame : Type 0} (frame : ℕ → Result Frame BackendError) (artifact : StoredArtifact)
    (run : RunConfig) (m n : ℕ)
    → 0 < run.step_ticks
    → run.duration_ticks < 2 ^ 64
    → m * run.step_ticks < run.duration_ticks
    → run.duration_ticks ≤ suc m * run.step_ticks
    → n ≤ m
    → ((next_event frame (poll frame (suc n) (new artifact run))).0
        ≡ framed (frame (n * run.step_ticks)))
      × ((next_event frame (poll frame (suc (suc m)) (new artifact run))).0
          ≡ ok (
              BackendEvent.completed (record {
                terminal_state = SessionState.completed;
                final_tick = run.duration_ticks;
                emitted_frames = suc m;
              })))
run_completes {Frame} frame artifact run m n some_step machine before past within =
    let below : n * run.step_ticks < run.duration_ticks =
      multiple_below n m run.step_ticks run.duration_ticks within before in
    (
      next_event-poll frame artifact run some_step machine n (omega (arith, below))
          ∙ ap (λ (x : Result (BackendEvent Frame) BackendError × FakeSession). x.0)
              (next_event-frame frame artifact run some_step machine n below),
      next_event-poll frame artifact run some_step machine (suc m) (omega (arith, before))
          ∙ ap (λ (x : Result (BackendEvent Frame) BackendError × FakeSession). x.0)
              (next_event-end frame artifact run some_step machine (suc m) past),
    )
