-- ===== src/Commands/State/Execute.antt =====
-- `execute`: when it succeeds, and what it leaves.
use road_sim.Prelude.{
  ℕ, ◌+◌, ◌<◌, ◌≡◌, refl, sym, ap, ◌∙◌, subst₂, List, [], Result, ok, err, >>=-eq-ok, map_err,
  map_err-eq-ok, ok_or, arith, lt→ltb, ==-refl,
}
use road_sim.Domain.Corridor.{Corridor}
use road_sim.Domain.Catalog.{DesignCatalog}
use road_sim.Domain.Design.{replace_corridors}
use road_sim.Domain.Project.{Project}
use road_sim.Commands.Primitive.{
  CommandOutcome, CommandError, CommandErrorCode, no_outcome, merge, Command, Applied, apply,
}
use road_sim.Types.Fault.{fault}
use road_sim.Commands.State.{
  ModelState, max_revision, checked_next, rebuild_project, broken_invariant, next_project,
  published, publish, execute,
}

abbrev pub corridors_of : ModelState → List Corridor
corridors_of s = s.project.design_catalog.corridors

-- A command that succeeds on the working list is published as far as the domain accepts it.
execute_applied :
    (c : Command) (s : ModelState) (out : CommandOutcome) (m : List Corridor)
    → apply c (corridors_of s) ≡ (ok out, m)
    → execute c s ≡ publish (merge no_outcome out) s (next_project s.project m s.revision)
unfolding execute published
execute_applied c s out m h = rw (h, ==-refl s.identity, ==-refl s.revision)

execute_refused :
    (c : Command) (s : ModelState) (e : CommandError) (m : List Corridor)
    → apply c (corridors_of s) ≡ (err e, m)
    → execute c s ≡ (err e, s)
unfolding execute
execute_refused c s e m h = rw h

next_project_of :
    (p q : Project) (m : List Corridor) (d : DesignCatalog) (r : ℕ)
    → r < max_revision
    → replace_corridors p.design_catalog m ≡ ok d
    → rebuild_project p d ≡ ok q
    → next_project p m r ≡ ok (q, r + 1)
unfolding next_project checked_next
next_project_of p q m d r room replaced rebuilt = rw (lt→ltb r max_revision room, replaced, rebuilt)

-- What `next_project` has done where it succeeds.
pub record Advanced (p : Project) (m : List Corridor) (r : ℕ) (q : Project) (r' : ℕ) : Type 0 where
  pub design : DesignCatalog
  pub replaced : replace_corridors p.design_catalog m ≡ ok design
  pub rebuilt : rebuild_project p design ≡ ok q
  pub room : r < max_revision
  pub next : r' ≡ r + 1

checked_next-eq-ok :
    (r n : ℕ) (e : CommandError)
    → ok_or (checked_next r) e ≡ ok n
    → (r < max_revision) × (n ≡ r + 1)
unfolding checked_next
checked_next-eq-ok r n e h = ground arith

pub next_project-eq-ok :
    (p : Project) (m : List Corridor) (r : ℕ) {q : Project} {r' : ℕ}
    → next_project p m r ≡ ok (q, r')
    → Advanced p m r q r'
unfolding next_project
next_project-eq-ok p m r {q} {r'} h =
    let (n, a, rest) =
      >>=-eq-ok (ok_or (checked_next r) (fault CommandErrorCode.revision_overflow [])) _ h in
    let (room, next) = checked_next-eq-ok r n (fault CommandErrorCode.revision_overflow []) a in
    let (d, b, rest') =
      >>=-eq-ok (map_err broken_invariant (replace_corridors p.design_catalog m)) _ rest in
    let (x, e, last) = >>=-eq-ok (rebuild_project p d) _ rest' in
    record {
      design = d;
      replaced = map_err-eq-ok broken_invariant (replace_corridors p.design_catalog m) b;
      rebuilt = e ∙ ap ok (cc last);
      room = room;
      next = cc (last, next);
    }

-- What a command that succeeded has done.
pub record Executed (c : Command) (s : ModelState) (out : CommandOutcome) (s' : ModelState)
    : Type 0 where
  pub working : List Corridor
  pub applied : CommandOutcome
  pub applies : apply c (corridors_of s) ≡ (ok applied, working)
  pub outcome : out ≡ merge no_outcome applied
  pub advanced : Advanced s.project working s.revision s'.project s'.revision
  pub identity : s'.identity ≡ s.identity

published-Executed :
    (c : Command) (s s' : ModelState) (out applied : CommandOutcome) (m : List Corridor)
    (r : Result (Project × ℕ) CommandError)
    → apply c (corridors_of s) ≡ (ok applied, m)
    → next_project s.project m s.revision ≡ r
    → publish (merge no_outcome applied) s r ≡ (ok out, s')
    → Executed c s out s'
published-Executed c s s' out applied m (err e) h a b = cc
published-Executed c s s' out applied m (ok (p, r)) h a b =
    let same : record s { project = p; revision = r } ≡ s' = cc b in
    let projects : p ≡ s'.project = ap (λ (x : ModelState). x.project) same in
    let revisions : r ≡ s'.revision = ap (λ (x : ModelState). x.revision) same in
    record {
      working = m;
      applied = applied;
      applies = h;
      outcome = cc b;
      advanced =
          subst₂ (Advanced s.project m s.revision) projects revisions
            (next_project-eq-ok s.project m s.revision a);
      identity = sym (ap (λ (x : ModelState). x.identity) same);
    }

pub execute-eq-ok :
    (c : Command) (s : ModelState) {out : CommandOutcome} {s' : ModelState}
    → execute c s ≡ (ok out, s')
    → Executed c s out s'
execute-eq-ok c s {out} {s'} h = by_result (apply c (corridors_of s)) refl
  where
    by_result : (a : Applied) → apply c (corridors_of s) ≡ a → Executed c s out s'
    by_result (ok applied, m) e =
        published-Executed c s s' out applied m (next_project s.project m s.revision) e refl
          (sym (execute_applied c s applied m e) ∙ h)
    by_result (err f, m) e = cc (execute_refused c s f m e, h)

-- The other way round: a command that applies, and whose result the domain accepts, succeeds.
pub execute_of :
    (c : Command) (s : ModelState) (applied : CommandOutcome) (m : List Corridor)
    (d : DesignCatalog) (q : Project)
    → apply c (corridors_of s) ≡ (ok applied, m)
    → s.revision < max_revision
    → replace_corridors s.project.design_catalog m ≡ ok d
    → rebuild_project s.project d ≡ ok q
    → execute c s
      ≡ (ok (merge no_outcome applied), record s { project = q; revision = s.revision + 1 })
execute_of c s applied m d q h room replaced rebuilt =
    execute_applied c s applied m h
    ∙ ap (publish (merge no_outcome applied) s)
        (next_project_of s.project q m d s.revision room replaced rebuilt)
