-- ===== src/Network/Controls/Table/Controlled.antt =====
-- `CompiledControlTable::new`: each signal group is controlled at its junction.
use road_sim.Prelude.{
  &&-true, ◌==◌, ==_iff, Bool-cases, length, any, ok, ok_or, >>=-eq-ok, reject_if-eq-ok, ok_eq, ℕ,
  zero, suc, ◌+◌, ◌<◌, ◌≡◌, refl, sym, ap₂, subst, ◌⊎◌, inl, inr, true, not, some, List, [], ◌∷◌,
  Memᴰ, arith,
}
use mathlib.Core.Logic.{⊎_elim}
use mathlib.Core.List.Memᴰ
use road_sim.Prelude.{ok_or-ok}
use road_sim.Prelude.Keyed.{find}
use road_sim.Prelude.Members.{get_elem?, any-false, Memᴰ-cons}
use road_sim.Prelude.Pigeonhole.{Unrepeated, all_below}
use road_sim.Network.Controls.{
  CompiledSignalGroup, CompiledSignalPhase, CompiledSignalProgram, CompiledSignalController,
  active_program_outside_table, controller_program_junction_mismatch, active_program_group_mismatch,
}
use road_sim.Network.Controls.Programs.{
  phase_groups, same_ids, groups_of, program_id, extend, check_controllers,
}

pub same_ids-eq : (xs ys : List ℕ) → same_ids xs ys ≡ true → xs ≡ ys
same_ids-eq [] [] h = refl
same_ids-eq [] (y ∷ ys) h = cc
same_ids-eq (x ∷ xs) [] h = cc
same_ids-eq (x ∷ xs) (y ∷ ys) h =
    let (first, rest) = &&-true (x == y) (same_ids xs ys) h in
    ap₂ ◌∷◌ ((==_iff x y).0 first) (same_ids-eq xs ys rest)

-- The positions that `groups_of` lists are those of groups of the junction.
groups_of-at :
    (junction index : ℕ) (groups : List CompiledSignalGroup) (id : ℕ)
    → Memᴰ id (groups_of junction index groups)
    → (k : ℕ) × (id ≡ index + k)
      × (group : CompiledSignalGroup) × (get_elem? groups k ≡ some group)
      × (group.junction_id ≡ junction)
unfolding groups_of
groups_of-at junction index [] id m = absurd (Memᴰ.not-nil m)
groups_of-at junction index (g ∷ groups) id m = elim (Bool-cases (g.junction_id == junction)) [
  | inl e ↦ elim (Memᴰ.cases_cons (rw e at m)) [
    | inl here ↦ (0, omega (arith, here), g, refl, (==_iff g.junction_id junction).0 e)
    | inr rest ↦ later (groups_of-at junction (suc index) groups id rest)
  ]
  | inr e ↦ later (groups_of-at junction (suc index) groups id (rw e at m))
]
  where
    later :
        (k : ℕ) × (id ≡ suc index + k)
          × (group : CompiledSignalGroup) × (get_elem? groups k ≡ some group)
          × (group.junction_id ≡ junction)
        → (k : ℕ) × (id ≡ index + k)
          × (group : CompiledSignalGroup) × (get_elem? (g ∷ groups) k ≡ some group)
          × (group.junction_id ≡ junction)
    later (k, at, group, stored, same) = (suc k, omega (arith, at), group, stored, same)

extend-cases :
    (controlled ids : List ℕ) (m : ℕ)
    → Memᴰ m (extend controlled ids)
    → Memᴰ m ids ⊎ Memᴰ m controlled
extend-cases controlled [] m found = inr found
extend-cases controlled (x ∷ ids) m found =
    ground (
      arith,
      extend-cases controlled ids m,
      Memᴰ-cons m x (extend controlled ids),
      Memᴰ-cons m x ids,
    )

extend-Unrepeated :
    (controlled ids : List ℕ) → Unrepeated controlled → Unrepeated (extend controlled ids)
extend-Unrepeated controlled [] u = u
extend-Unrepeated controlled (x ∷ ids) u = ground (arith, extend-Unrepeated controlled ids u)

module _ (groups : List CompiledSignalGroup) (programs : List CompiledSignalProgram) where
  -- The controller runs a program of its junction, all of whose phases show exactly the groups of
  -- the junction.
  pub record Runs (controller : CompiledSignalController) : Type 0 where
    pub program : CompiledSignalProgram
    pub active : find program_id controller.active_program_id programs ≡ some program
    pub junction : program.junction_id ≡ controller.junction_id
    pub complete :
        (phase : CompiledSignalPhase)
        → Memᴰ phase program.phases
        → phase_groups phase ≡ groups_of controller.junction_id 0 groups

  -- The group at a position has a controller.
  pub record IsControlled (controllers : List CompiledSignalController) (id : ℕ) : Type 0 where
    pub group : CompiledSignalGroup
    pub stored : get_elem? groups id ≡ some group
    pub controller : CompiledSignalController
    pub listed : Memᴰ controller controllers
    pub same_junction : group.junction_id ≡ controller.junction_id
    pub runs : Runs controller

  record Round (controlled : List ℕ) (controllers : List CompiledSignalController) (out : List ℕ)
      (controller : CompiledSignalController) : Type 0 where
    runs : Runs controller
    tail :
        check_controllers groups programs
          (extend controlled (groups_of controller.junction_id 0 groups))
          controllers
        ≡ ok out

  check_controllers-Round :
      (controlled : List ℕ) (controller : CompiledSignalController)
      (controllers : List CompiledSignalController) (out : List ℕ)
      → check_controllers groups programs controlled (controller ∷ controllers) ≡ ok out
      → Round controlled controllers out controller
  unfolding check_controllers
  check_controllers-Round controlled controller controllers out h =
      let expected = groups_of controller.junction_id 0 groups in
      let active = find program_id controller.active_program_id programs in
      let (program, found, h1) = >>=-eq-ok (ok_or active active_program_outside_table) _ h in
      let (junction, h2) =
        reject_if-eq-ok (not (program.junction_id == controller.junction_id))
          controller_program_junction_mismatch _ h1 in
      let differ = λ (phase : CompiledSignalPhase). not (same_ids (phase_groups phase) expected) in
      let (complete, h3) =
        reject_if-eq-ok (any differ program.phases) active_program_group_mismatch _ h2 in
      record {
        runs = record {
          program = program;
          active = ok_or-ok active active_program_outside_table found;
          junction = ground arith;
          complete = λ phase m.
              let same = (any-false differ program.phases).0 complete phase m in
              same_ids-eq (phase_groups phase) expected (ground arith);
        };
        tail = h3;
      }

  check_controllers-Unrepeated :
      (controlled : List ℕ) (controllers : List CompiledSignalController) (out : List ℕ)
      → check_controllers groups programs controlled controllers ≡ ok out
      → Unrepeated controlled
      → Unrepeated out
  unfolding check_controllers
  check_controllers-Unrepeated controlled [] out h u = subst Unrepeated (ok_eq h) u
  check_controllers-Unrepeated controlled (c ∷ controllers) out h u =
      let expected = groups_of c.junction_id 0 groups in
      check_controllers-Unrepeated (extend controlled expected) controllers out
        (check_controllers-Round controlled c controllers out h).tail
        (extend-Unrepeated controlled expected u)

  check_controllers-IsControlled :
      (all_controllers : List CompiledSignalController) (controlled : List ℕ)
      (controllers : List CompiledSignalController) (out : List ℕ)
      → check_controllers groups programs controlled controllers ≡ ok out
      → ((c : CompiledSignalController) → Memᴰ c controllers → Memᴰ c all_controllers)
      → ((id : ℕ) → Memᴰ id controlled → IsControlled all_controllers id)
      → (id : ℕ) → Memᴰ id out
      → IsControlled all_controllers id
  unfolding check_controllers
  check_controllers-IsControlled every controlled [] out h sub p id m =
      p id (subst (Memᴰ id) (sym (ok_eq h)) m)
  check_controllers-IsControlled every controlled (c ∷ controllers) out h sub p id m =
      let expected = groups_of c.junction_id 0 groups in
      let round = check_controllers-Round controlled c controllers out h in
      check_controllers-IsControlled every (extend controlled expected) controllers out round.tail
        (λ d found. sub d (Memᴰ.tail found))
        (λ i found.
          ⊎_elim
            (λ new.
              let (k, at, group, stored, same) = groups_of-at c.junction_id 0 groups i new in
              let index : k ≡ i = omega (arith, at) in
              record {
                group = group;
                stored = subst (λ n. get_elem? groups n ≡ some group) index stored;
                controller = c;
                listed = sub c (Memᴰ.head refl);
                same_junction = same;
                runs = round.runs;
              })
            (p i) (extend-cases controlled expected i found))
        id m

  below :
      (gs : List CompiledSignalGroup) (i : ℕ) {g : CompiledSignalGroup}
      → get_elem? gs i ≡ some g
      → i < length gs
  below [] i h = cc
  below (g ∷ gs) zero h = omega arith
  below (g ∷ gs) (suc i) h = omega (arith, below gs i h)

  -- If the controllers control as many groups as there are, they control each.
  pub every_group-IsControlled :
      (controllers : List CompiledSignalController) (out : List ℕ)
      → check_controllers groups programs [] controllers ≡ ok out
      → length out ≡ length groups
      → (id : ℕ) → id < length groups
      → IsControlled controllers id
  every_group-IsControlled controllers out h full id bound =
      let controlled =
        check_controllers-IsControlled controllers [] controllers out h (λ c m. m)
          (λ i m. absurd (Memᴰ.not-nil m)) in
      controlled id (
        all_below (length groups) out (check_controllers-Unrepeated [] controllers out h tt)
          (λ i m. below groups i (controlled i m).stored) full id bound)
