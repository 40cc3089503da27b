-- ===== src/Commands/Primitive.antt =====
-- crates/roadsim-commands/src/lib.rs: commands on the working list of corridors.
pub mod Lists
pub mod Store
pub mod Undo
pub mod Sequence
pub mod Refinement
pub mod Apply
use road_sim.Prelude.{
  ℕ, List, [], ◌∷◌, ◌++◌, Option, none, some, Result, ok, err, ◌==◌, if◌then◌else◌, any, is_empty,
}
use road_sim.Types.Ids.{ObjectKind, ObjectRef, object_ref, canonical}
use road_sim.Types.Fault.{Fault, fault}
use road_sim.Domain.Corridor.{Corridor, key}

pub data CommandErrorCode : Type 0 where
  corridor_already_exists corridor_not_found domain_invariant : CommandErrorCode
  transaction_aborted empty_transaction wrong_state stale_revision : CommandErrorCode
  revision_overflow undo_unavailable redo_unavailable : CommandErrorCode

abbrev pub CommandError : Type 0
CommandError = Fault CommandErrorCode

pub data PrimitiveCommand : Type 0 where
  create update : Corridor → PrimitiveCommand
  delete : ℕ → PrimitiveCommand

-- An inverse command is its operations, in the order in which they are run.
abbrev pub InverseCommand : Type 0
InverseCommand = List PrimitiveCommand

-- A set of references is the sorted list of its members.
pub record CommandOutcome : Type 0 where
  pub changed : List ObjectRef
  pub created : List ObjectRef
  pub deleted : List ObjectRef
  pub inverse : InverseCommand

abbrev pub no_outcome : CommandOutcome
no_outcome = record { changed = []; created = []; deleted = []; inverse = [] }

unfoldable pub merge : CommandOutcome → CommandOutcome → CommandOutcome
unfolding canonical
merge self other = record {
  changed = canonical (self.changed ++ other.changed);
  created = canonical (self.created ++ other.created);
  deleted = canonical (self.deleted ++ other.deleted);
  inverse = other.inverse ++ self.inverse;
}

-- A command changes the working list; on an error the list may have changed too.
abbrev pub Applied : Type 0
Applied = Result CommandOutcome CommandError × List Corridor

abbrev pub corridor_ref : ℕ → ObjectRef
corridor_ref id = object_ref ObjectKind.corridor id

unfoldable pub apply_create : Corridor → List Corridor → Applied
apply_create c model =
    if any (λ d. key d == key c) model
    then (err (fault corridor_already_exists (corridor_ref c.id ∷ [])), model)
    else (
      ok (record {
        changed = corridor_ref c.id ∷ [];
        created = corridor_ref c.id ∷ [];
        deleted = [];
        inverse = delete c.id ∷ [];
      }),
      model ++ c ∷ [],
    )

-- `position` and `mem::replace`: the corridor that stood first under the identifier, and the list
-- with `c` in its place.
unfoldable pub replace_first : Corridor → List Corridor → Option (Corridor × List Corridor)
replace_first c [] = none
replace_first c (d ∷ model) =
    let rest = replace_first c model in
    if key d == key c
    then some (d, c ∷ model)
    else elim rest [ none ↦ none | some (old, model') ↦ some (old, d ∷ model') ]

-- `position` and `Vec::remove`.
unfoldable pub remove_first : ℕ → List Corridor → Option (Corridor × List Corridor)
remove_first id [] = none
remove_first id (d ∷ model) =
    let rest = remove_first id model in
    if key d == id
    then some (d, model)
    else elim rest [ none ↦ none | some (old, model') ↦ some (old, d ∷ model') ]

unfoldable pub apply_update : Corridor → List Corridor → Applied
apply_update c model = elim (replace_first c model) [
  | none ↦ (err (fault corridor_not_found (corridor_ref c.id ∷ [])), model)
  | some (previous, model') ↦ (
    ok (record {
      changed = corridor_ref c.id ∷ [];
      created = [];
      deleted = [];
      inverse = update previous ∷ [];
    }),
    model',
  )
]

unfoldable pub apply_delete : ℕ → List Corridor → Applied
apply_delete id model = elim (remove_first id model) [
  | none ↦ (err (fault corridor_not_found (corridor_ref id ∷ [])), model)
  | some (deleted, model') ↦ (
    ok (record {
      changed = corridor_ref id ∷ [];
      created = [];
      deleted = corridor_ref id ∷ [];
      inverse = create deleted ∷ [];
    }),
    model',
  )
]

unfoldable pub apply_primitive : PrimitiveCommand → List Corridor → Applied
apply_primitive (create c) = apply_create c
apply_primitive (update c) = apply_update c
apply_primitive (delete id) = apply_delete id

-- `let outcome = applied?;` and what follows it.
abbrev pub then_run : (CommandOutcome → List Corridor → Applied) → Applied → Applied
then_run go_on (ok outcome, model) = go_on outcome model
then_run go_on (err e, model) = (err e, model)

-- The loop of `InverseCommand::apply`.
unfoldable pub run_operations : InverseCommand → CommandOutcome → List Corridor → Applied
run_operations [] combined model = (ok combined, model)
run_operations (operation ∷ operations) combined model =
    then_run (λ outcome model'. run_operations operations (merge combined outcome) model')
      (apply_primitive operation model)

unfoldable pub apply_inverse : InverseCommand → List Corridor → Applied
apply_inverse operations model =
    if is_empty operations
    then (err (fault empty_transaction []), model)
    else run_operations operations no_outcome model

-- The sealed trait `Command`: its implementors.
pub data Command : Type 0 where
  primitive : PrimitiveCommand → Command
  inverse : InverseCommand → Command

unfoldable pub apply : Command → List Corridor → Applied
apply (primitive operation) = apply_primitive operation
apply (inverse operations) = apply_inverse operations
