-- ===== src/Types/Ids.antt =====
-- crates/roadsim-types/src/ids.rs. An identifier is its UUID read as a number; the type of an
-- identifier is seen where it becomes a reference, by the kind that the conversion puts there.
use road_sim.Prelude.{
  ℕ, Bool, ◌&&◌, ◌||◌, List, [], ◌∷◌, ◌++◌, ltb, leb, ◌==◌, if◌then◌else◌, sort_by,
}

pub data ObjectKind : Type 0 where
  project corridor lane junction crossing walking_area sidewalk rail_alignment : ObjectKind
  traffic_sign road_marking stop_line signal_head signal_group signal_program : ObjectKind
  signal_phase signal_controller demand_profile demand_flow scenario experiment : ObjectKind
  rule_exception : ObjectKind

-- The derived order of an enumeration is that of its declaration.
abbrev pub rank : ObjectKind → ℕ
rank project = 0
rank corridor = 1
rank lane = 2
rank junction = 3
rank crossing = 4
rank walking_area = 5
rank sidewalk = 6
rank rail_alignment = 7
rank traffic_sign = 8
rank road_marking = 9
rank stop_line = 10
rank signal_head = 11
rank signal_group = 12
rank signal_program = 13
rank signal_phase = 14
rank signal_controller = 15
rank demand_profile = 16
rank demand_flow = 17
rank scenario = 18
rank experiment = 19
rank rule_exception = 20

pub record ObjectRef : Type 0 where
  pub kind : ObjectKind
  pub id : ℕ

-- `id.into()`, for an identifier of the kind.
abbrev pub object_ref : ObjectKind → ℕ → ObjectRef
object_ref kind id = record { kind = kind; id = id }

-- The derived order: the kind first, then the identifier.
unfoldable pub ref_le : ObjectRef → ObjectRef → Bool
ref_le a b = ltb (rank a.kind) (rank b.kind) || ((rank a.kind == rank b.kind) && leb a.id b.id)

unfoldable pub ref_eq : ObjectRef → ObjectRef → Bool
ref_eq a b = (rank a.kind == rank b.kind) && (a.id == b.id)

-- What `dedup()` keeps behind `a`: of each run of equal neighbours the first stays.
unfoldable pub dedup_after : ObjectRef → List ObjectRef → List ObjectRef
unfolding ref_eq
dedup_after a [] = []
dedup_after a (b ∷ refs) = (if ref_eq a b then [] else b ∷ []) ++ dedup_after b refs

unfoldable pub dedup : List ObjectRef → List ObjectRef
unfolding dedup_after
dedup [] = []
dedup (a ∷ refs) = a ∷ dedup_after a refs

-- `sort_unstable()` and `dedup()`, with which each error and outcome keeps its references.
unfoldable pub canonical : List ObjectRef → List ObjectRef
unfolding sort_by ref_le dedup
canonical refs = dedup (sort_by ref_le refs)
