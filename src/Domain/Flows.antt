-- ===== src/Domain/Flows.antt =====
-- Demand flows that their constructor accepts: their intervals.
use road_sim.Prelude.{
  ℕ, not, ◌<◌, ◌≤◌, ◌≡◌, sym, ap, subst, Bool, true, false, ◌||◌, List, [], ◌∷◌, Result, ok, ◌>>◌,
  reject_if, reject_if-eq-ok, is_empty, any_adjacent, insert_by, sort_by, sort_by_key, key_le,
  if◌then◌else◌, arith,
}
use road_sim.Types.Ids.{ObjectKind, object_ref}
use road_sim.Types.Fault.{fault}
use road_sim.Domain.Scenario.{
  ScenarioErrorCode, ScenarioError, DemandInterval, DemandFlow, endpoint_ref, endpoint_eq, accepts,
  start_key, overlaps, new_flow,
}

-- Each interval ends after it starts, as `DemandInterval::new` checks.
unfoldable pub AreProper : List DemandInterval → Type 0
AreProper [] = Unit
AreProper (i ∷ is) = (i.start_s < i.end_s) × AreProper is

unfoldable pub StartAfter : ℕ → List DemandInterval → Type 0
StartAfter t [] = Unit
StartAfter t (i ∷ is) = (t ≤ i.start_s) × StartAfter t is

-- Every interval has ended when any later one in the list starts.
unfoldable pub AreDisjoint : List DemandInterval → Type 0
unfolding StartAfter
AreDisjoint [] = Unit
AreDisjoint (i ∷ is) = StartAfter i.end_s is × AreDisjoint is

StartAfter-le : (t u : ℕ) (is : List DemandInterval) → t ≤ u → StartAfter u is → StartAfter t is
unfolding StartAfter
StartAfter-le t u [] h a = tt
StartAfter-le t u (i ∷ is) h (a, rest) = (omega (arith, h, a), StartAfter-le t u is h rest)

insert_by-AreProper :
    (i : DemandInterval) (is : List DemandInterval)
    → i.start_s < i.end_s
    → AreProper is
    → AreProper (insert_by (key_le start_key) i is)
unfolding AreProper insert_by
insert_by-AreProper i [] p ps = (p, tt)
insert_by-AreProper i (j ∷ js) p (q, qs) =
    by_test (insert_by-AreProper i js p qs) (key_le start_key i j)
  where
    by_test :
        AreProper (insert_by (key_le start_key) i js)
        → (b : Bool) → AreProper (if b then i ∷ j ∷ js else j ∷ insert_by (key_le start_key) i js)
    by_test rest true = (p, (q, qs))
    by_test rest false = (q, rest)

sort_by_key-AreProper :
    (is : List DemandInterval) → AreProper is → AreProper (sort_by_key start_key is)
unfolding AreProper sort_by_key sort_by
sort_by_key-AreProper [] ps = tt
sort_by_key-AreProper (i ∷ is) (p, ps) =
    insert_by-AreProper i (sort_by_key start_key is) p (sort_by_key-AreProper is ps)

apart :
    (a b : DemandInterval) (rest : Bool)
    → (overlaps a b || rest) ≡ false
    → (a.end_s ≤ b.start_s) × (rest ≡ false)
apart a b rest h = ground arith

any_adjacent-AreDisjoint :
    (is : List DemandInterval) → AreProper is → any_adjacent overlaps is ≡ false → AreDisjoint is
unfolding AreProper AreDisjoint StartAfter
any_adjacent-AreDisjoint [] ps h = tt
any_adjacent-AreDisjoint (i ∷ []) ps h = (tt, tt)
any_adjacent-AreDisjoint (i ∷ j ∷ is) (p, (q, ps)) h =
    let (gap, rest) = apart i j (any_adjacent overlaps (j ∷ is)) h in
    let (after, others) = any_adjacent-AreDisjoint (j ∷ is) (q, ps) rest in
    ((gap, StartAfter-le i.end_s j.end_s is (omega (arith, gap, q)) after), (after, others))

-- Where the constructor of a demand flow accepts intervals that each end after they start, the flow
-- has them sorted by their starts, and they are disjoint in time: every one of them has ended when
-- any later one starts.
pub new_flow-AreDisjoint :
    (f g : DemandFlow)
    → new_flow f ≡ ok g
    → AreProper f.intervals
    → (g.intervals ≡ sort_by_key start_key f.intervals) × AreDisjoint g.intervals
unfolding new_flow
new_flow-AreDisjoint f g h ps =
    let intervals = sort_by_key start_key f.intervals in
    let made : Result DemandFlow ScenarioError = ok (record f { intervals = intervals }) in
    let disjoint = reject_if (any_adjacent overlaps intervals) overlapping >> made in
    let some = reject_if (is_empty f.intervals) empty_references >> disjoint in
    let (_, a) =
      reject_if-eq-ok (endpoint_eq f.origin f.destination) same_endpoint
        (reject_if (not (accepts f.origin f.mode) || not (accepts f.destination f.mode))
            incompatible
          >> some)
        h in
    let (_, b) =
      reject_if-eq-ok (not (accepts f.origin f.mode) || not (accepts f.destination f.mode))
        incompatible some a in
    let (_, c) = reject_if-eq-ok (is_empty f.intervals) empty_references disjoint b in
    let (gaps, d) = reject_if-eq-ok (any_adjacent overlaps intervals) overlapping made c in
    let kept : g.intervals ≡ intervals = sym (ap intervals_of d) in
    (
      kept,
      subst AreDisjoint (sym kept)
          (any_adjacent-AreDisjoint intervals (sort_by_key-AreProper f.intervals ps) gaps),
    )
  where
    same_endpoint : ScenarioError
    same_endpoint =
        fault ScenarioErrorCode.same_endpoint
          (object_ref ObjectKind.demand_flow f.id ∷ endpoint_ref f.origin ∷ [])

    incompatible : ScenarioError
    incompatible = fault ScenarioErrorCode.incompatible_endpoint (
        object_ref ObjectKind.demand_flow f.id
        ∷ endpoint_ref f.origin
        ∷ endpoint_ref f.destination
        ∷ [])

    empty_references : ScenarioError
    empty_references =
        fault ScenarioErrorCode.empty_references (object_ref ObjectKind.demand_flow f.id ∷ [])

    overlapping : ScenarioError
    overlapping =
        fault ScenarioErrorCode.overlapping_intervals (object_ref ObjectKind.demand_flow f.id ∷ [])

    intervals_of : Result DemandFlow ScenarioError → List DemandInterval
    intervals_of (ok x) = x.intervals
    intervals_of (Result.err e) = []
