-- ===== src/Network/Lanes.antt =====
-- crates/roadsim-compiled-network/src/lib.rs: the lane table, parallel arrays with a row for each
-- lane.
pub mod Rows
use road_sim.Prelude.{
  ltb, leb, ◌==◌, if◌then◌else◌, ltb→lt, lt→ltb, ==_iff, ==-refl, <→==-false, Bool-cases,
  Option-cases, length, length-append, is_empty, any, all, first_adjacent, any_adjacent, contains,
  or_else, is_some, Result, ok, err, reject_if, reject_some, ok_or, map_err, ◌>>=◌, ◌>>◌, for_each,
  Result-cases, >>=-eq-ok, >>-eq-ok, map_err-eq-ok, reject_if-eq-ok, reject_some-eq-ok, ok_eq, ℕ,
  zero, suc, ◌+◌, ◌-◌, ◌*◌, ◌/◌, ◌%◌, ◌^◌, ◌≤◌, ◌<◌, ◌≡◌, refl, sym, ap, ap₂, subst, ◌∙◌, ◌≢◌, ◌↔◌,
  ◌⊎◌, inl, inr, Bool, true, false, not, ◌&&◌, ◌||◌, Option, none, some, List, [], ◌∷◌, ◌++◌, map,
  Memᴰ, arith, insert_by, sort_by, sort_by_key, IsSorted, IsTotal, sort_by-IsSorted, key_le,
  key_le_total,
}
use road_sim.Prelude.Members.{get_elem?}
use road_sim.Types.Units.{is_finite, is_zero, is_negative}
use road_sim.Types.Order.{f64_eq}
use road_sim.Network.Geometry.{CompiledPoint, point_is_finite}

pub data CompiledLaneUse : Type 0 where
  general_traffic bus_only bicycle parking : CompiledLaneUse

pub record LaneOrigin : Type 0 where
  pub corridor_id : ℕ
  pub lane_id : ℕ

pub record LaneTable : Type 0 where
  pub starts : List CompiledPoint
  pub ends : List CompiledPoint
  pub widths_m : List ℕ
  pub uses : List CompiledLaneUse

-- `start == end`, by the derived equality of two points.
unfoldable pub same_point : CompiledPoint → CompiledPoint → Bool
unfolding f64_eq
same_point a b = f64_eq a.x_m b.x_m && f64_eq a.y_m b.y_m

-- `starts.iter().zip(&ends).any(|(start, end)| start == end)`
abbrev pub any_same : List CompiledPoint → List CompiledPoint → Bool
any_same [] ends = false
any_same (a ∷ starts) [] = false
any_same (a ∷ starts) (b ∷ ends) = same_point a b || any_same starts ends

-- `!width.is_finite() || *width <= 0.0`
unfoldable pub width_invalid : ℕ → Bool
width_invalid width = not (is_finite width) || (is_negative width || is_zero width)

abbrev pub point_invalid : CompiledPoint → Bool
point_invalid p = not (point_is_finite p)

-- The greatest `u32`.
abbrev pub max_u32 : ℕ
max_u32 = 2 ^ 32 - 1

unfoldable pub lanes_invalid :
    List CompiledPoint → List CompiledPoint → List ℕ → List CompiledLaneUse → Bool
unfolding same_point width_invalid
lanes_invalid starts ends widths uses =
    not (length ends == length starts)
    || (not (length widths == length starts)
        || (not (length uses == length starts)
            || (ltb max_u32 (length starts)
                || (any point_invalid (starts ++ ends)
                    || (any_same starts ends || any width_invalid widths)))))

unfoldable pub new_lane_table :
    List CompiledPoint → List CompiledPoint → List ℕ → List CompiledLaneUse → Option LaneTable
unfolding lanes_invalid
new_lane_table starts ends widths uses =
    if lanes_invalid starts ends widths uses
    then none
    else some (record { starts = starts; ends = ends; widths_m = widths; uses = uses })

pub record CompiledLaneRef : Type 0 where
  pub id : ℕ
  pub start : CompiledPoint
  pub end : CompiledPoint
  pub width_m : ℕ
  pub use_kind : CompiledLaneUse

-- `value?` in a function that returns an option.
infixl 5 ◌>=>◌
abbrev pub ◌>=>◌ {α β} : {V : Type α} {W : Type β} → Option V → (V → Option W) → Option W
none >=> next = none
some v >=> next = next v

-- `LaneTable::lane`
unfoldable pub lane : LaneTable → ℕ → Option CompiledLaneRef
lane table id = get_elem? table.starts id >=> λ start. get_elem? table.ends id >=> λ end.
    get_elem? table.widths_m id >=> λ width. get_elem? table.uses id >=> λ use_kind.
    some (record { id = id; start = start; end = end; width_m = width; use_kind = use_kind })

abbrev pub table_len : LaneTable → ℕ
table_len table = length table.starts
