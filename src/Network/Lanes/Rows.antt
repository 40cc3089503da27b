-- ===== src/Network/Lanes/Rows.antt =====
-- The lane table: each lane below its length has a row, with a proper segment and width.
use road_sim.Prelude.{
  ltb, ◌==◌, Bool-cases, length, any, ℕ, zero, suc, ◌≤◌, ◌<◌, ◌≡◌, refl, sym, ap, inl, inr, true,
  false, not, none, some, List, [], ◌∷◌, ◌++◌, arith,
}
use road_sim.Prelude.{||-false, subst₂}
use mathlib.Core.List.Memᴰ
use road_sim.Prelude.Members.{
  if-eq-some, get_elem?, get_elem?-mem, get_elem?-lt, get_elem?-ge, any-false, some-eq,
}
use road_sim.Network.Geometry.{CompiledPoint, point_is_finite}
use road_sim.Network.Lanes.{
  CompiledLaneUse, LaneTable, same_point, any_same, width_invalid, point_invalid, lanes_invalid,
  new_lane_table, CompiledLaneRef, lane, table_len, max_u32,
}

pub record AreLanes (starts ends : List CompiledPoint) (widths : List ℕ)
    (uses : List CompiledLaneUse) (table : LaneTable) : Type 0 where
  pub table_is : table ≡ record { starts = starts; ends = ends; widths_m = widths; uses = uses }
  pub ends_len : length ends ≡ length starts
  pub widths_len : length widths ≡ length starts
  pub uses_len : length uses ≡ length starts
  pub points : any point_invalid (starts ++ ends) ≡ false
  pub apart : any_same starts ends ≡ false
  pub wide : any width_invalid widths ≡ false

counts-eq : (m n : ℕ) → not (m == n) ≡ false → m ≡ n
counts-eq m n h = ground arith

pub new_lane_table_ok :
    (starts ends : List CompiledPoint) (widths : List ℕ) (uses : List CompiledLaneUse)
    (table : LaneTable)
    → new_lane_table starts ends widths uses ≡ some table
    → AreLanes starts ends widths uses table
unfolding new_lane_table lanes_invalid
new_lane_table_ok starts ends widths uses table h =
    let (valid, made) = if-eq-some (lanes_invalid starts ends widths uses) _ h in
    let (e, h1) = ||-false (not (length ends == length starts)) _ valid in
    let (w, h2) = ||-false (not (length widths == length starts)) _ h1 in
    let (u, h3) = ||-false (not (length uses == length starts)) _ h2 in
    let (_, h4) = ||-false (ltb max_u32 (length starts)) _ h3 in
    let (points, h5) = ||-false (any point_invalid (starts ++ ends)) _ h4 in
    let (apart, wide) = ||-false (any_same starts ends) (any width_invalid widths) h5 in
    record {
      table_is = sym made;
      ends_len = counts-eq (length ends) (length starts) e;
      widths_len = counts-eq (length widths) (length starts) w;
      uses_len = counts-eq (length uses) (length starts) u;
      points = points;
      apart = apart;
      wide = wide;
    }

apart_at :
    (starts ends : List CompiledPoint) (i : ℕ) (a b : CompiledPoint)
    → any_same starts ends ≡ false
    → get_elem? starts i ≡ some a
    → get_elem? ends i ≡ some b
    → same_point a b ≡ false
apart_at [] ends i a b h k l = cc
apart_at (x ∷ starts) [] i a b h k l = cc
apart_at (x ∷ starts) (y ∷ ends) zero a b h k l =
    let (first, _) = ||-false (same_point x y) (any_same starts ends) h in
    subst₂ (λ p q. same_point p q ≡ false) (some-eq k) (some-eq l) first
apart_at (x ∷ starts) (y ∷ ends) (suc i) a b h k l =
    let (_, rest) = ||-false (same_point x y) (any_same starts ends) h in
    apart_at starts ends i a b rest k l

-- What the constructor checks of a row.
pub record IsRow (id : ℕ) (row : CompiledLaneRef) : Type 0 where
  pub numbered : row.id ≡ id
  pub start_finite : point_is_finite row.start ≡ true
  pub end_finite : point_is_finite row.end ≡ true
  pub segment : same_point row.start row.end ≡ false
  pub width : width_invalid row.width_m ≡ false

finite : (p : CompiledPoint) → point_invalid p ≡ false → point_is_finite p ≡ true
finite p h = elim (Bool-cases (point_is_finite p)) [ inl e ↦ e | inr e ↦ cc (ap not e, h) ]

row :
    (starts ends : List CompiledPoint) (widths : List ℕ) (uses : List CompiledLaneUse)
    (table : LaneTable) (id : ℕ)
    → AreLanes starts ends widths uses table
    → id < length starts
    → (r : CompiledLaneRef) × (lane table id ≡ some r) × IsRow id r
unfolding lane
row starts ends widths uses table id of bound =
    let (a, at_start) = get_elem?-lt starts id bound in
    let (b, at_end) = get_elem?-lt ends id (omega (arith, bound, of.ends_len)) in
    let (w, at_width) = get_elem?-lt widths id (omega (arith, bound, of.widths_len)) in
    let (u, at_use) = get_elem?-lt uses id (omega (arith, bound, of.uses_len)) in
    let valid = (any-false point_invalid (starts ++ ends)).0 of.points in
    (
      record { id = id; start = a; end = b; width_m = w; use_kind = u },
      rw (of.table_is, at_start, at_end, at_width, at_use) refl,
      record {
        numbered = refl;
        start_finite =
            finite a (valid a (Memᴰ.append_left ends (get_elem?-mem starts id a at_start)));
        end_finite = finite b (valid b (Memᴰ.append_right starts (get_elem?-mem ends id b at_end)));
        segment = apart_at starts ends id a b of.apart at_start at_end;
        width = (any-false width_invalid widths).0 of.wide w (get_elem?-mem widths id w at_width);
      },
    )

-- In a table that the constructor returned, exactly the identifiers below its length have a row; its
-- ends are finite and not equal, and its width is finite and positive.
pub lane_rows :
    (starts ends : List CompiledPoint) (widths : List ℕ) (uses : List CompiledLaneUse)
    (table : LaneTable) (id : ℕ)
    → new_lane_table starts ends widths uses ≡ some table
    → (id < table_len table → (r : CompiledLaneRef) × (lane table id ≡ some r) × IsRow id r)
      × (table_len table ≤ id → lane table id ≡ none)
unfolding lane
lane_rows starts ends widths uses table id h =
    let of = new_lane_table_ok starts ends widths uses table h in
    let len = ap (λ (t : LaneTable). length t.starts) of.table_is in
    (
      λ bound. row starts ends widths uses table id of (omega (arith, bound, len)),
      λ bound. rw (get_elem?-ge table.starts id bound) refl,
    )
