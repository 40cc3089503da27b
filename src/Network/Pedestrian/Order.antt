-- ===== src/Network/Pedestrian/Order.antt =====
-- The orders of the origins and of the links are total orders.
use road_sim.Prelude.{==-refl, ◌≡◌, refl, ap, subst, ◌↔◌, true, false, arith}
use road_sim.Prelude.Canonical.{IsOrder}
use road_sim.Network.Pedestrian.{
  PedestrianNodeOrigin, walking_area, sidewalk, origin_le, origin_eq, PedestrianAdjacency, link_le,
  link_eq,
}

origin_le_total : (a b : PedestrianNodeOrigin) → origin_le a b ≡ false → origin_le b a ≡ true
unfolding origin_le
origin_le_total (walking_area a) (walking_area b) h = ground arith
origin_le_total (walking_area a) (sidewalk b) h = cc
origin_le_total (sidewalk a) (walking_area b) h = refl
origin_le_total (sidewalk a) (sidewalk b) h = ground arith

origin_le_trans :
    (a b c : PedestrianNodeOrigin)
    → origin_le a b ≡ true
    → origin_le b c ≡ true
    → origin_le a c ≡ true
unfolding origin_le
origin_le_trans (walking_area a) (walking_area b) (walking_area c) h k = ground arith
origin_le_trans (walking_area a) (sidewalk b) (walking_area c) h k = cc
origin_le_trans (walking_area a) b (sidewalk c) h k = refl
origin_le_trans (sidewalk a) (walking_area b) c h k = cc
origin_le_trans (sidewalk a) (sidewalk b) (walking_area c) h k = cc
origin_le_trans (sidewalk a) (sidewalk b) (sidewalk c) h k = ground arith

origin_antisym : (a b : PedestrianNodeOrigin) → origin_le a b ≡ true → origin_le b a ≡ true → a ≡ b
unfolding origin_le
origin_antisym (walking_area a) (walking_area b) h k = ap walking_area (ground arith)
origin_antisym (walking_area a) (sidewalk b) h k = cc
origin_antisym (sidewalk a) (walking_area b) h k = cc
origin_antisym (sidewalk a) (sidewalk b) h k = ap sidewalk (ground arith)

pub origin_eq_iff : (a b : PedestrianNodeOrigin) → (origin_eq a b ≡ true) ↔ (a ≡ b)
unfolding origin_eq
origin_eq_iff (walking_area a) (walking_area b) = (
  λ h. ap walking_area (ground arith),
  λ e. subst (λ o. origin_eq (walking_area a) o ≡ true) e (==-refl a),
)
origin_eq_iff (walking_area a) (sidewalk b) = (λ h. cc, λ e. cc)
origin_eq_iff (sidewalk a) (walking_area b) = (λ h. cc, λ e. cc)
origin_eq_iff (sidewalk a) (sidewalk b) = (
  λ h. ap sidewalk (ground arith),
  λ e. subst (λ o. origin_eq (sidewalk a) o ≡ true) e (==-refl a),
)

pub origin_order : IsOrder origin_le origin_eq
origin_order = record {
  total = origin_le_total;
  trans = origin_le_trans;
  antisym = origin_antisym;
  same_iff = origin_eq_iff;
}

link-eq :
    (a b : PedestrianAdjacency)
    → a.from ≡ b.from
    → a.to ≡ b.to
    → a.crossing_id ≡ b.crossing_id
    → a ≡ b
link-eq a b e f g = λ i. record { from = e i; to = f i; crossing_id = g i }

link_eq_iff : (a b : PedestrianAdjacency) → (link_eq a b ≡ true) ↔ (a ≡ b)
unfolding link_eq
link_eq_iff a b = (
  λ h. link-eq a b (ground arith) (ground arith) (ground arith),
  λ e. subst (λ c. link_eq a c ≡ true) e (ground arith),
)

pub link_order : IsOrder link_le link_eq
unfolding link_le
link_order = record {
  total = λ a b h. ground arith;
  trans = λ a b c h k. ground arith;
  antisym = λ a b h k. link-eq a b (ground arith) (ground arith) (ground arith);
  same_iff = link_eq_iff;
}
