-- ===== src/Network/Controls/Table/Exclusive.antt =====
-- `CompiledControlTable::new`: the signal groups share no movement.
use road_sim.Prelude.{
  ||-false, leb, ◌==◌, if◌then◌else◌, ==-refl, Bool-cases, is_empty, any, any_adjacent, contains,
  first_repeated, is_some, ok, >>=-eq-ok, reject_if-eq-ok, ok_eq, ℕ, zero, suc, ◌<◌, ◌≡◌, refl, sym,
  ap, subst, ◌∙◌, inl, inr, false, Option, none, some, List, [], ◌∷◌, ◌++◌, Memᴰ, arith,
}
use mathlib.Core.Logic.{⊎_elim}
use mathlib.Core.List.Memᴰ
use road_sim.Prelude.Members.{get_elem?, some-eq, any-false}
use road_sim.Network.Controls.{
  CompiledSignalGroup, signal_group_unbound, movement_outside_table, duplicate_movement_binding,
  conflicting_signal_groups,
}
use road_sim.Network.Controls.Groups.{sorted_movements, any_repeated, check_groups}

-- A group that controls some movements of the table.
pub record IsBound (movement_count : ℕ) (group : CompiledSignalGroup) : Type 0 where
  pub bound : is_empty group.movement_ids ≡ false
  pub inside : (m : ℕ) → Memᴰ m group.movement_ids → m < movement_count

abbrev Fresh : List ℕ → CompiledSignalGroup → Type 0
Fresh controlled group = (m : ℕ) → Memᴰ m group.movement_ids → contains controlled m ≡ false

record Round (movement_count : ℕ) (controlled : List ℕ) (groups out : List CompiledSignalGroup)
    (group : CompiledSignalGroup) : Type 0 where
  rest : List CompiledSignalGroup
  same : out ≡ record group { movement_ids = sorted_movements group } ∷ rest
  tail : check_groups movement_count (sorted_movements group ++ controlled) groups ≡ ok rest
  head : IsBound movement_count (record group { movement_ids = sorted_movements group })
  fresh : Fresh controlled (record group { movement_ids = sorted_movements group })

first_repeated-fresh :
    (seen ids : List ℕ) (m : ℕ)
    → first_repeated seen ids ≡ none
    → Memᴰ m ids
    → contains seen m ≡ false
first_repeated-fresh seen [] m h found = absurd (Memᴰ.not-nil found)
first_repeated-fresh seen (x ∷ ids) m h found = elim (Bool-cases (contains seen x)) [
  | inl e ↦ cc (ap (λ b. if b then some x else first_repeated (x ∷ seen) ids) (sym e) ∙ h)
  | inr e ↦
      let later = rw e at h in
      elim (Memᴰ.cases_cons found) [
        | inl same ↦ rw same e
        | inr rest ↦
            let (_, tail) =
              ||-false (x == m) (contains seen m)
                (first_repeated-fresh (x ∷ seen) ids m later rest) in
            tail
      ]
]

is_some-false : (o : Option ℕ) → is_some o ≡ false → o ≡ none
is_some-false none h = refl
is_some-false (some x) h = cc

contains-append :
    (xs ys : List ℕ) (m : ℕ)
    → contains (xs ++ ys) m ≡ false
    → (¬ Memᴰ m xs) × (contains ys m ≡ false)
contains-append [] ys m h = (Memᴰ.not-nil, h)
contains-append (x ∷ xs) ys m h =
    let (other, rest) = ||-false (x == m) (contains (xs ++ ys) m) h in
    let (absent, tail) = contains-append xs ys m rest in
    (
      λ found.
          ⊎_elim (λ e. cc (other, ==-refl m, ap (λ n. n == m) e)) absent (Memᴰ.cases_cons found),
      tail,
    )

check_groups-Round :
    (movement_count : ℕ) (controlled : List ℕ) (group : CompiledSignalGroup)
    (groups out : List CompiledSignalGroup)
    → check_groups movement_count controlled (group ∷ groups) ≡ ok out
    → Round movement_count controlled groups out group
unfolding check_groups
check_groups-Round movement_count controlled group groups out h =
    let ids = sorted_movements group in
    let (full, h1) = reject_if-eq-ok (is_empty ids) signal_group_unbound _ h in
    let (bounds, h2) =
      reject_if-eq-ok (any (λ movement. leb movement_count movement) ids) movement_outside_table _
        h1 in
    let (_, h3) =
      reject_if-eq-ok (any_adjacent (λ a b. a == b) ids) duplicate_movement_binding _ h2 in
    let (fresh, h4) =
      reject_if-eq-ok (any_repeated controlled ids) conflicting_signal_groups _ h3 in
    let (rest, tail, last) =
      >>=-eq-ok (check_groups movement_count (ids ++ controlled) groups) _ h4 in
    record {
      rest = rest;
      same = sym (ok_eq last);
      tail = tail;
      head = record {
        bound = full;
        inside = λ m found.
            let within =
              (any-false (λ movement. leb movement_count movement) ids).0 bounds m found in
            ground arith;
      };
      fresh = λ m.
          first_repeated-fresh controlled ids m
            (is_some-false (first_repeated controlled ids) fresh);
    }

-- A group of the result is bound, and fresh of what was controlled before.
pub check_groups-at :
    (movement_count : ℕ) (controlled : List ℕ) (groups out : List CompiledSignalGroup) (i : ℕ)
    (group : CompiledSignalGroup)
    → check_groups movement_count controlled groups ≡ ok out
    → get_elem? out i ≡ some group
    → IsBound movement_count group × Fresh controlled group
unfolding check_groups
check_groups-at movement_count controlled [] out i group h k =
    cc (k, ap (λ l. get_elem? l i) (sym (ok_eq h)))
check_groups-at movement_count controlled (g ∷ groups) out zero group h k =
    let round = check_groups-Round movement_count controlled g groups out h in
    let same = some-eq (ap (λ l. get_elem? l 0) (sym round.same) ∙ k) in
    (subst (IsBound movement_count) same round.head, subst (Fresh controlled) same round.fresh)
check_groups-at movement_count controlled (g ∷ groups) out (suc i) group h k =
    let round = check_groups-Round movement_count controlled g groups out h in
    let at = ap (λ l. get_elem? l (suc i)) (sym round.same) ∙ k in
    let (bound, fresh) =
      check_groups-at movement_count (sorted_movements g ++ controlled) groups round.rest i group
        round.tail at in
    (bound, λ m found. (contains-append (sorted_movements g) controlled m (fresh m found)).1)

-- The movements of the first group are in no later one.
first_apart :
    (movement_count : ℕ) (controlled : List ℕ) (g : CompiledSignalGroup)
    (groups out : List CompiledSignalGroup) (j m : ℕ) (first later : CompiledSignalGroup)
    → check_groups movement_count controlled (g ∷ groups) ≡ ok out
    → get_elem? out 0 ≡ some first
    → get_elem? out (suc j) ≡ some later
    → Memᴰ m first.movement_ids
    → ¬ Memᴰ m later.movement_ids
first_apart movement_count controlled g groups out j m first later h k l in_first in_later =
    let round = check_groups-Round movement_count controlled g groups out h in
    let same = some-eq (ap (λ l. get_elem? l 0) (sym round.same) ∙ k) in
    let at = ap (λ l. get_elem? l (suc j)) (sym round.same) ∙ l in
    let (_, fresh) =
      check_groups-at movement_count (sorted_movements g ++ controlled) groups round.rest j later
        round.tail at in
    let ids = ap (λ (x : CompiledSignalGroup). x.movement_ids) same in
    (contains-append (sorted_movements g) controlled m (fresh m in_later)).0
      (subst (Memᴰ m) (sym ids) in_first)

-- Two groups of the result that share a movement are one group.
pub check_groups-exclusive :
    (movement_count : ℕ) (controlled : List ℕ) (groups out : List CompiledSignalGroup) (i j m : ℕ)
    (a b : CompiledSignalGroup)
    → check_groups movement_count controlled groups ≡ ok out
    → get_elem? out i ≡ some a
    → get_elem? out j ≡ some b
    → Memᴰ m a.movement_ids
    → Memᴰ m b.movement_ids
    → i ≡ j
unfolding check_groups
check_groups-exclusive movement_count controlled [] out i j m a b h k l in_a in_b =
    cc (k, ap (λ l. get_elem? l i) (sym (ok_eq h)))
check_groups-exclusive movement_count controlled (g ∷ groups) out zero zero m a b h k l in_a in_b =
    refl
check_groups-exclusive movement_count controlled (g ∷ groups) out zero (suc j) m a b h k l in_a
      in_b =
    absurd (first_apart movement_count controlled g groups out j m a b h k l in_a in_b)
check_groups-exclusive movement_count controlled (g ∷ groups) out (suc i) zero m a b h k l in_a
      in_b =
    absurd (first_apart movement_count controlled g groups out i m b a h l k in_b in_a)
check_groups-exclusive movement_count controlled (g ∷ groups) out (suc i) (suc j) m a b h k l in_a
      in_b =
    let round = check_groups-Round movement_count controlled g groups out h in
    ap suc (
      check_groups-exclusive movement_count (sorted_movements g ++ controlled) groups round.rest i j
        m a b round.tail (ap (λ l. get_elem? l (suc i)) (sym round.same) ∙ k)
        (ap (λ l. get_elem? l (suc j)) (sym round.same) ∙ l) in_a in_b)
