-- ===== src/Commands/Primitive/Refinement.antt =====
-- The commands on a list of corridors, against the store.
use road_sim.Prelude.{
  ℕ, ◌≡◌, refl, sym, ap, ap₂, ◌∙◌, subst, fun_ext, inl, inr, true, false, List, [], ◌∷◌, ◌++◌,
  Option, none, some, ok, err, arith, ◌==◌, any, is_some, Bool-cases, Option-cases,
}
use mathlib.Core.List.{append_assoc}
use road_sim.Prelude.Keyed.{find, find-append, Distinct}
use road_sim.Domain.Corridor.{Corridor, key}
use road_sim.Commands.Primitive.{
  PrimitiveCommand, create, update, delete, InverseCommand, CommandOutcome, Applied, apply_create,
  apply_update, apply_delete, apply_primitive, replace_first, remove_first, run_operations, merge,
  then_run,
}
use road_sim.Commands.Primitive.Store.{
  Store, IsKeyed, put, create_at, update_at, delete_at, perform, append_inverse, go_on, perform_all,
}
use road_sim.Commands.Primitive.Lists.{
  find-key, any-find, append-Distinct, replace_first-none, replace_first_old, find-replace_first,
  replace_first-Distinct, remove_first-none, remove_first_old, find-remove_first,
  remove_first-Distinct,
}

-- The list as a store.
abbrev pub view : List Corridor → Store
view m = λ i. find key i m

pub view-IsKeyed : (m : List Corridor) → IsKeyed (view m)
view-IsKeyed m i c h = find-key i c m h

-- A call on a list ends as the store says: it fails where the store has no result, and otherwise
-- its list shows the new store, holds no identifier twice, and its inverse is the store's.
abbrev pub Agrees : Applied → Option (InverseCommand × Store) → Type 0
Agrees (ok o, m) none = ⊥
Agrees (ok o, m) (some (is, g)) = (o.inverse ≡ is) × Distinct key m × (view m ≡ g)
Agrees (err e, m) none = Unit
Agrees (err e, m) (some _) = ⊥

abbrev pub one : Option (PrimitiveCommand × Store) → Option (InverseCommand × Store)
one none = none
one (some (i, g)) = some (i ∷ [], g)

view-append :
    (c : Corridor) (m : List Corridor)
    → find key (key c) m ≡ none
    → (i : ℕ) → find key i (m ++ c ∷ []) ≡ put (key c) (some c) (view m) i
unfolding find
view-append c m e i = elim (Bool-cases (key c == i)) [
  | inl same ↦ ground (arith, find-append key i m (c ∷ []), ap (λ j. find key j m))
  | inr other ↦ ground (arith, find-append key i m (c ∷ []))
]

create-Agrees :
    (c : Corridor) (m : List Corridor)
    → Distinct key m
    → Agrees (apply_create c m) (one (create_at (view m (key c)) c (view m)))
unfolding apply_create create_at
create-Agrees c m d = elim (Option-cases (find key (key c) m)) [
  | inl e ↦
      let absent : any (λ x. key x == key c) m ≡ false = any-find (key c) m ∙ ap is_some e in
      rw (absent, e, apply_create, create_at)
        (refl, append-Distinct c m e d, fun_ext λ i. view-append c m e i)
  | inr (old, e) ↦
      let present : any (λ x. key x == key c) m ≡ true = any-find (key c) m ∙ ap is_some e in
      rw (present, e, apply_create, create_at) tt
]

update-Agrees :
    (c : Corridor) (m : List Corridor)
    → Distinct key m
    → Agrees (apply_update c m) (one (update_at (view m (key c)) c (view m)))
unfolding apply_update update_at
update-Agrees c m d = elim (Option-cases (replace_first c m)) [
  | inl e ↦ rw (e, replace_first-none c m e, apply_update, update_at) tt
  | inr ((old, m'), e) ↦
      rw (e, replace_first_old c m e, apply_update, update_at)
        (refl, replace_first-Distinct c m d e, fun_ext λ i. find-replace_first i c m e)
]

delete-Agrees :
    (i : ℕ) (m : List Corridor)
    → Distinct key m
    → Agrees (apply_delete i m) (one (delete_at (view m i) i (view m)))
unfolding apply_delete delete_at
delete-Agrees i m d = elim (Option-cases (remove_first i m)) [
  | inl e ↦ rw (e, remove_first-none i m e, apply_delete, delete_at) tt
  | inr ((old, m'), e) ↦
      rw (e, remove_first_old i m e, apply_delete, delete_at)
        (refl, remove_first-Distinct i m d e, fun_ext λ j. find-remove_first j i m d e)
]

-- Each primitive command does to the list what the store promises: it fails in the same cases, and
-- otherwise has the promised effect and the promised inverse, and keeps the identifiers distinct.
pub apply_primitive-Agrees :
    (o : PrimitiveCommand) (m : List Corridor)
    → Distinct key m
    → Agrees (apply_primitive o m) (one (perform o (view m)))
unfolding apply_primitive perform
apply_primitive-Agrees (create c) m d = create-Agrees c m d
apply_primitive-Agrees (update c) m d = update-Agrees c m d
apply_primitive-Agrees (delete i) m d = delete-Agrees i m d

abbrev pub onto : InverseCommand → Option (InverseCommand × Store) → Option (InverseCommand × Store)
onto js none = none
onto js (some (is, g)) = some (is ++ js, g)

onto-append_inverse :
    (i : PrimitiveCommand) (js : InverseCommand) (r : Option (InverseCommand × Store))
    → onto (i ∷ js) r ≡ onto js (append_inverse i r)
onto-append_inverse i js none = refl
onto-append_inverse i js (some (is, g)) =
    ap (λ ks. some (ks, g)) (sym (append_assoc is (i ∷ []) js))

module _ (os : InverseCommand) (combined : CommandOutcome) where
  abbrev RestAgrees : Type 0
  RestAgrees =
      (out : CommandOutcome) (m : List Corridor)
      → Distinct key m
      → Agrees (run_operations os (merge combined out) m)
          (onto (out.inverse ++ combined.inverse) (perform_all os (view m)))

  then_run-Agrees :
      (a : Applied) (r : Option (PrimitiveCommand × Store))
      → Agrees a (one r)
      → RestAgrees
      → Agrees
          (then_run (λ out m. run_operations os (merge combined out) m) a)
          (onto combined.inverse (go_on r (λ g. perform_all os g)))
  then_run-Agrees (ok out, m) none h rest = absurd h
  then_run-Agrees (ok out, m) (some (i, g)) (e, d, v) rest =
      subst (Agrees (run_operations os (merge combined out) m))
        (ap₂ (λ is f. onto (is ++ combined.inverse) (perform_all os f)) e v
          ∙ onto-append_inverse i combined.inverse (perform_all os g))
        (rest out m d)
  then_run-Agrees (err e, m) none h rest = tt
  then_run-Agrees (err e, m) (some _) h rest = absurd h

-- So does a sequence of them, with the inverses in the opposite order before those at hand.
pub run_operations-Agrees :
    (os : InverseCommand) (combined : CommandOutcome) (m : List Corridor)
    → Distinct key m
    → Agrees (run_operations os combined m) (onto combined.inverse (perform_all os (view m)))
unfolding run_operations perform_all merge
run_operations-Agrees [] combined m d = (refl, d, refl)
run_operations-Agrees (o ∷ os) combined m d =
    then_run-Agrees os combined (apply_primitive o m) (perform o (view m))
      (apply_primitive-Agrees o m d) (λ out n e. run_operations-Agrees os (merge combined out) n e)
