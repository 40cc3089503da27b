-- ===== src/Commands/Primitive/Undo.antt =====
-- One primitive command on the store and its inverse.
use road_sim.Prelude.{
  ℕ, ◌≡◌, refl, ap, ap₂, ◌∙◌, subst, fun_ext, inl, inr, Option, none, some, arith, Option-cases,
}
use road_sim.Domain.Corridor.{Corridor, key}
use road_sim.Commands.Primitive.{PrimitiveCommand, create, update, delete}
use road_sim.Commands.Primitive.Store.{
  Store, IsKeyed, put, create_at, update_at, delete_at, perform,
}

put-put : (i j : ℕ) (v w : Option Corridor) (f : Store) → f i ≡ w → j ≡ i → put j w (put i v f) ≡ f
put-put i j v w f h same = fun_ext λ k. ground (arith, ap f)

put_at : (i j : ℕ) (v : Option Corridor) (f : Store) → j ≡ i → put i v f j ≡ v
put_at i j v f same = ground arith

create_undone :
    (c : Corridor) (f : Store)
    → f (key c) ≡ none
    → perform (delete (key c)) (put (key c) (some c) f) ≡ some (create c, f)
unfolding perform
create_undone c f e =
    let g = put (key c) (some c) f in
    ap (λ v. delete_at v (key c) g) (put_at (key c) (key c) (some c) f refl)
    ∙ ap (λ h. some (create c, h)) (put-put (key c) (key c) (some c) none f e refl)

update_undone :
    (c old : Corridor) (f : Store)
    → f (key c) ≡ some old
    → key old ≡ key c
    → perform (update old) (put (key c) (some c) f) ≡ some (update c, f)
unfolding perform
update_undone c old f e same =
    let g = put (key c) (some c) f in
    ap (λ v. update_at v old g) (put_at (key c) (key old) (some c) f same)
    ∙ ap (λ h. some (update c, h)) (put-put (key c) (key old) (some c) (some old) f e same)

delete_undone :
    (i : ℕ) (old : Corridor) (f : Store)
    → f i ≡ some old
    → key old ≡ i
    → perform (create old) (put i none f) ≡ some (delete i, f)
unfolding perform
delete_undone i old f e same =
    let g = put i none f in
    ap (λ v. create_at v old g) (put_at i (key old) none f same)
    ∙ ap₂ (λ j h. some (delete j, h)) same (put-put i (key old) none (some old) f e same)

-- Undoing is itself undone by the command.
pub perform-inverse :
    (o : PrimitiveCommand) (f : Store) {i : PrimitiveCommand} {g : Store}
    → IsKeyed f
    → perform o f ≡ some (i, g)
    → perform i g ≡ some (o, f)
unfolding perform
perform-inverse (create c) f keyed h = elim (Option-cases (f (key c))) [
  | inl e ↦ cc (create_undone c f e, h, ap (λ v. create_at v c f) e)
  | inr (old, e) ↦ cc (h, ap (λ v. create_at v c f) e)
]
perform-inverse (update c) f keyed h = elim (Option-cases (f (key c))) [
  | inl e ↦ cc (h, ap (λ v. update_at v c f) e)
  | inr (old, e) ↦
      cc (update_undone c old f e (keyed (key c) old e), h, ap (λ v. update_at v c f) e)
]
perform-inverse (delete j) f keyed h = elim (Option-cases (f j)) [
  | inl e ↦ cc (h, ap (λ v. delete_at v j f) e)
  | inr (old, e) ↦ cc (delete_undone j old f e (keyed j old e), h, ap (λ v. delete_at v j f) e)
]

put-IsKeyed : (c : Corridor) (f : Store) → IsKeyed f → IsKeyed (put (key c) (some c) f)
put-IsKeyed c f keyed j d h = ground (arith, keyed j d)

put-none-IsKeyed : (i : ℕ) (f : Store) → IsKeyed f → IsKeyed (put i none f)
put-none-IsKeyed i f keyed j d h = ground (arith, keyed j d)

abbrev Keeps : Option (PrimitiveCommand × Store) → Type 0
Keeps none = Unit
Keeps (some (_, g)) = IsKeyed g

perform-Keeps : (o : PrimitiveCommand) (f : Store) → IsKeyed f → Keeps (perform o f)
unfolding perform
perform-Keeps (create c) f keyed = at_create (f (key c))
  where
    at_create : (v : Option Corridor) → Keeps (create_at v c f)
    at_create none = put-IsKeyed c f keyed
    at_create (some _) = tt
perform-Keeps (update c) f keyed = at_update (f (key c))
  where
    at_update : (v : Option Corridor) → Keeps (update_at v c f)
    at_update none = tt
    at_update (some _) = put-IsKeyed c f keyed
perform-Keeps (delete i) f keyed = at_delete (f i)
  where
    at_delete : (v : Option Corridor) → Keeps (delete_at v i f)
    at_delete none = tt
    at_delete (some _) = put-none-IsKeyed i f keyed

pub perform-IsKeyed :
    (o : PrimitiveCommand) (f : Store) {i : PrimitiveCommand} {g : Store}
    → IsKeyed f
    → perform o f ≡ some (i, g)
    → IsKeyed g
perform-IsKeyed o f keyed h = subst Keeps h (perform-Keeps o f keyed)
