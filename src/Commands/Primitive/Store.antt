-- ===== src/Commands/Primitive/Store.antt =====
-- What a client is promised of the primitive commands: they act on a map from identifiers to
-- corridors, each with an inverse.
use road_sim.Prelude.{ℕ, ◌≡◌, [], ◌∷◌, ◌++◌, Option, none, some, ◌==◌, if◌then◌else◌}
use road_sim.Domain.Corridor.{Corridor, key}
use road_sim.Commands.Primitive.{PrimitiveCommand, create, update, delete, InverseCommand}

abbrev pub Store : Type 0
Store = ℕ → Option Corridor

-- Each corridor stands under its own identifier.
abbrev pub IsKeyed : Store → Type 0
IsKeyed f = (i : ℕ) (c : Corridor) → f i ≡ some c → key c ≡ i

abbrev pub put : ℕ → Option Corridor → Store → Store
put i v f = λ j. if i == j then v else f j

unfoldable pub create_at : Option Corridor → Corridor → Store → Option (PrimitiveCommand × Store)
create_at none c f = some (delete (key c), put (key c) (some c) f)
create_at (some _) c f = none

unfoldable pub update_at : Option Corridor → Corridor → Store → Option (PrimitiveCommand × Store)
update_at none c f = none
update_at (some old) c f = some (update old, put (key c) (some c) f)

unfoldable pub delete_at : Option Corridor → ℕ → Store → Option (PrimitiveCommand × Store)
delete_at none i f = none
delete_at (some old) i f = some (create old, put i none f)

-- The store after a command, and the command that takes it back.
unfoldable pub perform : PrimitiveCommand → Store → Option (PrimitiveCommand × Store)
unfolding create_at update_at delete_at
perform (create c) f = create_at (f (key c)) c f
perform (update c) f = update_at (f (key c)) c f
perform (delete i) f = delete_at (f i) i f

-- Each command of the sequence in turn, and the inverses in the opposite order.
abbrev pub append_inverse :
    PrimitiveCommand → Option (InverseCommand × Store) → Option (InverseCommand × Store)
append_inverse i none = none
append_inverse i (some (is, h)) = some (is ++ i ∷ [], h)

abbrev pub go_on :
    Option (PrimitiveCommand × Store)
    → (Store → Option (InverseCommand × Store))
    → Option (InverseCommand × Store)
go_on none rest = none
go_on (some (i, g)) rest = append_inverse i (rest g)

unfoldable pub perform_all : InverseCommand → Store → Option (InverseCommand × Store)
perform_all [] f = some ([], f)
perform_all (o ∷ os) f = go_on (perform o f) (λ g. perform_all os g)
