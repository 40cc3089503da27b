-- ===== src/Commands/Primitive/Sequence.antt =====
-- Sequences of primitive commands on the store and their inverses.
use road_sim.Prelude.{◌≡◌, ap, ap₂, ◌∙◌, subst, inl, inr, [], ◌∷◌, ◌++◌, some, Option-cases}
use mathlib.Core.List.{append-nil, append_assoc}
use road_sim.Commands.Primitive.{PrimitiveCommand, InverseCommand}
use road_sim.Commands.Primitive.Store.{Store, IsKeyed, perform, append_inverse, go_on, perform_all}
use road_sim.Commands.Primitive.Undo.{perform-inverse, perform-IsKeyed}

perform_all-cons_some :
    (o : PrimitiveCommand) (os : InverseCommand) (f : Store) {i : PrimitiveCommand} {g h : Store}
    {js : InverseCommand}
    → perform o f ≡ some (i, g)
    → perform_all os g ≡ some (js, h)
    → perform_all (o ∷ os) f ≡ some (js ++ i ∷ [], h)
unfolding perform_all
perform_all-cons_some o os f {i} a b =
    ap (λ v. go_on v (perform_all os)) a ∙ ap (append_inverse i) b

-- What a sequence that succeeds has done.
pub record Performed (o : PrimitiveCommand) (os : InverseCommand) (f : Store) (is : InverseCommand)
    (h : Store) : Type 0 where
  pub first : PrimitiveCommand
  pub middle : Store
  pub rest : InverseCommand
  pub starts : perform o f ≡ some (first, middle)
  pub goes_on : perform_all os middle ≡ some (rest, h)
  pub inverses : is ≡ rest ++ first ∷ []

pub perform_all-cons :
    (o : PrimitiveCommand) (os : InverseCommand) (f : Store) {is : InverseCommand} {h : Store}
    → perform_all (o ∷ os) f ≡ some (is, h)
    → Performed o os f is h
unfolding perform_all
perform_all-cons o os f {is} {h} e = elim (Option-cases (perform o f)) [
  | inl a ↦ cc
  | inr ((i, g), a) ↦ elim (Option-cases (perform_all os g)) [
    | inl b ↦ cc (ap (λ v. go_on v (perform_all os)) a, ap (append_inverse i) b)
    | inr ((js, k), b) ↦
        let whole = perform_all-cons_some o os f {i = i} {g = g} {h = k} {js = js} a b in
        record {
          first = i;
          middle = g;
          rest = js;
          starts = a;
          goes_on = cc (b, whole);
          inverses = cc whole;
        }
  ]
]

perform_all-append :
    (os ps : InverseCommand) (f : Store) {is js : InverseCommand} {g h : Store}
    → perform_all os f ≡ some (is, g)
    → perform_all ps g ≡ some (js, h)
    → perform_all (os ++ ps) f ≡ some (js ++ is, h)
unfolding perform_all
perform_all-append [] ps f {is} {js} a b = cc (a, b, append-nil js)
perform_all-append (o ∷ os) ps f {is} {js} {g} {h} a b =
    let p = perform_all-cons o os f {is = is} {h = g} a in
    perform_all-cons_some o (os ++ ps) f p.starts
      (perform_all-append os ps p.middle {is = p.rest} {js = js} {g = g} {h = h} p.goes_on b)
    ∙ cc (p.inverses, append_assoc js p.rest (p.first ∷ []))

perform_all-one :
    (o i : PrimitiveCommand) (f g : Store)
    → perform o f ≡ some (i, g)
    → perform_all (o ∷ []) f ≡ some (i ∷ [], g)
unfolding perform_all
perform_all-one o i f g h = ap (λ v. go_on v (perform_all [])) h

pub perform_all-IsKeyed :
    (os : InverseCommand) (f : Store) {is : InverseCommand} {g : Store}
    → IsKeyed f
    → perform_all os f ≡ some (is, g)
    → IsKeyed g
unfolding perform_all
perform_all-IsKeyed [] f keyed h = subst IsKeyed (cc h) keyed
perform_all-IsKeyed (o ∷ os) f {is} {g} keyed h =
    let p = perform_all-cons o os f {is = is} {h = g} h in
    perform_all-IsKeyed os p.middle (perform-IsKeyed o f keyed p.starts) p.goes_on

-- Where a sequence of primitive commands has a result on a map whose corridors stand under their own
-- identifiers, the inverses that it collects lead back from the map after it to the map before it,
-- and the inverses collected on the way back are the sequence.
pub perform_all-inverse :
    (os : InverseCommand) (f : Store) {is : InverseCommand} {g : Store}
    → IsKeyed f
    → perform_all os f ≡ some (is, g)
    → perform_all is g ≡ some (os, f)
unfolding perform_all
perform_all-inverse [] f {is} {g} keyed h =
    let none_left : is ≡ [] = cc h in let same : g ≡ f = cc h in ap₂ perform_all none_left same
perform_all-inverse (o ∷ os) f {is} {g} keyed h =
    let p = perform_all-cons o os f {is = is} {h = g} h in
    let back = perform_all-inverse os p.middle (perform-IsKeyed o f keyed p.starts) p.goes_on in
    let last = perform_all-one p.first o p.middle f (perform-inverse o f keyed p.starts) in
    ap (λ v. perform_all v g) p.inverses ∙ perform_all-append p.rest (p.first ∷ []) g back last
