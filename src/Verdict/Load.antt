-- ===== src/Verdict/Load.antt =====
-- What `load` of offchain/soak_verdict.py collects for each order.
use jamswap.Prelude.{
  ◌≡◌, refl, ◌∙◌, Option, some, none, List, [], ◌∷◌, ◌++◌, arith, if◌then◌else◌, Bool-cases, inl,
  inr, ap,
}
use jamswap.Telemetry.{Event}
use jamswap.Telemetry.Store.{Key, same_key, find}
use jamswap.Verdict.{add_event, load_from, load}
use jamswap.Verdict.History.{history}

-- An order's events with one more.
abbrev extended : Option (List Event) → Event → List Event
extended none e = e ∷ []
extended (some es) e = es ++ e ∷ []

find-add_event :
    (k : Key) (e : Event) (orders : List (Key × List Event))
    → find k (add_event e orders)
      ≡ (if same_key k e.key then some (extended (find k orders) e) else find k orders)
unfolding find add_event
find-add_event k e [] = ground arith
find-add_event k e ((j, es) ∷ orders) = ground (arith, find-add_event k e orders)

-- An order's events with the later ones; an order without events is not there.
abbrev pub joined : Option (List Event) → List Event → Option (List Event)
joined none [] = none
joined none (e ∷ es) = some (e ∷ es)
joined (some ds) es = some (ds ++ es)

append_assoc : (xs : List Event) (e : Event) (ys : List Event) → (xs ++ e ∷ []) ++ ys ≡ xs ++ e ∷ ys
append_assoc [] e ys = refl
append_assoc (x ∷ xs) e ys = ap (λ zs. x ∷ zs) (append_assoc xs e ys)

append-nil : (xs : List Event) → xs ++ [] ≡ xs
append-nil [] = refl
append-nil (x ∷ xs) = ap (λ zs. x ∷ zs) (append-nil xs)

joined-nil : (o : Option (List Event)) → joined o [] ≡ o
joined-nil none = refl
joined-nil (some es) = ap some (append-nil es)

joined-extended :
    (o : Option (List Event)) (e : Event) (es : List Event)
    → joined (some (extended o e)) es ≡ joined o (e ∷ es)
joined-extended none e es = refl
joined-extended (some ds) e es = ap some (append_assoc ds e es)

find-load_from :
    (k : Key) (orders : List (Key × List Event)) (log : List Event)
    → find k (load_from orders log) ≡ joined (find k orders) (history k log)
unfolding load_from
find-load_from k orders [] = rw (joined-nil (find k orders)) refl
find-load_from k orders (e ∷ log) =
    find-load_from k (add_event e orders) log
    ∙ rw (find-add_event k e orders) (elim (Bool-cases (same_key k e.key)) [
      | inl same ↦ rw same (joined-extended (find k orders) e (history k log))
      | inr other ↦ rw other refl
    ])

-- `load` files each line of the log under its order, in the order of the log, and no other line.
pub load_groups : (k : Key) (log : List Event) → find k (load log) ≡ joined none (history k log)
unfolding load find
load_groups k log = find-load_from k [] log
