-- ===== src/GateServer/Query/Lookup.antt =====
-- What the map of parameters holds after its assignments.
use learncc.Prelude.{◌≡◌, ◌↔◌, refl, true, [], ◌∷◌, Option, none, some, arith, if◌then◌else◌}
use learncc.GateServer.Query.{Text, Params, text_eq, insert}

pub text_eq_iff : (xs ys : Text) → (text_eq xs ys ≡ true) ↔ (xs ≡ ys)
unfolding text_eq
text_eq_iff [] [] = ground arith
text_eq_iff [] (y ∷ ys) = ground arith
text_eq_iff (x ∷ xs) [] = ground arith
text_eq_iff (x ∷ xs) (y ∷ ys) = ground (arith, text_eq_iff xs ys)

pub find : Text → Params → Option Text
find k [] = none
find k ((j, v) ∷ ps) = if text_eq j k then some v else find k ps

pub find-insert :
    (j k v : Text) (ps : Params)
    → find j (insert k v ps) ≡ (if text_eq k j then some v else find j ps)
unfolding find insert
find-insert j k v [] = refl
find-insert j k v ((i, w) ∷ ps) =
    ground (arith, text_eq_iff i k, text_eq_iff i j, text_eq_iff k j, find-insert j k v ps)

-- Assigns the pairs in order.
unfoldable pub insert_all : Params → Params → Params
insert_all [] ps = ps
insert_all ((k, v) ∷ qs) ps = insert_all qs (insert k v ps)

-- The value of the last pair with key `k`.
pub last_value : Text → Params → Option Text
last_value k [] = none
last_value k ((j, v) ∷ qs) = elim (last_value k qs) [
  | some w ↦ some w
  | none ↦ if text_eq j k then some v else none
]

find-insert_all :
    (k : Text) (qs ps : Params)
    → find k (insert_all qs ps) ≡ elim (last_value k qs) [ some w ↦ some w | none ↦ find k ps ]
unfolding insert_all last_value
find-insert_all k [] ps = refl
find-insert_all k ((j, v) ∷ qs) ps =
    ground (arith, find-insert_all k qs (insert j v ps), find-insert k j v ps)

pub find-insert_all_nil : (k : Text) (qs : Params) → find k (insert_all qs []) ≡ last_value k qs
unfolding find
find-insert_all_nil k qs = ground (arith, find-insert_all k qs [])
