-- ===== src/GateServer/Query/Total.antt =====
-- The loop over the query string ends within its fuel.
use learncc.Prelude.{
  ℕ, zero, suc, ◌<◌, ◌≡◌, ◌≢◌, refl, [], ◌∷◌, some, arith, length, Option-cases, inl, inr,
}
use learncc.GateServer.Query.{
  Text, Params, Parse, ok, abort, out_of_fuel, cut, decoded, add_pair, add_last, query_loop,
  parse_getparam, ◌>>=◌,
}

-- The part behind the separator is shorter than the text.
cut-shorter : (c : ℕ) (s : Text) {p : Text × Text} → cut c s ≡ some p → length p.1 < length s
unfolding cut
cut-shorter c [] e = cc
cut-shorter c (x ∷ s) {p} e = elim (Option-cases (cut c s)) [
  | inl none_left ↦ ground (arith, none_left)
  | inr (q, found) ↦ ground (arith, found, cut-shorter c s found)
]

add_pair-ne : (pair : Text) (ps : Params) → add_pair pair ps ≢ out_of_fuel
unfolding add_pair decoded
add_pair-ne pair ps = ground arith

add_last-ne : (pair : Text) (ps : Params) → add_last pair ps ≢ out_of_fuel
unfolding add_last
add_last-ne [] ps = ground arith
add_last-ne (c ∷ s) ps = add_pair-ne (c ∷ s) ps

>>=-ne :
    {A B : Type 0} (m : Parse A) (f : A → Parse B)
    → m ≢ out_of_fuel
    → ((a : A) → f a ≢ out_of_fuel)
    → (m >>= f) ≢ out_of_fuel
>>=-ne (ok a) f h g = g a
>>=-ne abort f h g = λ e. cc
>>=-ne out_of_fuel f h g = absurd (h refl)

query_loop-ne :
    (fuel : ℕ) (query : Text) (ps : Params)
    → length query < fuel
    → query_loop fuel query ps ≢ out_of_fuel
unfolding query_loop
query_loop-ne zero query ps h = absurd (omega arith)
query_loop-ne (suc fuel) query ps h = elim (Option-cases (cut b'&' query)) [
  | inl last ↦ rw (last, query_loop) (add_last-ne query ps)
  | inr (p, found) ↦
      rw (found, query_loop)
        (>>=-ne (add_pair p.0 ps) _ (add_pair-ne p.0 ps)
          (λ ps'. query_loop-ne fuel p.1 ps' (omega (arith, cut-shorter b'&' query found))))
]

-- `parse_getparam` ends on every request: with a path and parameters, or in a failed assertion.
pub parse_getparam-ne-out_of_fuel : (uri : Text) → parse_getparam uri ≢ out_of_fuel
unfolding parse_getparam
parse_getparam-ne-out_of_fuel uri = elim (Option-cases (cut b'?' uri)) [
  | inl bare ↦ rw (bare, parse_getparam) (λ e. cc)
  | inr (p, found) ↦
      rw (found, parse_getparam)
        (>>=-ne (query_loop (suc (length p.1)) p.1 []) _
          (query_loop-ne (suc (length p.1)) p.1 [] (omega arith)) (λ ps e. cc))
]
