-- ===== src/GateServer/Query.antt =====
-- `http_conn::parse_getparam` of src/gateserver/http_conn.cc: the path and the parameters of a GET
-- request. The map of parameters is an association list with one entry for a key.
pub mod Lookup
pub mod RoundTrip
pub mod Total
mod Tests
use learncc.Prelude.{
  ℕ, zero, suc, Bool, true, false, ◌&&◌, List, [], ◌∷◌, ◌++◌, Option, none, some, ◌==◌,
  if◌then◌else◌, length,
}
use mathlib.Core.Option
use learncc.GateServer.Url.{url_decode}

abbrev pub Text : Type 0
Text = List ℕ

abbrev pub Params : Type 0
Params = List (Text × Text)

pub text_eq : Text → Text → Bool
text_eq [] [] = true
text_eq [] (y ∷ ys) = false
text_eq (x ∷ xs) [] = false
text_eq (x ∷ xs) (y ∷ ys) = x == y && text_eq xs ys

-- `get_params_[key] = value`
pub insert : Text → Text → Params → Params
insert k v [] = (k, v) ∷ []
insert k v ((j, w) ∷ ps) = if text_eq j k then (k, v) ∷ ps else (j, w) ∷ insert k v ps

-- The parts in front of and behind the first `c`, as `find` with two calls of `substr` gives them.
pub cut : ℕ → Text → Option (Text × Text)
cut c [] = none
cut c (x ∷ s) = if x == c then some ([], s) else Option.map (λ p. (x ∷ p.0, p.1)) (cut c s)

-- How parsing ends: with a value, in a failed assertion of `url_decode`, or (never, see Total) out
-- of fuel.
pub data Parse (A : Type 0) : Type 0 where
  ok : A → Parse A
  abort : Parse A
  out_of_fuel : Parse A

infixl 5 ◌>>=◌
abbrev pub ◌>>=◌ : {A B : Type 0} → Parse A → (A → Parse B) → Parse B
ok a >>= f = f a
abort >>= f = abort
out_of_fuel >>= f = out_of_fuel

pub decoded : Text → Parse Text
decoded s = elim (url_decode s) [ none ↦ abort | some t ↦ ok t ]

-- The body of the `if (eq_pos != npos)`; a pair with no `=` is passed over.
pub add_pair : Text → Params → Parse Params
unfolding decoded
add_pair pair ps = elim (cut b'=' pair) [
  | none ↦ ok ps
  | some (k, v) ↦ do key ← decoded k; value ← decoded v; ok (insert key value ps)
]

-- The last pair, behind which no `&` stands.
pub add_last : Text → Params → Parse Params
add_last [] ps = ok ps
add_last (c ∷ s) ps = add_pair (c ∷ s) ps

-- `while ((pos = query_string.find('&')) != npos)`, then the last pair.
pub query_loop : ℕ → Text → Params → Parse Params
query_loop zero query ps = out_of_fuel
query_loop (suc fuel) query ps = elim (cut b'&' query) [
  | none ↦ add_last query ps
  | some (pair, rest) ↦ add_pair pair ps >>= λ ps'. query_loop fuel rest ps'
]

-- `get_url_` and `get_params_` after the call, from a connection that has no parameters yet.
pub parse_getparam : Text → Parse (Text × Params)
parse_getparam uri = elim (cut b'?' uri) [
  | none ↦ ok (uri, [])
  | some (url, query) ↦ do ps ← query_loop (suc (length query)) query []; ok (url, ps)
]
