-- ===== src/GateServer/Query/Tests.antt =====
-- Runs of the query parser, and the theorems at a concrete request.
use learncc.Prelude.{◌≡◌, [], ◌∷◌, ◌++◌, arith}
use learncc.GateServer.Query.{Text, Params, ok, parse_getparam}
use learncc.GateServer.Query.Lookup.{find, last_value}
use learncc.GateServer.Query.RoundTrip.{render, parse_getparam-render}

abbrev path : Text
path = b'/' ∷ b'a' ∷ []

-- "k" is given twice.
abbrev pairs : Params
pairs = (b'k' ∷ [], b'1' ∷ []) ∷ (b'&' ∷ [], b'=' ∷ []) ∷ (b'k' ∷ [], b'2' ∷ []) ∷ []

parse_getparam-render_example :
    (ps : Params) × (parse_getparam (path ++ b'?' ∷ render pairs) ≡ ok (path, ps))
    × ((k : Text) → find k ps ≡ last_value k pairs)
parse_getparam-render_example = parse_getparam-render path pairs (omega arith) (omega arith)
