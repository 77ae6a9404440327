-- ===== src/GateServer/Query/RoundTrip.antt =====
-- A query that is written by `url_encode` is read back as its parameters.
use learncc.Prelude.{
  Every, Every-append, Every-mono, ℕ, zero, suc, ◌<◌, ◌≡◌, ◌≢◌, refl, [], ◌∷◌, ◌++◌, none, some,
  arith, length, length-append,
}
use learncc.GateServer.Url.{url_encode}
use learncc.GateServer.Url.RoundTrip.{IsByte, url_decode-url_encode, url_encode-IsUrlChar}
use learncc.GateServer.Query.Lookup.{find, last_value, insert_all, find-insert_all_nil}
use learncc.GateServer.Query.{
  Text, Params, ok, cut, decoded, insert, add_pair, add_last, query_loop, parse_getparam,
}

-- A text without `c`.
abbrev pub Without : ℕ → Text → Type 0
Without c s = Every (λ x. x ≢ c) s

cut-Without : (c : ℕ) (s t : Text) → Without c s → cut c (s ++ c ∷ t) ≡ some (s, t)
unfolding cut
cut-Without c [] t h = ground arith
cut-Without c (x ∷ s) t h = ground (arith, cut-Without c s t h.1)

cut-none : (c : ℕ) (s : Text) → Without c s → cut c s ≡ none
unfolding cut
cut-none c [] h = refl
cut-none c (x ∷ s) h = ground (arith, cut-none c s h.1)

add_none : (ps : Params) → add_pair [] ps ≡ ok ps
unfolding add_pair cut
add_none ps = refl

-- `key=value` with both sides encoded.
abbrev pub render_pair : Text × Text → Text
render_pair (k, v) = url_encode k ++ b'=' ∷ url_encode v

-- Pairs joined by `&`.
pub render : Params → Text
render [] = []
render (p ∷ []) = render_pair p
render (p ∷ q ∷ ps) = render_pair p ++ b'&' ∷ render (q ∷ ps)

abbrev pub ArePairs : Params → Type 0
ArePairs = Every (λ p. Every IsByte p.0 × Every IsByte p.1)

url_encode-Without : (s : Text) → Every IsByte s → Without b'=' (url_encode s)
url_encode-Without s h = Every-mono (url_encode s) (λ x p. p.1) (url_encode-IsUrlChar s h)

render_pair-Without :
    (k v : Text) → Every IsByte k → Every IsByte v → Without b'&' (render_pair (k, v))
render_pair-Without k v hk hv =
    Every-append (λ x. x ≢ b'&') (url_encode k) _
      (Every-mono (url_encode k) (λ x p. p.0) (url_encode-IsUrlChar k hk))
      (omega arith, Every-mono (url_encode v) (λ x p. p.0) (url_encode-IsUrlChar v hv))

add_pair-render :
    (k v : Text) (ps : Params)
    → Every IsByte k
    → Every IsByte v
    → add_pair (render_pair (k, v)) ps ≡ ok (insert k v ps)
unfolding add_pair decoded
add_pair-render k v ps hk hv = ground (
  arith,
  cut-Without b'=' (url_encode k) (url_encode v) (url_encode-Without k hk),
  url_decode-url_encode k hk,
  url_decode-url_encode v hv,
)

add_last-eq : (s : Text) (ps : Params) → add_last s ps ≡ add_pair s ps
unfolding add_last add_pair cut
add_last-eq [] ps = refl
add_last-eq (c ∷ s) ps = refl

query_loop-render :
    (fuel : ℕ) (qs ps : Params)
    → ArePairs qs
    → length (render qs) < fuel
    → query_loop fuel (render qs) ps ≡ ok (insert_all qs ps)
unfolding query_loop render insert_all
query_loop-render zero qs ps h lt = absurd (omega arith)
query_loop-render (suc fuel) [] ps h lt =
    rw (cut-none b'&' [] tt, query_loop, add_last-eq) (add_none ps)
query_loop-render (suc fuel) ((k, v) ∷ []) ps h lt =
    rw
      (
        cut-none b'&' (render_pair (k, v)) (render_pair-Without k v h.0.0 h.0.1),
        query_loop,
        add_last-eq,
      )
      (add_pair-render k v ps h.0.0 h.0.1)
query_loop-render (suc fuel) ((k, v) ∷ q ∷ qs) ps h lt =
    rw
      (
        cut-Without b'&' (render_pair (k, v)) (render (q ∷ qs))
            (render_pair-Without k v h.0.0 h.0.1),
        query_loop,
      )
      (rw (add_pair-render k v ps h.0.0 h.0.1) (
        query_loop-render fuel (q ∷ qs) (insert k v ps) h.1
          (omega (arith, length-append (render_pair (k, v)) (b'&' ∷ render (q ∷ qs))))))

-- A request line that consists of a path without `?` and of encoded pairs is parsed into that path
-- and into parameters of which each key has the last value that the pairs give it.
pub parse_getparam-render :
    (url : Text) (qs : Params)
    → Without b'?' url
    → ArePairs qs
    → (ps : Params) × (parse_getparam (url ++ b'?' ∷ render qs) ≡ ok (url, ps))
      × ((k : Text) → find k ps ≡ last_value k qs)
unfolding parse_getparam
parse_getparam-render url qs h g = (
  insert_all qs [],
  rw (
    cut-Without b'?' url (render qs) h,
    parse_getparam,
    query_loop-render (suc (length (render qs))) qs [] g (omega arith),
  ),
  λ k. find-insert_all_nil k qs,
)
