-- ===== src/Mmuduo/Server/Dispatch.antt =====
-- Connections are spread over the loops in turn.
use learncc.Prelude.{
  ℕ, zero, suc, ◌+◌, ◌≤◌, ◌≡◌, refl, ap, ◌∙◌, false, List, [], ◌∷◌, ◌++◌, append_assoc, length,
  length-append, get_or, arith,
}
use learncc.Mmuduo.Server.{LoopPool, get_nextloop, is_empty}

-- The loops of `k` connections in a row, and the pool.
pub dispatch : ℕ → LoopPool → List ℕ × LoopPool
dispatch zero p = ([], p)
dispatch (suc k) p =
    let (loop, p') = get_nextloop p in let (loops, p'') = dispatch k p' in (loop ∷ loops, p'')

get_or-append : (us ls : List ℕ) (b d : ℕ) → get_or (us ++ (b ∷ ls)) (length us) d ≡ b
get_or-append [] ls b d = refl
get_or-append (a ∷ us) ls b d = get_or-append us ls b d

is_empty-append : (us ls : List ℕ) (b : ℕ) → is_empty (us ++ (b ∷ ls)) ≡ false
is_empty-append [] ls b = refl
is_empty-append (a ∷ us) ls b = refl

get_nextloop-last :
    (base : ℕ) (us : List ℕ) (b : ℕ)
    → get_nextloop (record { base = base; loops = us ++ (b ∷ []); next = length us })
      ≡ (b, record { base = base; loops = us ++ (b ∷ []); next = 0 })
unfolding get_nextloop
get_nextloop-last base us b =
    ground (arith, get_or-append us [] b base, is_empty-append us [] b, length-append us (b ∷ []))

get_nextloop-more :
    (base : ℕ) (us ls : List ℕ) (b c : ℕ)
    → get_nextloop (record { base = base; loops = us ++ (b ∷ c ∷ ls); next = length us })
      ≡ (b, record { base = base; loops = us ++ (b ∷ c ∷ ls); next = length us + 1 })
unfolding get_nextloop
get_nextloop-more base us ls b c = ground (
  arith,
  get_or-append us (c ∷ ls) b base,
  is_empty-append us (c ∷ ls) b,
  length-append us (b ∷ c ∷ ls),
)

dispatch-suc :
    (k : ℕ) (p : LoopPool) {b : ℕ} {p' : LoopPool}
    → get_nextloop p ≡ (b, p')
    → dispatch (suc k) p ≡ (b ∷ (dispatch k p').0, (dispatch k p').1)
unfolding dispatch
dispatch-suc k p e = rw (e) refl

dispatch-zero : (p : LoopPool) → dispatch 0 p ≡ ([], p)
unfolding dispatch
dispatch-zero p = refl

-- From the loop that is next on, connections go to each further loop once and in order; behind the
-- last one the first is next.
pub dispatch-rest :
    (base : ℕ) (us ls : List ℕ)
    → 1 ≤ length ls
    → dispatch (length ls) (record { base = base; loops = us ++ ls; next = length us })
      ≡ (ls, record { base = base; loops = us ++ ls; next = 0 })
dispatch-rest base us [] h = absurd (omega arith)
dispatch-rest base us (b ∷ []) h =
    dispatch-suc 0 _ (get_nextloop-last base us b)
    ∙ ap (λ r. (b ∷ r.0, r.1))
        (dispatch-zero (record { base = base; loops = us ++ (b ∷ []); next = 0 }))
dispatch-rest base us (b ∷ c ∷ ls) h =
    let longer : length (us ++ (b ∷ [])) ≡ length us + 1 =
      omega (arith, length-append us (b ∷ [])) in
    let later : dispatch (length (c ∷ ls))
          (record { base = base; loops = us ++ (b ∷ c ∷ ls); next = length us + 1 })
        ≡ (c ∷ ls, record { base = base; loops = us ++ (b ∷ c ∷ ls); next = 0 }) =
      rw⁻¹ (append_assoc us (b ∷ []) (c ∷ ls), longer)
        (dispatch-rest base (us ++ (b ∷ [])) (c ∷ ls) (omega arith)) in
    dispatch-suc (length (c ∷ ls)) _ (get_nextloop-more base us ls b c)
    ∙ ap (λ r. (b ∷ r.0, r.1)) later
