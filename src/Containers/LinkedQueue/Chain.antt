-- ===== src/Containers/LinkedQueue/Chain.antt =====
-- The values in the linked queue, and what each action does to them.
use learncc.Prelude.{
  ℕ, ◌+◌, ◌≤◌, ◌<◌, ◌≡◌, ◌≢◌, sym, subst, ◌∙◌, List, [], ◌∷◌, ◌++◌, Option, some, arith,
}
use learncc.Containers.LinkedQueue.{Pusher, linking, moving, Popper, taking, advancing, Queue}

-- From the node `s` the links lead by nodes with these values to the node `t`.
unfoldable pub Chain : (ℕ → Option ℕ) → (ℕ → Option ℕ) → ℕ → List ℕ → ℕ → Type 0
Chain f g s [] t = s ≡ t
Chain f g s (v ∷ vs) t = (f s ≡ some v) × (g s ≡ some (s + 1)) × Chain f g (s + 1) vs t

pub Chain-le : (f g : ℕ → Option ℕ) (s : ℕ) (vs : List ℕ) (t : ℕ) → Chain f g s vs t → s ≤ t
unfolding Chain
Chain-le f g s [] t c = omega arith
Chain-le f g s (v ∷ vs) t (e, l, c) = omega (arith, Chain-le f g (s + 1) vs t c)

-- Nodes outside of the chain do not matter.
pub Chain-agree :
    (f g f' g' : ℕ → Option ℕ) (s : ℕ) (vs : List ℕ) (t : ℕ)
    → ((m : ℕ) → s ≤ m → m < t → (f' m ≡ f m) × (g' m ≡ g m))
    → Chain f g s vs t
    → Chain f' g' s vs t
unfolding Chain
Chain-agree f g f' g' s [] t same c = c
Chain-agree f g f' g' s (v ∷ vs) t same (e, l, c) =
    let (same_f, same_g) = same s (omega arith) (omega (arith, Chain-le f g (s + 1) vs t c)) in
    (
      same_f ∙ e,
      same_g ∙ l,
      Chain-agree f g f' g' (s + 1) vs t (λ m low high. same m (omega arith) high) c,
    )

pub Chain-snoc :
    (f g : ℕ → Option ℕ) (s : ℕ) (vs : List ℕ) (t v : ℕ)
    → Chain f g s vs t
    → f t ≡ some v
    → g t ≡ some (t + 1)
    → Chain f g s (vs ++ (v ∷ [])) (t + 1)
unfolding Chain
Chain-snoc f g s [] t v c e l =
    (subst (λ m. f m ≡ some v) (sym c) e, subst (λ m. g m ≡ some (m + 1)) (sym c) l, omega arith)
Chain-snoc f g s (x ∷ vs) t v (e', l', c) e l = (e', l', Chain-snoc f g (s + 1) vs t v c e l)

-- Where the values begin: a consumer that has taken one has not moved the head yet.
abbrev pub start : Popper → ℕ → ℕ
start advancing h = h + 1
start p h = h

-- What the thread inside `push` has written so far.
abbrev pub Written : Pusher → (ℕ → Option ℕ) → (ℕ → Option ℕ) → ℕ → Type 0
Written (linking v) f g t = f t ≡ some v
Written (moving v) f g t = (f t ≡ some v) × (g t ≡ some (t + 1))
Written p f g t = Unit

-- What the thread inside a pop knows.
abbrev pub Known : Popper → (ℕ → Option ℕ) → ℕ → List ℕ → Type 0
Known taking g h vs = vs ≢ []
Known advancing g h vs = g h ≡ some (h + 1)
Known p g h vs = Unit

-- The queue holds these values.
pub record Holds (q : Queue) (vs : List ℕ) : Type 0 where
  pub chain : Chain q.data_of q.next_of (start q.popper q.head) vs q.tail
  pub written : Written q.pusher q.data_of q.next_of q.tail
  pub known : Known q.popper q.next_of q.head vs
