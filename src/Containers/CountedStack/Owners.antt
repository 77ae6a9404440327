-- ===== src/Containers/CountedStack/Owners.antt =====
-- Who owns a node of the counted stack, and what its counts say then.
use learncc.Prelude.{
  ℕ, ◌+◌, ◌≤◌, ◌<◌, ◌≡◌, ◌≢◌, ◌∙◌, sym, subst, Bool, true, false, List, [], ◌∷◌, Option, some, ◌==◌,
  put, Every, count, arith, inl, inr, Bool-cases,
}
use learncc.Containers.CountedStack.{
  Ptr, Thread, entering, holding, leaving, won, swapped, pushing, Stack,
}
use learncc.Containers.CountedStack.Counting.{holds, claims, total}

-- A node is not made yet, has a thread that pushes it, is in the list with a count that points to it, was
-- taken by a thread that has still to add that count, is used by threads that lost it, or is deleted.
pub data Phase : Type 0 where
  unmade : Phase
  owned : Phase
  linked : ℕ → Phase
  pending : ℕ → Phase
  out : Phase
  gone : Phase

-- What is known of one node: both parts of its `internal_count`, the threads that hold it and that own it,
-- whether it is deleted, and how often it is in the list.
pub record Cell : Type 0 where
  pub plus : ℕ
  pub minus : ℕ
  pub holders : ℕ
  pub owners : ℕ
  pub freed : Bool
  pub listed : ℕ

abbrev pub Agrees : Phase → Cell → Type 0
Agrees unmade c =
    (c.plus ≡ 0)
    × (c.minus ≡ 0)
    × (c.holders ≡ 0)
    × (c.owners ≡ 0)
    × (c.freed ≡ false)
    × (c.listed ≡ 0)
Agrees owned c =
    (c.plus ≡ 0)
    × (c.minus ≡ 0)
    × (c.holders ≡ 0)
    × (c.owners ≡ 1)
    × (c.freed ≡ false)
    × (c.listed ≡ 0)
Agrees (linked e) c =
    (c.plus ≡ 0)
    × (e ≡ c.minus + 1 + c.holders)
    × (c.owners ≡ 0)
    × (c.freed ≡ false)
    × (c.listed ≡ 1)
Agrees (pending e) c =
    (c.plus ≡ 0)
    × (e ≡ c.minus + 2 + c.holders)
    × (c.owners ≡ 1)
    × (c.freed ≡ false)
    × (c.listed ≡ 0)
Agrees out c =
    (c.plus ≡ c.minus + c.holders)
    × (0 < c.holders)
    × (c.owners ≡ 0)
    × (c.freed ≡ false)
    × (c.listed ≡ 0)
Agrees gone c = (c.holders ≡ 0) × (c.owners ≡ 0) × (c.freed ≡ true) × (c.listed ≡ 0)

abbrev pub cell : Stack → List ℕ → ℕ → Cell
cell s ns m = record {
  plus = s.plus m;
  minus = s.minus m;
  holders = total (holds m) s.threads;
  owners = total (claims m) s.threads;
  freed = s.freed m;
  listed = count m ns;
}

-- The list of nodes from a pointer on: the count of a node is the one that points to it.
abbrev pub Walk : (ℕ → ℕ) → (ℕ → Phase) → (ℕ → Option ℕ) → (ℕ → Ptr) → Ptr → List ℕ → Type 0
Walk value φ data_of next_of p [] = p.node ≡ 0
Walk value φ data_of next_of p (n ∷ ns) =
    (p.node ≡ n)
    × (0 < n)
    × (φ n ≡ linked p.external_count)
    × (data_of n ≡ some (value n))
    × Walk value φ data_of next_of (next_of n) ns

-- What a thread that owns a node knows.
abbrev pub Fits : (ℕ → ℕ) → (ℕ → Phase) → (ℕ → Option ℕ) → Thread → Type 0
Fits value φ data_of (won e n) = (φ n ≡ pending e) × (data_of n ≡ some (value n))
Fits value φ data_of (swapped e n) = φ n ≡ pending e
Fits value φ data_of (pushing n) = (φ n ≡ owned) × (0 < n) × (data_of n ≡ some (value n))
Fits value φ data_of (holding e n) = 0 < n
Fits value φ data_of t = Unit

-- The stack has these nodes.
pub record Inv (value : ℕ → ℕ) (s : Stack) (ns : List ℕ) : Type 0 where
  pub phase : ℕ → Phase
  pub agrees : (m : ℕ) → Agrees (phase m) (cell s ns m)
  pub walk : Walk value phase s.data_of s.next_of s.head ns
  pub fits : Every (Fits value phase s.data_of) s.threads
  pub unmade_after : (m : ℕ) → s.made < m → phase m ≡ unmade
  pub made_until : (m : ℕ) → 0 < m → m ≤ s.made → phase m ≢ unmade

-- A phase changes at one node only.
module _ (value : ℕ → ℕ) (φ : ℕ → Phase) (f f' : ℕ → Option ℕ) (g g' : ℕ → Ptr) (n : ℕ) (x : Phase)
    (same_f : (m : ℕ) → n ≢ m → f' m ≡ f m) (same_g : (m : ℕ) → n ≢ m → g' m ≡ g m) where
  put-other : (m : ℕ) → n ≢ m → put φ n x m ≡ φ m
  put-other m d = ground (arith, d)

  pub Walk-put :
      (p : Ptr) (ns : List ℕ)
      → count n ns ≡ 0
      → Walk value φ f g p ns
      → Walk value (put φ n x) f' g' p ns
  Walk-put p [] c w = w
  Walk-put p (m ∷ ns) c (at, above, l, d, w) =
      let other : n ≢ m = ground (arith, c) in
      (
        at,
        above,
        put-other m other ∙ l,
        same_f m other ∙ d,
        subst (λ q. Walk value (put φ n x) f' g' q ns) (sym (same_g m other))
            (Walk-put (g m) ns (ground (arith, c)) w),
      )

  Fits-put_one : (t : Thread) → claims n t ≡ 0 → Fits value φ f t → Fits value (put φ n x) f' t
  Fits-put_one (entering old) c h = tt
  Fits-put_one (holding e m) c h = h
  Fits-put_one (leaving m old) c h = tt
  Fits-put_one (won e m) c (l, d) =
      let other : n ≢ m = ground (arith, c) in (put-other m other ∙ l, same_f m other ∙ d)
  Fits-put_one (swapped e m) c l = let other : n ≢ m = ground (arith, c) in put-other m other ∙ l
  Fits-put_one (pushing m) c (l, above, d) =
      let other : n ≢ m = ground (arith, c) in (put-other m other ∙ l, above, same_f m other ∙ d)

  pub Fits-put :
      (ts : List Thread)
      → total (claims n) ts ≡ 0
      → Every (Fits value φ f) ts
      → Every (Fits value (put φ n x) f') ts
  Fits-put [] c h = tt
  Fits-put (t ∷ ts) c (h, hs) =
      (Fits-put_one t (omega (arith, c)) h, Fits-put ts (omega (arith, c)) hs)

pub Agrees-put :
    (φ : ℕ → Phase) (n : ℕ) (x : Phase) (old new : ℕ → Cell)
    → Agrees x (new n)
    → ((m : ℕ) → n ≢ m → new m ≡ old m)
    → ((m : ℕ) → Agrees (φ m) (old m))
    → (m : ℕ) → Agrees (put φ n x m) (new m)
Agrees-put φ n x old new here same each m = elim (Bool-cases (n == m)) [
  | inl is ↦
      let self : (n == n) ≡ true = ground arith in
      let at_n : n ≡ m = ground (arith, is) in
      subst (λ k. Agrees (put φ n x k) (new k)) at_n (rw (self) here)
  | inr other ↦ rw (other) (subst (Agrees (φ m)) (sym (same m (ground (arith, other)))) (each m))
]

pub unmade_put :
    (φ : ℕ → Phase) (n : ℕ) (x : Phase) (made : ℕ)
    → φ n ≢ unmade
    → ((m : ℕ) → made < m → φ m ≡ unmade)
    → (m : ℕ) → made < m
    → put φ n x m ≡ unmade
unmade_put φ n x made is_made after m l = elim (Bool-cases (n == m)) [
  | inl is ↦
      let at_m : m ≡ n = ground (arith, is) in
      absurd (is_made (subst (λ k. φ k ≡ unmade) at_m (after m l)))
  | inr other ↦ rw (other) (after m l)
]

pub made_put :
    (φ : ℕ → Phase) (n : ℕ) (x : Phase) (made : ℕ)
    → x ≢ unmade
    → ((m : ℕ) → 0 < m → m ≤ made → φ m ≢ unmade)
    → (m : ℕ) → 0 < m
    → m ≤ made
    → put φ n x m ≢ unmade
made_put φ n x made is_made until m above l = elim (Bool-cases (n == m)) [
  | inl is ↦ rw (is) is_made
  | inr other ↦ rw (other) (until m above l)
]

-- No phase changes, and at most one cell.
pub Agrees-at :
    (φ : ℕ → Phase) (n : ℕ) (old new : ℕ → Cell)
    → Agrees (φ n) (new n)
    → ((m : ℕ) → n ≢ m → new m ≡ old m)
    → ((m : ℕ) → Agrees (φ m) (old m))
    → (m : ℕ) → Agrees (φ m) (new m)
Agrees-at φ n old new here same each m = elim (Bool-cases (n == m)) [
  | inl is ↦ let at_n : n ≡ m = ground (arith, is) in subst (λ k. Agrees (φ k) (new k)) at_n here
  | inr other ↦ subst (Agrees (φ m)) (sym (same m (ground (arith, other)))) (each m)
]

-- A thread that leaves a node.
abbrev pub Left : Cell → Cell → Type 0
Left c d =
    (c.plus ≡ d.plus)
    × (d.minus ≡ c.minus + 1)
    × (c.holders ≡ d.holders + 1)
    × (c.owners ≡ d.owners)
    × (c.freed ≡ d.freed)
    × (c.listed ≡ d.listed)

pub Left-Agrees :
    (x : Phase) (c d : Cell) → Left c d → c.plus ≢ c.minus + 1 → Agrees x c → Agrees x d
Left-Agrees unmade c d l ne a = ground arith
Left-Agrees owned c d l ne a = ground arith
Left-Agrees (linked e) c d l ne a = ground arith
Left-Agrees (pending e) c d l ne a = ground arith
Left-Agrees out c d l ne a = ground arith
Left-Agrees gone c d l ne a = ground arith

pub Left-last :
    (x : Phase) (c d : Cell)
    → Left c d
    → c.plus ≡ c.minus + 1
    → Agrees x c
    → (x ≢ unmade) × (d.holders ≡ 0) × (d.owners ≡ 0) × (d.listed ≡ 0)
Left-last unmade c d l e a = ground arith
Left-last owned c d l e a = ground arith
Left-last (linked k) c d l e a = ground arith
Left-last (pending k) c d l e a = ground arith
Left-last out c d l e a = ground arith
Left-last gone c d l e a = ground arith

-- Nobody uses a deleted node.
pub used-alive : (x : Phase) (c : Cell) → 0 < c.holders + c.owners → Agrees x c → c.freed ≡ false
used-alive unmade c u a = ground arith
used-alive owned c u a = ground arith
used-alive (linked k) c u a = ground arith
used-alive (pending k) c u a = ground arith
used-alive out c u a = ground arith
used-alive gone c u a = ground arith
