-- ===== src/MemoryPool/NgxPool/Bounds.antt =====
-- Where the addresses that the pool hands out lie.
use learncc.Prelude.{
  ℕ, ◌+◌, ◌*◌, ◌/◌, ◌%◌, ◌^◌, ◌≤◌, ◌<◌, ◌≡◌, ◌⊎◌, inl, inr, refl, ap, Bool, true, List, [], ◌∷◌,
  ◌++◌, some, map, leb, add_size, sub_size, arith, Every, Option-cases, Bool-cases,
}
use learncc.Prelude.Bits.{bit_and_8}
use learncc.MemoryPool.NgxPool.{
  Block, Pool, data_size, header_size, align_ptr, candidate, first_fit, count_failures, first_size,
}

-- A block whose free part lies inside it and ends at a multiple of 8.
pub record IsSound (b : Block) : Type 0 where
  pub placed : b.start % 8 ≡ 0
  pub inside : b.start ≤ b.last
  pub within : b.last ≤ b.end
  pub aligned : b.end % 8 ≡ 0
  pub fits : b.end + 8 < 2 ^ 64

-- `a` was cut from the free part of one block, which is shorter by it, and the others are the same.
abbrev pub IsCut : ℕ → ℕ → List Block → List Block → Type 0
IsCut a size (b ∷ bs) (c ∷ cs) =
    ((b.last ≤ a) × (a + size ≤ b.end) × (c ≡ record b { last = a + size }) × (cs ≡ bs))
    ⊎ ((c ≡ b) × IsCut a size bs cs)
IsCut a size _ _ = ⊥

pub align_ptr_eq : (p : ℕ) → p + 8 < 2 ^ 64 → align_ptr p ≡ (p + 7) / 8 * 8
unfolding align_ptr
align_ptr_eq p h = ground (arith, bit_and_8 (p + 7))

candidate_bounds :
    (align : Bool) (b : Block)
    → IsSound b
    → (b.last ≤ candidate align b)
      × (candidate align b ≤ b.end)
      × (align ≡ true → candidate align b % 8 ≡ 0)
unfolding candidate
candidate_bounds align b v = ground (arith, align_ptr_eq b.last)

-- The block at hand serves the request, or a later one does.
first_fit_cases :
    (align : Bool) (size : ℕ) (b : Block) (bs : List Block) {a : ℕ} {cs : List Block}
    → first_fit align size (b ∷ bs) ≡ some (a, cs)
    → ((size ≤ sub_size b.end (candidate align b))
        × (a ≡ candidate align b)
        × (cs ≡ record b { last = add_size a size } ∷ bs))
      ⊎ ((ds : List Block) × (first_fit align size bs ≡ some (a, ds)) × (cs ≡ b ∷ ds))
unfolding first_fit
first_fit_cases align size b bs {a} {cs} e =
    elim (Bool-cases (leb size (sub_size b.end (candidate align b)))) [
      | inl fits ↦ inl (ground arith, ground arith, ground arith)
      | inr full ↦ elim (Option-cases (first_fit align size bs)) [
        | inl no_block ↦ absurd (ground arith)
        | inr ((d, ds), later) ↦ inr (ds, ground arith, ground arith)
      ]
    ]

cut-IsSound :
    (b : Block) (a size : ℕ)
    → IsSound b
    → b.last ≤ a
    → a + size ≤ b.end
    → IsSound (record b { last = a + size })
cut-IsSound b a size v h k = ground arith

pub first_fit-IsCut :
    (align : Bool) (size : ℕ) (bs : List Block) (a : ℕ) (cs : List Block)
    → Every IsSound bs
    → first_fit align size bs ≡ some (a, cs)
    → IsCut a size bs cs × Every IsSound cs × (align ≡ true → a % 8 ≡ 0)
unfolding first_fit
first_fit-IsCut align size [] a cs v e = absurd (ground arith)
first_fit-IsCut align size (b ∷ bs) a cs v e = elim (first_fit_cases align size b bs e) [
  | inl (fits, at, shape) ↦
      let (after, before, aligned) = candidate_bounds align b v.0 in
      let sum : add_size a size ≡ a + size = ground (arith, v.0.fits) in
      rw (shape, sum)
        (
          inl (ground arith, ground (arith, v.0.fits), refl, refl),
          (cut-IsSound b a size v.0 (ground arith) (ground (arith, v.0.fits)), v.1),
          λ al. ground (arith, aligned al),
        )
  | inr (ds, later, shape) ↦
      let (cut, sound, aligned) = first_fit-IsCut align size bs a ds v.1 later in
      rw shape (inr (refl, cut), (v.0, sound), aligned)
]

-- Where the blocks begin and end, and how far they are used.
abbrev pub spans : List Block → List (ℕ × ℕ × ℕ)
spans bs = map (λ b. (b.start, b.last, b.end)) bs

pub count_failures-spans :
    (i current : ℕ) (bs : List Block) → spans (count_failures i current bs).0 ≡ spans bs
unfolding count_failures
count_failures-spans i current [] = refl
count_failures-spans i current (b ∷ []) = refl
count_failures-spans i current (b ∷ c ∷ bs) =
    ap (λ l. (b.start, b.last, b.end) ∷ l) (count_failures-spans (i + 1) _ (c ∷ bs))

pub count_failures-IsSound :
    (i current : ℕ) (bs : List Block)
    → Every IsSound bs
    → Every IsSound (count_failures i current bs).0
unfolding count_failures
count_failures-IsSound i current [] v = tt
count_failures-IsSound i current (b ∷ []) v = v
count_failures-IsSound i current (b ∷ c ∷ bs) v =
    (ground (arith, v.0), count_failures-IsSound (i + 1) _ (c ∷ bs) v.1)

pub IsCut-append :
    (a size : ℕ) (ps xs ys : List Block) → IsCut a size xs ys → IsCut a size (ps ++ xs) (ps ++ ys)
IsCut-append a size [] xs ys h = h
IsCut-append a size (p ∷ ps) xs ys h = inr (refl, IsCut-append a size ps xs ys h)

-- Cutting leaves the places of the blocks, so also the size of the first one.
pub first_size-IsCut :
    (a size : ℕ) (bs cs : List Block) → IsCut a size bs cs → first_size cs ≡ first_size bs
first_size-IsCut a size [] cs h = elim h [ ]
first_size-IsCut a size (b ∷ bs) [] h = elim h [ ]
first_size-IsCut a size (b ∷ bs) (c ∷ cs) h = ground arith

-- The blocks are sound, and a new block has room for the largest small request.
pub record IsValid (pool : Pool) : Type 0 where
  pub sound : Every IsSound pool.blocks
  pub room : pool.max + header_size ≤ first_size pool.blocks

-- What a small request of `size` bytes may find: no memory, room in a block, or a new block at `m`.
pub data Served (pool pool' : Pool) (size m a : ℕ) : Type 0 where
  refused : a ≡ 0 → m ≡ 0 → pool' ≡ pool → Served pool pool' size m a
  cut : IsCut a size pool.blocks pool'.blocks → Served pool pool' size m a
  fresh :
      m + data_size ≤ a
      → a + size ≤ m + first_size pool.blocks
      → spans pool'.blocks ≡ spans pool.blocks ++ ((m, a + size, m + first_size pool.blocks) ∷ [])
      → Served pool pool' size m a

pub first_size-spans :
    (bs cs : List Block) (t : List (ℕ × ℕ × ℕ))
    → 0 < first_size bs
    → spans cs ≡ spans bs ++ t
    → first_size cs ≡ first_size bs
first_size-spans [] cs t h e = absurd (omega arith)
first_size-spans (b ∷ bs) [] t h e = absurd (ground arith)
first_size-spans (b ∷ bs) (c ∷ cs) t h e = ground arith

pub first_size-aligned : (bs : List Block) → Every IsSound bs → first_size bs % 8 ≡ 0
first_size-aligned [] v = refl
first_size-aligned (b ∷ bs) v = ground (arith, v.0)
