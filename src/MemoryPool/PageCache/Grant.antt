-- ===== src/MemoryPool/PageCache/Grant.antt =====
-- `new_span`: what is handed out, and that the recursion ends.
use learncc.Prelude.{
  ℕ, zero, suc, ◌+◌, ◌-◌, ◌≤◌, ◌<◌, ◌^◌, ◌≡◌, ◌≢◌, ◌⊎◌, inl, inr, refl, ap, List, [], ◌∷◌, none,
  some, arith, count, put, fill_from_lem, Option-cases, List-cases, length,
}
use learncc.MemoryPool.PageCache.{Cache, npages, first_list, split, find_with, find, grow}
use learncc.MemoryPool.PageCache.Tiling.{
  IsApart, IsOwned, IsCovered, IsListed, IsUnlisted, IsTiled, IsHeld, is_some,
}

-- New spans in memory that is zeroed.
abbrev pub zeroed : ℕ → ℕ
zeroed p = 0

-- The first span of a list is free and as long as the list says.
first_on_list :
    (c : Cache) (k i : ℕ) (is : List ℕ)
    → IsTiled c
    → c.lists k ≡ i ∷ is
    → (c.size i ≡ k) × (c.used i ≡ 0) × (1 ≤ k) × (count i is ≡ 0)
first_on_list c k i is v e = ground (arith, v.listed i k)

pop-IsHeld :
    (c : Cache) (k i : ℕ) (is : List ℕ)
    → IsTiled c
    → c.lists k ≡ i ∷ is
    → IsHeld (record c { lists = put c.lists k is }) i
pop-IsHeld c k i is v e =
    let (long, idle, some_pages, once) = first_on_list c k i is v e in
    record {
      spans = record { apart = v.spans.apart; bounded = v.spans.bounded };
      owned = v.owned;
      covered = v.covered;
      listed = λ j n m. ground (arith, v.listed j m);
      unlisted = λ m. ground (arith, v.listed i m);
      there = omega arith;
      idle = idle;
    }

module _ (c : Cache) (pages k i : ℕ) (is : List ℕ) (v : IsTiled c) (top : c.lists k ≡ i ∷ is)
    (some_pages : 1 ≤ pages) (more : pages < k) (short : k < npages) where
  abbrev cut : ℕ
  cut = i + c.size i - pages

  facts : (c.size i ≡ k) × (c.used i ≡ 0) × (count i is ≡ 0)
  facts = let (long, idle, s, once) = first_on_list c k i is v top in (long, idle, once)

  no_cut : c.size cut ≡ 0
  no_cut = ground (arith, facts, v.spans.apart i cut)

  abbrev after : Cache
  after = (split zeroed pages k i is c).1

  split-IsApart : IsApart after
  unfolding split
  split-IsApart = record {
    apart = λ x y l a b. ground (
      arith,
      facts,
      no_cut,
      v.spans.apart x y,
      v.spans.apart i y,
      v.spans.apart x i,
      v.spans.apart i x,
    );
    bounded = λ x a. ground (arith, facts, no_cut, v.spans.bounded x, v.spans.bounded i);
  }

  split-IsOwned : (p : ℕ) → IsOwned after p
  unfolding split
  split-IsOwned p j e =
      ground (arith, facts, no_cut, fill_from_lem pages cut (some cut) c.owner p, v.owned p j)

  split-IsCovered : (j : ℕ) → IsCovered after j
  unfolding split
  split-IsCovered j p low high = ground (
    arith,
    facts,
    no_cut,
    fill_from_lem pages cut (some cut) c.owner p,
    v.covered j p,
    v.covered i p,
    v.spans.apart i j,
    v.spans.apart j i,
  )

  split-IsListed : (j : ℕ) → j ≢ cut → IsListed after j
  unfolding split
  split-IsListed j n m = ground (arith, facts, v.listed j m, v.listed i m)

  split-IsUnlisted : IsUnlisted after cut
  unfolding split
  split-IsUnlisted m = ground (arith, facts, no_cut, v.listed cut m)

  pub split-IsHeld : IsHeld after cut
  unfolding split
  split-IsHeld = record {
    spans = split-IsApart;
    owned = split-IsOwned;
    covered = split-IsCovered;
    listed = split-IsListed;
    unlisted = split-IsUnlisted;
    there = ground (arith, facts);
    idle = ground (arith, facts);
  }

  split_mapped : (p : ℕ) → is_some (after.owner p) ≡ is_some (c.owner p)
  unfolding split
  split_mapped p =
      ground (arith, facts, fill_from_lem pages cut (some cut) c.owner p, v.covered i p)

first_list_lem :
    (rounds k : ℕ) (c : Cache) {m : ℕ}
    → first_list rounds k c ≡ some m
    → (k ≤ m) × (m < k + rounds) × (1 ≤ length (c.lists m))
unfolding first_list
first_list_lem zero k c e = absurd (ground arith)
first_list_lem (suc rounds) k c e = elim (List-cases (c.lists k)) [
  | inl empty ↦ ground (arith, first_list_lem rounds (k + 1) c (rw (empty, first_list) at e))
  | inr (i, (is, full)) ↦ ground (arith, ap length full)
]

first_list_found :
    (rounds k : ℕ) (c : Cache)
    → k + rounds ≡ npages
    → 1 ≤ rounds
    → 1 ≤ length (c.lists (npages - 1))
    → (m : ℕ) × (first_list rounds k c ≡ some m)
unfolding first_list
first_list_found zero k c e r h = absurd (omega arith)
first_list_found (suc rounds) k c e r h = elim (List-cases (c.lists k)) [
  | inr (i, (is, full)) ↦ (k, rw (full, first_list) refl)
  | inl empty ↦
      let last : k ≢ npages - 1 = λ same. absurd (ground (arith, ap length empty)) in
      let (m, later) = first_list_found rounds (k + 1) c (omega arith) (omega (arith, last)) h in
      (m, rw (empty, first_list) later)
]

-- A span of `pages` pages is at hand, and no page was mapped or unmapped.
abbrev pub IsFound : Cache → ℕ → ℕ × Cache → Type 0
IsFound c pages (i, c') =
    IsHeld c' i × (c'.size i ≡ pages) × ((p : ℕ) → is_some (c'.owner p) ≡ is_some (c.owner p))

split-IsFound :
    (c : Cache) (pages k i : ℕ) (is : List ℕ)
    → IsTiled c
    → c.lists k ≡ i ∷ is
    → 1 ≤ pages
    → pages < k
    → k < npages
    → IsFound c pages (split zeroed pages k i is c)
unfolding split
split-IsFound c pages k i is v top s m short = (
  split-IsHeld c pages k i is v top s m short,
  ground arith,
  split_mapped c pages k i is v top s m short,
)

no_longest :
    (c : Cache) (pages : ℕ)
    → pages < npages
    → c.lists pages ≡ []
    → first_list (npages - (pages + 1)) (pages + 1) c ≡ none
    → length (c.lists (npages - 1)) ≡ 0
no_longest c pages k e n = elim (List-cases (c.lists (npages - 1))) [
  | inl empty ↦ ap length empty
  | inr (i, (is, full)) ↦
      let differ : pages ≢ npages - 1 =
        λ same. absurd (ground (arith, ap length full, ap length e, ap c.lists same)) in
      let (m, found) =
        first_list_found (npages - (pages + 1)) (pages + 1) c (omega arith) (omega (arith, differ))
          (ground (arith, ap length full)) in
      absurd (ground arith)
]

-- Nothing is found only if the longest list is empty.
pub find-IsFound :
    (c : Cache) (pages : ℕ)
    → IsTiled c
    → 1 ≤ pages
    → pages < npages
    → ((find zeroed pages c ≡ none) × (length (c.lists (npages - 1)) ≡ 0))
      ⊎ ((r : ℕ × Cache) × (find zeroed pages c ≡ some r) × IsFound c pages r)
unfolding find find_with
find-IsFound c pages v h k = elim (List-cases (c.lists pages)) [
  | inr (i, (is, full)) ↦ inr (
    (i, record c { lists = put c.lists pages is }),
    rw (full, find_with) refl,
    (pop-IsHeld c pages i is v full, (first_on_list c pages i is v full).0, λ p. refl),
  )
  | inl empty ↦ elim (Option-cases (first_list (npages - (pages + 1)) (pages + 1) c)) [
    | inl none_longer ↦
        inl (rw (empty, none_longer, find_with) refl, no_longest c pages k empty none_longer)
    | inr (m, longer) ↦
        let (low, high, some_there) = first_list_lem (npages - (pages + 1)) (pages + 1) c longer in
        elim (List-cases (c.lists m)) [
          | inl gone ↦ absurd (ground (arith, ap length gone))
          | inr (i, (is, full)) ↦ inr (
            split zeroed pages m i is c,
            rw (empty, longer, full, find_with) refl,
            split-IsFound c pages m i is v full h (omega arith) (omega arith),
          )
        ]
  ]
]

-- What the system may give for `n` pages: they meet no span, and are below the end of the numbers.
pub record IsFree (c : Cache) (a n : ℕ) : Type 0 where
  pub behind : (i : ℕ) → i ≤ a → 1 ≤ c.size i → i + c.size i ≤ a
  pub before : (i : ℕ) → a < i → 1 ≤ c.size i → a + n ≤ i
  pub below : a + n ≤ 2 ^ 52

none_at : (c : Cache) (a n : ℕ) → IsFree c a n → c.size a ≡ 0
none_at c a n f = ground (arith, f.behind a)

unmapped : (c : Cache) (a n p : ℕ) → IsTiled c → IsFree c a n → a ≤ p → p < a + n → c.owner p ≡ none
unmapped c a n p v f low high = elim (Option-cases (c.owner p)) [
  | inl free_page ↦ free_page
  | inr (i, e) ↦ absurd (ground (arith, v.owned p i, f.behind i, f.before i))
]

pub grow-IsTiled :
    (c : Cache) (a : ℕ) → IsTiled c → IsFree c a (npages - 1) → IsTiled (grow zeroed a c)
unfolding grow
grow-IsTiled c a v f =
    let gone = none_at c a (npages - 1) f in
    record {
      spans = record {
        apart = λ i j l x y. ground (arith, v.spans.apart i j, f.behind i, f.before j, gone);
        bounded = λ i x. ground (arith, v.spans.bounded i, f.below);
      };
      owned = λ p i e.
          ground (arith, fill_from_lem (npages - 1) a (some a) c.owner p, v.owned p i, gone);
      covered = λ i p low high. ground (
        arith,
        fill_from_lem (npages - 1) a (some a) c.owner p,
        v.covered i p,
        f.behind i,
        f.before i,
        gone,
      );
      listed = λ i k. ground (arith, v.listed i k, gone);
    }

pub large-IsHeld :
    (c : Cache) (a pages b : ℕ)
    → IsTiled c
    → IsFree c a pages
    → npages ≤ pages
    → IsHeld
        (record c {
          owner = put c.owner a (some a);
          size = put c.size a pages;
          used = put c.used a 0;
          block_size = put c.block_size a b;
        })
        a
large-IsHeld c a pages b v f h =
    let gone = none_at c a pages f in
    record {
      spans = record {
        apart = λ i j l x y. ground (arith, v.spans.apart i j, f.behind i, f.before j, gone);
        bounded = λ i x. ground (arith, v.spans.bounded i, f.below);
      };
      owned = λ p i e. ground (arith, v.owned p i, gone);
      covered = λ i p low high. ground (arith, v.covered i p, f.behind i, f.before i, gone);
      listed = λ i n k. ground (arith, v.listed i k);
      unlisted = λ k. ground (arith, v.listed a k, gone);
      there = ground arith;
      idle = ground arith;
    }
