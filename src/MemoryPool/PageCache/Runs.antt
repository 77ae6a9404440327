-- ===== src/MemoryPool/PageCache/Runs.antt =====
-- Any sequence of grants and releases, one at a time.
use learncc.Prelude.{
  fun_ext, ℕ, ◌+◌, ◌-◌, ◌*◌, ◌≤◌, ◌<◌, ◌^◌, ◌≡◌, inl, inr, refl, sym, subst, ◌∙◌, List, [], ◌∷◌,
  none, some, ltb, leb, if◌then◌else◌, arith, count, put, sub_size, Bool-cases,
}
use learncc.MemoryPool.PageCache.{
  Cache, make, npages, grow, span, take_new, large_span, new_span, set_used, unlink, erase, merged,
  fault, merge_back, release,
}
use learncc.MemoryPool.PageCache.Tiling.{IsTiled, IsHeld, make-IsTiled, use-IsTiled}
use learncc.MemoryPool.PageCache.Grant.{zeroed, IsFree, find-IsFound, grow-IsTiled, large-IsHeld}
use learncc.MemoryPool.PageCache.Release.{release_small, release_large}

abbrev pub asked : ℕ → ℕ
asked pages = if leb npages pages then pages else npages - 1

block-IsHeld :
    (c : Cache) (i b : ℕ) → IsHeld c i → IsHeld (record c { block_size = put c.block_size i b }) i
block-IsHeld c i b v = record {
  spans = record { apart = v.spans.apart; bounded = v.spans.bounded };
  owned = v.owned;
  covered = v.covered;
  listed = v.listed;
  unlisted = v.unlisted;
  there = v.there;
  idle = v.idle;
}

-- One recursive call of `new_span_` is enough: the span that it puts on a list serves the request.
take_new_lem :
    (c : Cache) (pages a : ℕ)
    → IsTiled c
    → 1 ≤ pages
    → pages < npages
    → IsFree c a (npages - 1)
    → (i : ℕ) × ((c' : Cache) × (take_new zeroed pages (some a) c ≡ span i c')
        × IsHeld c' i
        × (c'.size i ≡ pages))
unfolding take_new grow
take_new_lem c pages a v h k f = elim (find-IsFound c pages v h k) [
  | inr ((i, c'), found, (held, long, m)) ↦ (i, (c', rw (found, take_new) refl, held, long))
  | inl (gone, empty) ↦ elim (find-IsFound (grow zeroed a c) pages (grow-IsTiled c a v f) h k) [
    | inl (gone', empty') ↦ absurd (ground arith)
    | inr ((i, c'), found, (held, long, m)) ↦ (i, (c', rw (gone, found, take_new) refl, held, long))
  ]
]

new_zeroed-IsHeld :
    (c : Cache) (pages a : ℕ)
    → IsTiled c
    → 1 ≤ pages
    → IsFree c a (asked pages)
    → (i : ℕ) × ((c' : Cache) × (new_span zeroed pages (some a) c ≡ span i c')
        × IsHeld c' i
        × (c'.size i ≡ pages))
unfolding new_span large_span
new_zeroed-IsHeld c pages a v h f = elim (Bool-cases (leb npages pages)) [
  | inl long ↦ (
    a,
    (
      _,
      rw (long, new_span) refl,
      large-IsHeld c a pages (pages * 2 ^ 12) v (subst (IsFree c a) (ground arith) f)
          (ground arith),
      ground arith,
    ),
  )
  | inr short ↦
      let (i, (c', run, held, long)) =
        take_new_lem c pages a v h (ground arith) (subst (IsFree c a) (ground arith) f) in
      (
        i,
        (
          record c' { block_size = put c'.block_size i (c'.size i * 2 ^ 12) },
          rw (short, run, new_span) refl,
          block-IsHeld c' i (c'.size i * 2 ^ 12) held,
          long,
        ),
      )
]

zeroed_lem : (raw : ℕ → ℕ) → ((p : ℕ) → raw p ≡ 0) → zeroed ≡ raw
zeroed_lem raw z = fun_ext (λ p. sym (z p))

-- On a well-formed cache, where the system gives free pages and the memory of new spans is zeroed: a
-- request of at least one page is granted; the span has the pages that were asked for, overlaps no other
-- span, is on no list and is not used yet.
pub new_span-IsHeld :
    (raw : ℕ → ℕ) (c : Cache) (pages a : ℕ)
    → ((p : ℕ) → raw p ≡ 0)
    → IsTiled c
    → 1 ≤ pages
    → IsFree c a (asked pages)
    → (i : ℕ) × ((c' : Cache) × (new_span raw pages (some a) c ≡ span i c')
        × IsHeld c' i
        × (c'.size i ≡ pages))
new_span-IsHeld raw c pages a z v h f =
    subst
      (λ r.
        (i : ℕ) × ((c' : Cache) × (new_span r pages (some a) c ≡ span i c')
          × IsHeld c' i
          × (c'.size i ≡ pages)))
      (zeroed_lem raw z) (new_zeroed-IsHeld c pages a v h f)

span-inj : {i j : ℕ} {c d : Cache} → span i c ≡ span j d → (i ≡ j) × (c ≡ d)
span-inj e = (cc, cc)

merged-inj : {i j : ℕ} {c d : Cache} → merged i c ≡ merged j d → (i ≡ j) × (c ≡ d)
merged-inj e = (cc, cc)

pub IsHeld-new_span :
    (raw : ℕ → ℕ) (c : Cache) (pages a i : ℕ) (c' : Cache)
    → ((p : ℕ) → raw p ≡ 0)
    → IsTiled c
    → 1 ≤ pages
    → IsFree c a (asked pages)
    → new_span raw pages (some a) c ≡ span i c'
    → IsHeld c' i
IsHeld-new_span raw c pages a i c' z v h f e =
    let (j, (d, run, held, long)) = new_span-IsHeld raw c pages a z v h f in
    let (same, same') = span-inj (sym run ∙ e) in
    subst (IsHeld c') same (subst (λ x. IsHeld x j) same' held)

-- What the callers do: a grant whose span is used at once, or the end of the last use of a span.
pub data Call (raw : ℕ → ℕ) : Cache → Cache → Type 0 where
  take_span :
      (c : Cache) (pages a i n : ℕ) (c' : Cache)
      → 1 ≤ pages
      → 1 ≤ n
      → IsFree c a (asked pages)
      → new_span raw pages (some a) c ≡ span i c'
      → Call raw c (set_used i n c')
  use_more : (c : Cache) (s n : ℕ) → 1 ≤ c.used s → 1 ≤ n → Call raw c (set_used s n c)
  give_back :
      (c : Cache) (s t : ℕ) (c' : Cache)
      → 1 ≤ c.used s
      → 1 ≤ c.size s
      → release s (set_used s 0 c) ≡ merged t c'
      → Call raw c c'

pub data Run (raw : ℕ → ℕ) : Cache → Cache → Type 0 where
  here : (c : Cache) → Run raw c c
  next : (b c d : Cache) → Call raw b c → Run raw c d → Run raw b d

used-IsTiled : (c : Cache) (s n : ℕ) → IsTiled c → 1 ≤ c.used s → 1 ≤ n → IsTiled (set_used s n c)
used-IsTiled c s n v h k = record {
  spans = record { apart = v.spans.apart; bounded = v.spans.bounded };
  owned = v.owned;
  covered = v.covered;
  listed = λ i m. ground (arith, v.listed i m);
}

Call-IsTiled :
    {raw : ℕ → ℕ} {b c : Cache} → ((p : ℕ) → raw p ≡ 0) → Call raw b c → IsTiled b → IsTiled c
Call-IsTiled {raw = raw} z (take_span c pages a i n c' h k f e) v =
    use-IsTiled c' i n (IsHeld-new_span raw c pages a i c' z v h f e) k
Call-IsTiled z (use_more c s n h k) v = used-IsTiled c s n v h k
Call-IsTiled z (give_back c s t c' u h e) v = elim (Bool-cases (ltb (c.size s) npages)) [
  | inl short ↦
      let (j, (d, run, tiled, low, high, idle, same)) = release_small c s v u h (ground arith) in
      subst IsTiled (merged-inj (sym run ∙ e)).1 tiled
  | inr long ↦
      let (d, run, tiled, gone, r) = release_large c s v u (ground arith) in
      subst IsTiled (merged-inj (sym run ∙ e)).1 tiled
]

Run-IsTiled :
    {raw : ℕ → ℕ} {b c : Cache} → ((p : ℕ) → raw p ≡ 0) → Run raw b c → IsTiled b → IsTiled c
Run-IsTiled z (here c) v = v
Run-IsTiled z (next b c d k r) v = Run-IsTiled z r (Call-IsTiled z k v)

-- From an empty cache, whatever spans are asked for, used and given back and whatever free pages the
-- system gives, if the memory of new spans is zeroed: no two spans overlap; each page of a span of fewer
-- than 129 pages is mapped to it, of a longer one the first page, and no other page to any; and the list
-- of each length holds, once, the spans of that length that nobody uses.
pub reached-IsTiled : {raw : ℕ → ℕ} {c : Cache} → ((p : ℕ) → raw p ≡ 0) → Run raw make c → IsTiled c
reached-IsTiled z r = Run-IsTiled z r make-IsTiled

unlink_absent : (i : ℕ) (xs : List ℕ) → count i xs ≡ 0 → unlink i xs ≡ none
unfolding unlink
unlink_absent i [] h = refl
unlink_absent i (x ∷ xs) h = ground (arith, unlink_absent i xs)

beside :
    (c : Cache) (s j : ℕ)
    → count j (c.lists (c.size j)) ≡ 0
    → c.used j ≡ 0
    → c.owner (sub_size s 1) ≡ some j
    → c.size j + c.size s < npages
    → release s c ≡ fault
unfolding release merge_back erase
beside c s j unlisted idle e k =
    let off = unlink_absent j (c.lists (c.size j)) unlisted in ground arith

last_page-lem :
    (c : Cache) (s j : ℕ)
    → IsHeld c j
    → j + c.size j ≡ s
    → c.size j < npages
    → c.owner (sub_size s 1) ≡ some j
last_page-lem c s j held next_to small =
    let page : sub_size s 1 ≡ s - 1 = ground (arith, held.there, held.spans.bounded j) in
    rw (page) (
      held.covered j (s - 1) (omega (arith, held.there, next_to))
        (ground (arith, held.there, next_to)))

-- A span is granted on a well-formed cache, with free pages from the system and zeroed memory for new
-- spans. Before its user counts the first use, a span in use that begins where the new one ends is given
-- back, and the two are short enough to be merged: the release faults.
pub release_beside_new :
    (raw : ℕ → ℕ) (c : Cache) (pages a s j : ℕ) (c' : Cache)
    → ((p : ℕ) → raw p ≡ 0)
    → IsTiled c
    → 1 ≤ pages
    → IsFree c a (asked pages)
    → new_span raw pages (some a) c ≡ span j c'
    → j + c'.size j ≡ s
    → 1 ≤ c'.used s
    → c'.size j + c'.size s < npages
    → release s (set_used s 0 c') ≡ fault
release_beside_new raw c pages a s j c' z v h f e next_to in_use k =
    let held = IsHeld-new_span raw c pages a j c' z v h f e in
    let small : c'.size j < npages = omega (arith, k) in
    beside (set_used s 0 c') s j (held.unlisted (c'.size j)) (ground (arith, held.idle))
      (last_page-lem c' s j held next_to small) k
