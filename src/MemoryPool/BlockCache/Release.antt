-- ===== src/MemoryPool/BlockCache/Release.antt =====
-- The way of a thread's blocks back to the span that they were cut from.
use learncc.Prelude.{
  ℕ, suc, ◌-◌, ◌<◌, ◌^◌, ◌≡◌, refl, true, false, List, [], ◌∷◌, length, ◌==◌, arith, sub_size,
  Every,
}
use learncc.MemoryPool.BlockCache.{Span, release_one, release_to_spans}

-- Blocks put on a list one by one.
unfoldable pub put_back : List ℕ → List ℕ → List ℕ
put_back [] free = free
put_back (b ∷ bs) free = put_back bs (b ∷ free)

release_one_some :
    (owner b : ℕ) (s : Span) (ss : List Span)
    → s.used < 2 ^ 32
    → 1 < s.used
    → owner ≡ s.start
    → release_one owner b (s ∷ ss) ≡ (record s { free = b ∷ s.free; used = s.used - 1 } ∷ ss, [])
unfolding release_one
release_one_some owner b s ss l h o =
    let less : sub_size s.used 1 ≡ s.used - 1 = ground arith in
    let more : (s.used - 1 == 0) ≡ false = ground arith in
    let this : (s.start == owner) ≡ true = ground arith in rw (this, less, more, release_one) refl

release_one_last :
    (owner b : ℕ) (s : Span) (ss : List Span)
    → s.used ≡ 1
    → owner ≡ s.start
    → release_one owner b (s ∷ ss) ≡ (ss, record s { free = []; used = 0 } ∷ [])
unfolding release_one
release_one_last owner b s ss h o =
    let less : sub_size s.used 1 ≡ 0 = ground arith in
    let this : (s.start == owner) ≡ true = ground arith in rw (this, less, release_one) refl

-- Fewer blocks than are in use come back to a span: it takes them all and stays.
pub release_some :
    (owner : ℕ → ℕ) (bs : List ℕ) (s : Span) (ss : List Span)
    → s.used < 2 ^ 32
    → length bs < s.used
    → Every (λ b. owner b ≡ s.start) bs
    → release_to_spans owner bs (s ∷ ss)
      ≡ (record s { free = put_back bs s.free; used = s.used - length bs } ∷ ss, [])
unfolding release_to_spans put_back
release_some owner [] s ss l h e = let all : s.used - 0 ≡ s.used = omega arith in rw (all) refl
release_some owner (b ∷ bs) s ss l h (o, e) =
    let s' : Span = record s { free = b ∷ s.free; used = s.used - 1 } in
    let rest = release_some owner bs s' ss (omega arith) (omega arith) e in
    let less : s.used - 1 - length bs ≡ s.used - suc (length bs) = omega arith in
    rw (release_one_some (owner b) b s ss l (omega arith) o, rest, less) refl

-- If all the blocks in use come back, the span leaves the list and goes to the page cache.
pub release_all :
    (owner : ℕ → ℕ) (b : ℕ) (bs : List ℕ) (s : Span) (ss : List Span)
    → s.used < 2 ^ 32
    → s.used ≡ length (b ∷ bs)
    → Every (λ c. owner c ≡ s.start) (b ∷ bs)
    → release_to_spans owner (b ∷ bs) (s ∷ ss) ≡ (ss, record s { free = []; used = 0 } ∷ [])
unfolding release_to_spans
release_all owner b [] s ss l h (o, e) = rw (release_one_last (owner b) b s ss h o) refl
release_all owner b (c ∷ bs) s ss l h (o, e) =
    let s' : Span = record s { free = b ∷ s.free; used = s.used - 1 } in
    let rest = release_all owner c bs s' ss (omega arith) (omega arith) e in
    rw (release_one_some (owner b) b s ss l (omega arith) o) rest
