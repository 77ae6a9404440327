-- ===== src/MemoryPool/NgxPool/Small.antt =====
-- `ngx_palloc_small` on a valid pool, and what happens when a block does not end at a multiple of 8.
use learncc.Prelude.{
  ℕ, ◌+◌, ◌*◌, ◌/◌, ◌%◌, ◌^◌, ◌≤◌, ◌<◌, ◌≡◌, ◌≢◌, inl, inr, refl, ap, ap₂, sym, subst, ◌∙◌, Bool,
  true, List, [], ◌∷◌, ◌++◌, append_assoc, some, take, drop, ◌==◌, add_size, arith, Every-append,
  Every-take, Every-drop, Option-cases, Bool-cases, take-append-drop,
}
use mathlib.Core.List.{map-append}
use learncc.MemoryPool.NgxPool.{
  Block, Pool, data_size, header_size, align_ptr, create_pool, candidate, first_fit, count_failures,
  first_size, palloc_block, palloc_small,
}
use learncc.MemoryPool.NgxPool.Bounds.{
  IsSound, IsCut, IsValid, Served, refused, cut, fresh, spans, align_ptr_eq, first_fit-IsCut,
  first_size-IsCut, first_size-spans, first_size-aligned, IsCut-append, count_failures-spans,
  count_failures-IsSound,
}

spans-append : (bs cs : List Block) → spans (bs ++ cs) ≡ spans bs ++ spans cs
spans-append bs cs = map-append (λ (b : Block). (b.start, b.last, b.end)) bs cs

spans-split :
    (n : ℕ) (bs cs : List Block) (t : List Block)
    → spans cs ≡ spans (drop n bs)
    → spans (take n bs ++ (cs ++ t)) ≡ spans bs ++ spans t
spans-split n bs cs t e =
    spans-append (take n bs) (cs ++ t)
    ∙ (ap (λ l. spans (take n bs) ++ l) (spans-append cs t ∙ ap (λ l. l ++ spans t) e)
        ∙ (sym (append_assoc (spans (take n bs)) (spans (drop n bs)) (spans t))
            ∙ ap (λ l. l ++ spans t)
                (sym (spans-append (take n bs) (drop n bs)) ∙ ap spans (take-append-drop n bs))))

-- What `malloc` promises of the address of a new block: it is aligned, and the block does not reach
-- the end of the address space.
abbrev pub IsPlaced : Pool → ℕ → Type 0
IsPlaced pool m = (m % 8 ≡ 0) × (m + first_size pool.blocks + 16 < 2 ^ 64)

-- The pool with a new block of which `size` bytes are used.
abbrev with_block : Pool → ℕ → ℕ → Pool
with_block pool size m =
    let a = align_ptr (add_size m data_size) in
    let (counted, current) =
      count_failures pool.current pool.current (drop pool.current pool.blocks) in
    record pool {
      blocks =
          take pool.current pool.blocks
          ++ (counted
              ++ (record {
                start = m;
                last = add_size a size;
                end = add_size m (first_size pool.blocks);
                failed = 0;
              }
                  ∷ []));
      current = current;
    }

palloc_fresh :
    (pool : Pool) (size m : ℕ)
    → IsValid pool
    → size ≤ pool.max
    → IsPlaced pool m
    → Served pool (with_block pool size m) size m (align_ptr (add_size m data_size))
      × IsValid (with_block pool size m)
      × (align_ptr (add_size m data_size) % 8 ≡ 0)
palloc_fresh pool size m v h p =
    let at : align_ptr (add_size m data_size) ≡ m + data_size =
      ground (arith, v.room, p.0, p.1, align_ptr_eq (m + data_size)) in
    let whole = first_size-aligned pool.blocks v.sound in
    let top : add_size m (first_size pool.blocks) ≡ m + first_size pool.blocks =
      ground (arith, p.1) in
    let a : ℕ = align_ptr (add_size m data_size) in
    let used : add_size a size ≡ a + size = ground (arith, at, p.1, v.room) in
    let block : Block = record {
      start = m;
      last = add_size a size;
      end = add_size m (first_size pool.blocks);
      failed = 0;
    } in
    let kept =
      count_failures-IsSound pool.current pool.current _
        (Every-drop IsSound pool.current pool.blocks v.sound) in
    let same = count_failures-spans pool.current pool.current (drop pool.current pool.blocks) in
    let places =
      spans-split pool.current pool.blocks _ (block ∷ []) same
      ∙ ap₂ (λ x y. spans pool.blocks ++ ((m, x, y) ∷ [])) used top in
    let sound : IsSound block = record {
      placed = p.0;
      inside = ground (arith, at, used);
      within = ground (arith, at, used, top, v.room);
      aligned = ground (arith, top, whole, p.0);
      fits = ground (arith, top, p.1);
    } in
    (
      fresh (ground (arith, at)) (ground (arith, at, v.room)) places,
      record {
        sound =
            Every-append IsSound (take pool.current pool.blocks) _
              (Every-take IsSound pool.current pool.blocks v.sound)
              (Every-append IsSound _ (block ∷ []) kept (sound, tt));
        room = omega (
          arith,
          v.room,
          first_size-spans pool.blocks (with_block pool size m).blocks _ (omega (arith, v.room))
              places,
        );
      },
      ground (arith, at, p.0),
    )

palloc_block-Served :
    (pool : Pool) (size m : ℕ)
    → IsValid pool
    → size ≤ pool.max
    → IsPlaced pool m
    → Served pool (palloc_block pool size m).1 size m (palloc_block pool size m).0
      × IsValid (palloc_block pool size m).1
      × ((palloc_block pool size m).0 % 8 ≡ 0)
unfolding palloc_block
palloc_block-Served pool size m v h p = elim (Bool-cases (m == 0)) [
  | inl null ↦ rw (null, palloc_block) (refused refl (ground arith) refl, v, refl)
  | inr there ↦ rw (there, palloc_block) (palloc_fresh pool size m v h p)
]

-- On a valid pool a small request is refused only if `malloc` refuses a block; otherwise its bytes
-- lie in the free part of one block, which is shorter by them while all else stays in place, or in a
-- new block behind the others. The pool stays valid, and an aligned request gets a multiple of 8.
pub palloc_small-Served :
    (pool : Pool) (size m : ℕ) (align : Bool)
    → IsValid pool
    → size ≤ pool.max
    → IsPlaced pool m
    → let (a, pool') = palloc_small pool size align m in
      Served pool pool' size m a × IsValid pool' × (align ≡ true → a % 8 ≡ 0)
unfolding palloc_small
palloc_small-Served pool size m align v h p =
    elim (Option-cases (first_fit align size (drop pool.current pool.blocks))) [
      | inl full ↦
          let (served, valid, aligned) = palloc_block-Served pool size m v h p in
          rw (full, palloc_small) (served, valid, λ al. aligned)
      | inr ((a, bs), found) ↦
          let (part, sound, aligned) =
            first_fit-IsCut align size (drop pool.current pool.blocks) a bs
              (Every-drop IsSound pool.current pool.blocks v.sound) found in
          let whole : IsCut a size pool.blocks (take pool.current pool.blocks ++ bs) =
            subst (λ l. IsCut a size l (take pool.current pool.blocks ++ bs))
              (take-append-drop pool.current pool.blocks)
              (IsCut-append a size (take pool.current pool.blocks) (drop pool.current pool.blocks)
                bs part) in
          rw (found, palloc_small)
            (
              cut whole,
              record {
                sound =
                    Every-append IsSound (take pool.current pool.blocks) bs
                      (Every-take IsSound pool.current pool.blocks v.sound) sound;
                room = omega (arith, v.room, first_size-IsCut a size pool.blocks _ whole);
              },
              aligned,
            )
    ]

-- `ngx_create_pool` gives a valid pool if the size is a multiple of 8 with room for the header.
pub create_pool-IsValid :
    (size p : ℕ) {pool : Pool}
    → create_pool size p ≡ some pool
    → p % 8 ≡ 0
    → size % 8 ≡ 0
    → header_size ≤ size
    → p + size + 8 < 2 ^ 64
    → IsValid pool
unfolding create_pool
create_pool-IsValid size p e a b h k = ground arith

-- If the size of a pool is not a multiple of 8, then once the pool is used up to its last full eight
-- bytes, the free space wraps around: an aligned request of any size below 2^63 is served at an
-- address behind the end of the block.
pub palloc_small_overrun :
    (pool : Pool) (b : Block) (size m : ℕ)
    → pool.blocks ≡ b ∷ []
    → pool.current ≡ 0
    → b.end / 8 * 8 < b.last
    → b.last ≤ b.end
    → b.end % 8 ≢ 0
    → b.end + 8 < 2 ^ 64
    → size < 2 ^ 63
    → b.end < (palloc_small pool size true m).0
unfolding palloc_small first_fit candidate
palloc_small_overrun pool b size m e c low within odd fits h =
    rw (c, e, palloc_small, first_fit) (ground (arith, align_ptr_eq b.last))
