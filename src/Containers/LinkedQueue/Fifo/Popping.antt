-- ===== src/Containers/LinkedQueue/Fifo/Popping.antt =====
-- What a pop does to the values in the linked queue.
use learncc.Prelude.{
  ℕ, ◌+◌, ◌<◌, ◌≡◌, ◌≢◌, refl, sym, subst, Bool, true, false, List, [], ◌∷◌, Option, none, ◌==◌,
  put, arith,
}
use learncc.Containers.LinkedQueue.{
  Pusher, no_pusher, storing, linking, moving, notifying, Popper, no_popper, looking, drowsy,
  taking, advancing, Queue, lock_head, seen, look, sleep, taken, take_data, moved, advance,
}
use learncc.Containers.LinkedQueue.Chain.{Chain, Chain-le, Chain-agree, start, Written, Known}
use learncc.Containers.LinkedQueue.Fifo.{fifo, Good}

written_put :
    (p : Pusher) (f g : ℕ → Option ℕ) (h t : ℕ)
    → h < t
    → Written p f g t
    → Written p (put f h none) g t × Written p f (put g h none) t
written_put no_pusher f g h t l w = (tt, tt)
written_put (storing v) f g h t l w = (tt, tt)
written_put (linking v) f g h t l w = (ground arith, w)
written_put (moving v) f g h t l (d, n) = ((ground arith, n), (d, ground arith))
written_put notifying f g h t l w = (tt, tt)

-- A consumer between the lock and the last access.
module _ (q : Queue) (written : Written q.pusher q.data_of q.next_of q.tail) where
  pub lock_head-Good :
      (waits : Bool) (vs : List ℕ) (h : Popper)
      → Chain q.data_of q.next_of (start h q.head) vs q.tail
      → Good vs (lock_head waits h q)
  unfolding fifo
  lock_head-Good waits vs no_popper c =
      (vs, refl, record { chain = c; written = written; known = tt })
  lock_head-Good waits vs (looking x) c = tt
  lock_head-Good waits vs drowsy c = tt
  lock_head-Good waits vs taking c = tt
  lock_head-Good waits vs advancing c = tt

  seen_empty :
      (waits : Bool) (vs : List ℕ)
      → Chain q.data_of q.next_of q.head vs q.tail
      → q.head ≡ q.tail
      → Good vs (seen waits true q)
  unfolding fifo Chain
  seen_empty true [] c e = ([], refl, record { chain = c; written = written; known = tt })
  seen_empty false [] c e = ([], refl, record { chain = c; written = written; known = tt })
  seen_empty waits (x ∷ vs) (d, n, c) e =
      absurd (omega (arith, Chain-le q.data_of q.next_of (q.head + 1) vs q.tail c))

  full : (vs : List ℕ) → Chain q.data_of q.next_of q.head vs q.tail → q.head ≢ q.tail → vs ≢ []
  unfolding Chain
  full [] c ne e = ne c
  full (x ∷ vs) c ne e = ground arith

  pub seen-Good :
      (waits : Bool) (vs : List ℕ) (b : Bool)
      → Chain q.data_of q.next_of q.head vs q.tail
      → (q.head == q.tail) ≡ b
      → Good vs (seen waits b q)
  unfolding fifo
  seen-Good waits vs true c e = seen_empty waits vs c (ground arith)
  seen-Good waits vs false c e =
      (vs, refl, record { chain = c; written = written; known = full vs c (ground arith) })

  pub look-Good :
      (p : Pusher) (vs : List ℕ) (h : Popper)
      → Chain q.data_of q.next_of (start h q.head) vs q.tail
      → Good vs (look p h q)
  look-Good no_pusher vs (looking waits) c = seen-Good waits vs (q.head == q.tail) c refl
  look-Good no_pusher vs no_popper c = tt
  look-Good no_pusher vs drowsy c = tt
  look-Good no_pusher vs taking c = tt
  look-Good no_pusher vs advancing c = tt
  look-Good (storing v) vs h c = tt
  look-Good (linking v) vs h c = tt
  look-Good (moving v) vs h c = tt
  look-Good notifying vs h c = tt

  pub sleep-Good :
      (vs : List ℕ) (h : Popper)
      → Chain q.data_of q.next_of (start h q.head) vs q.tail
      → Good vs (sleep h q)
  unfolding fifo
  sleep-Good vs drowsy c = (vs, refl, record { chain = c; written = written; known = tt })
  sleep-Good vs no_popper c = tt
  sleep-Good vs (looking x) c = tt
  sleep-Good vs taking c = tt
  sleep-Good vs advancing c = tt

  take_first :
      (vs : List ℕ)
      → vs ≢ []
      → Chain q.data_of q.next_of q.head vs q.tail
      → Good vs (taken (q.data_of q.head) q)
  unfolding fifo Chain
  take_first [] ne c = absurd (ne refl)
  take_first (x ∷ vs) ne (d, n, c) =
      let more = Chain-le q.data_of q.next_of (q.head + 1) vs q.tail c in
      subst (λ o. Good (x ∷ vs) (taken o q)) (sym d)
        (
          vs,
          ground arith,
          record {
            chain =
                Chain-agree q.data_of q.next_of (put q.data_of q.head none) q.next_of (q.head + 1)
                  vs q.tail (λ m from to. (ground arith, refl)) c;
            written =
                (written_put q.pusher q.data_of q.next_of q.head q.tail (omega (arith, more))
                  written).0;
            known = n;
          },
        )

  pub take_data-Good :
      (vs : List ℕ) (h : Popper)
      → Chain q.data_of q.next_of (start h q.head) vs q.tail
      → Known h q.next_of q.head vs
      → Good vs (take_data h q)
  take_data-Good vs taking c k = take_first vs k c
  take_data-Good vs no_popper c k = tt
  take_data-Good vs (looking x) c k = tt
  take_data-Good vs drowsy c k = tt
  take_data-Good vs advancing c k = tt

  pub advance-Good :
      (vs : List ℕ) (h : Popper)
      → Chain q.data_of q.next_of (start h q.head) vs q.tail
      → Known h q.next_of q.head vs
      → Good vs (advance h q)
  unfolding fifo
  advance-Good vs advancing c k =
      let more = Chain-le q.data_of q.next_of (q.head + 1) vs q.tail c in
      subst (λ o. Good vs (moved o q)) (sym k)
        (
          vs,
          refl,
          record {
            chain =
                Chain-agree q.data_of q.next_of q.data_of (put q.next_of q.head none) (q.head + 1)
                  vs q.tail (λ m from to. (refl, ground arith)) c;
            written =
                (written_put q.pusher q.data_of q.next_of q.head q.tail (omega (arith, more))
                  written).1;
            known = tt;
          },
        )
  advance-Good vs no_popper c k = tt
  advance-Good vs (looking x) c k = tt
  advance-Good vs drowsy c k = tt
  advance-Good vs taking c k = tt
