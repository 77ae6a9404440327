-- ===== src/Containers/LinkedQueue/Fifo/Pushing.antt =====
-- What `push` does to the values in the linked queue.
use learncc.Prelude.{
  ℕ, ◌+◌, ◌≤◌, ◌<◌, ◌≡◌, refl, List, [], ◌∷◌, ◌++◌, Option, none, some, put, arith,
}
use learncc.Containers.LinkedQueue.{
  Pusher, no_pusher, storing, linking, moving, notifying, Popper, no_popper, looking, drowsy,
  taking, advancing, Queue, lock_tail, store_data, link_node, move_tail, notify,
}
use learncc.Containers.LinkedQueue.Chain.{
  Chain, Chain-le, Chain-agree, Chain-snoc, start, Written, Known,
}
use learncc.Containers.LinkedQueue.Fifo.{fifo, Good}

Known-put :
    (p : Popper) (g : ℕ → Option ℕ) (h t : ℕ) (vs : List ℕ) (x : Option ℕ)
    → start p h ≤ t
    → Known p g h vs
    → Known p (put g t x) h vs
Known-put no_popper g h t vs x low k = tt
Known-put (looking w) g h t vs x low k = tt
Known-put drowsy g h t vs x low k = tt
Known-put taking g h t vs x low k = k
Known-put advancing g h t vs x low k = ground (arith, k)

Known-more :
    (p : Popper) (g : ℕ → Option ℕ) (h v : ℕ) (vs : List ℕ)
    → Known p g h vs
    → Known p g h (vs ++ (v ∷ []))
Known-more no_popper g h v vs k = tt
Known-more (looking w) g h v vs k = tt
Known-more drowsy g h v vs k = tt
Known-more taking g h v [] k = ground arith
Known-more taking g h v (x ∷ vs) k = ground arith
Known-more advancing g h v vs k = k

module _ (q : Queue) (vs : List ℕ)
    (chain : Chain q.data_of q.next_of (start q.popper q.head) vs q.tail)
    (known : Known q.popper q.next_of q.head vs) where
  low : start q.popper q.head ≤ q.tail
  low = Chain-le q.data_of q.next_of (start q.popper q.head) vs q.tail chain

  -- A write at the tail or after it.
  above :
      (f : ℕ → Option ℕ) (t : ℕ) (x : Option ℕ) (m : ℕ)
      → q.tail ≤ t
      → m < q.tail
      → put f t x m ≡ f m
  above f t x m high l = ground arith

  kept_data :
      (t : ℕ) (x : Option ℕ)
      → q.tail ≤ t
      → Chain (put q.data_of t x) q.next_of (start q.popper q.head) vs q.tail
  kept_data t x high =
      Chain-agree q.data_of q.next_of (put q.data_of t x) q.next_of (start q.popper q.head) vs
        q.tail (λ m from to. (above q.data_of t x m high to, refl)) chain

  kept_next :
      (f : ℕ → Option ℕ) (t : ℕ) (x : Option ℕ)
      → q.tail ≤ t
      → Chain f q.next_of (start q.popper q.head) vs q.tail
      → Chain f (put q.next_of t x) (start q.popper q.head) vs q.tail
  kept_next f t x high c =
      Chain-agree f q.next_of f (put q.next_of t x) (start q.popper q.head) vs q.tail
        (λ m from to. (refl, above q.next_of t x m high to)) c

  Known-next : (t : ℕ) (x : Option ℕ) → q.tail ≤ t → Known q.popper (put q.next_of t x) q.head vs
  Known-next t x high = Known-put q.popper q.next_of q.head t vs x (omega (arith, low)) known

  pub lock_tail-Good : (v : ℕ) (p : Pusher) → Good vs (lock_tail v p q)
  unfolding fifo
  lock_tail-Good v no_pusher = (
    vs,
    refl,
    record {
      chain =
          kept_next (put q.data_of (q.tail + 1) none) (q.tail + 1) none (omega arith)
            (kept_data (q.tail + 1) none (omega arith));
      written = tt;
      known = Known-next (q.tail + 1) none (omega arith);
    },
  )
  lock_tail-Good v (storing w) = tt
  lock_tail-Good v (linking w) = tt
  lock_tail-Good v (moving w) = tt
  lock_tail-Good v notifying = tt

  pub store_data-Good : (p : Pusher) → Good vs (store_data p q)
  unfolding fifo
  store_data-Good (storing v) = (
    vs,
    refl,
    record {
      chain = kept_data q.tail (some v) (omega arith);
      written = ground arith;
      known = known;
    },
  )
  store_data-Good no_pusher = tt
  store_data-Good (linking w) = tt
  store_data-Good (moving w) = tt
  store_data-Good notifying = tt

  pub link_node-Good : (p : Pusher) → Written p q.data_of q.next_of q.tail → Good vs (link_node p q)
  unfolding fifo
  link_node-Good (linking v) w = (
    vs,
    refl,
    record {
      chain = kept_next q.data_of q.tail (some (q.tail + 1)) (omega arith) chain;
      written = (w, ground arith);
      known = Known-next q.tail (some (q.tail + 1)) (omega arith);
    },
  )
  link_node-Good no_pusher w = tt
  link_node-Good (storing x) w = tt
  link_node-Good (moving x) w = tt
  link_node-Good notifying w = tt

  pub move_tail-Good : (p : Pusher) → Written p q.data_of q.next_of q.tail → Good vs (move_tail p q)
  unfolding fifo
  move_tail-Good (moving v) (d, n) = (
    vs ++ (v ∷ []),
    refl,
    record {
      chain = Chain-snoc q.data_of q.next_of (start q.popper q.head) vs q.tail v chain d n;
      written = tt;
      known = Known-more q.popper q.next_of q.head v vs known;
    },
  )
  move_tail-Good no_pusher w = tt
  move_tail-Good (storing x) w = tt
  move_tail-Good (linking x) w = tt
  move_tail-Good notifying w = tt

  pub notify-Good : (p : Pusher) → Good vs (notify p q)
  unfolding fifo
  notify-Good notifying = (vs, refl, record { chain = chain; written = tt; known = known })
  notify-Good no_pusher = tt
  notify-Good (storing x) = tt
  notify-Good (linking x) = tt
  notify-Good (moving x) = tt
