-- ===== src/Containers/CountedStack/Safety/Turns.antt =====
-- A turn of a thread of the counted stack keeps what the counts stand for.
use learncc.Prelude.{
  ℕ, ◌+◌, ◌<◌, ◌≡◌, refl, sym, ap, subst, Bool, true, false, List, [], ◌∷◌, some, ◌==◌,
  if◌then◌else◌, arith,
}
use learncc.Containers.CountedStack.{
  Ptr, ptr, same, Thread, entering, holding, leaving, won, swapped, pushing, Stack, popped,
  found_empty, Outcome, went, count_in, exchange, swap_data, link, alive, turn_of, turn,
}
use learncc.Containers.CountedStack.Counting.{holds, claims}
use learncc.Containers.CountedStack.Owners.{Agrees, cell, Inv, used-alive}
use learncc.Containers.CountedStack.Pops.{Inv-count, Inv-reenter, Inv-lose, Inv-leave}
use learncc.Containers.CountedStack.Takes.{Inv-win, Inv-swap, Inv-add}
use learncc.Containers.CountedStack.Pushes.{Inv-link, Inv-relink}
use learncc.Containers.CountedStack.Safety.{lifo, Good}

if-Good :
    (value : ℕ → ℕ) (ns : List ℕ) (b : Bool) (o o' : Outcome)
    → (b ≡ true → Good value ns o)
    → (b ≡ false → Good value ns o')
    → Good value ns (if b then o else o')
if-Good value ns true o o' h h' = h refl
if-Good value ns false o o' h h' = h' refl

same→eq : (p q : Ptr) → same p q ≡ true → q ≡ p
same→eq p q e = ground arith

module _ (value : ℕ → ℕ) (ts : List Thread) where
  counted_none :
      (s : Stack) (old : Ptr) (ns : List ℕ)
      → old.node ≡ 0
      → Inv value (record s { head = old; threads = entering old ∷ ts }) ns
      → Good value ns (
          went
            (found_empty ∷ [])
            (record s { head = ptr (old.external_count + 1) 0; threads = ts }))
  unfolding lifo
  counted_none s old [] null i = (
    [],
    refl,
    record {
      phase = i.phase;
      agrees = λ m.
          let before = cell (record s { threads = entering old ∷ ts }) [] m in
          let after : cell (record s { threads = ts }) [] m ≡ before = ground arith in
          subst (Agrees (i.phase m)) (sym after) (i.agrees m);
      walk = refl;
      fits = i.fits.1;
      unmade_after = i.unmade_after;
      made_until = i.made_until;
    },
  )
  counted_none s old (n ∷ ns) null i = absurd (omega (arith, i.walk.0, i.walk.1))

  counted :
      (s : Stack) (old : Ptr) (ns : List ℕ)
      → (old.node == 0) ≡ false
      → Inv value (record s { head = old; threads = entering old ∷ ts }) ns
      → Good value ns (
          went [] (record s {
            head = ptr (old.external_count + 1) old.node;
            threads = holding (old.external_count + 1) old.node ∷ ts;
          }))
  unfolding lifo
  counted s old [] some_node i = absurd (ground (arith, i.walk))
  counted s old (n ∷ ns) some_node i =
      let start : Ptr → ℕ → Type 0 =
        λ h k. Inv value (record s { head = h; threads = entering old ∷ ts }) (k ∷ ns) in
      (
        old.node ∷ ns,
        ap (λ k. some (k ∷ ns)) (sym i.walk.0),
        Inv-count value s ts ns old old.external_count old.node
            (subst (start old) (sym i.walk.0) i),
      )

  count_in-Good :
      (s : Stack) (old : Ptr) (ns : List ℕ)
      → Inv value (record s { threads = entering old ∷ ts }) ns
      → Good value ns (count_in old ts s)
  unfolding lifo
  count_in-Good s old ns i =
      if-Good value ns (same old s.head) _ _
        (λ e.
          let j =
            subst (λ h. Inv value (record s { head = h; threads = entering old ∷ ts }) ns)
              (same→eq old s.head e) i in
          if-Good value ns (old.node == 0) _ _ (λ z. counted_none s old ns (ground (arith, z)) j)
            (λ z. counted s old ns z j))
        (λ e. (ns, refl, Inv-reenter value s ts ns old s.head i))

  exchanged :
      (s : Stack) (e n : ℕ) (ns : List ℕ)
      → Inv value (record s { head = ptr e n; threads = holding e n ∷ ts }) ns
      → Good value ns
          (went (popped n ∷ []) (record s { head = s.next_of n; threads = won e n ∷ ts }))
  unfolding lifo
  exchanged s e n [] i = absurd (omega (arith, i.walk, i.fits.0))
  exchanged s e n (m ∷ ns) i = (
    ns,
    ground (arith, i.walk.0),
    Inv-win value s ts ns e n (
        subst (λ k. Inv value (record s { head = ptr e n; threads = holding e n ∷ ts }) (k ∷ ns))
          (sym i.walk.0) i),
  )

  exchange-Good :
      (s : Stack) (e n : ℕ) (ns : List ℕ)
      → Inv value (record s { threads = holding e n ∷ ts }) ns
      → Good value ns (exchange e n ts s)
  unfolding lifo
  exchange-Good s e n ns i =
      if-Good value ns (same (ptr e n) s.head) _ _
        (λ is. exchanged s e n ns (
          subst (λ h. Inv value (record s { head = h; threads = holding e n ∷ ts }) ns)
            (same→eq (ptr e n) s.head is) i))
        (λ is_not. (ns, refl, Inv-lose value s ts ns e n s.head i))

  swap_data-Good :
      (s : Stack) (e n : ℕ) (ns : List ℕ)
      → Inv value (record s { threads = won e n ∷ ts }) ns
      → Good value ns (swap_data e n ts s (s.data_of n))
  unfolding lifo
  swap_data-Good s e n ns i =
      let d = i.fits.0.1 in
      subst (λ o. Good value ns (swap_data e n ts s o)) (sym d)
        (ns, ground arith, Inv-swap value s ts ns e n i)

  link-Good :
      (s : Stack) (n : ℕ) (ns : List ℕ)
      → Inv value (record s { threads = pushing n ∷ ts }) ns
      → Good value ns (link n ts s)
  unfolding lifo
  link-Good s n ns i =
      if-Good value ns (same (s.next_of n) s.head) _ _
        (λ is. (n ∷ ns, refl, Inv-link value s ts ns n (sym (same→eq (s.next_of n) s.head is)) i))
        (λ is_not. (ns, refl, Inv-relink value s ts ns n s.head i))

-- A thread that uses a node finds it alive.
alive-Good :
    (value : ℕ → ℕ) (s : Stack) (t : Thread) (ts : List Thread) (n : ℕ) (ns : List ℕ) (o : Outcome)
    → 0 < holds n t + claims n t
    → Inv value (record s { threads = t ∷ ts }) ns
    → Good value ns o
    → Good value ns (alive (s.freed n) o)
alive-Good value s t ts n ns o uses i g =
    subst (λ b. Good value ns (alive b o))
      (sym (
        used-alive (i.phase n) (cell (record s { threads = t ∷ ts }) ns n) (omega (arith, uses))
          (i.agrees n)))
      g

turn_of-Good :
    (value : ℕ → ℕ) (t : Thread) (ts : List Thread) (s : Stack) (ns : List ℕ)
    → Inv value (record s { threads = t ∷ ts }) ns
    → Good value ns (turn_of t ts s)
unfolding lifo
turn_of-Good value (entering old) ts s ns i = count_in-Good value ts s old ns i
turn_of-Good value (holding e n) ts s ns i =
    alive-Good value s (holding e n) ts n ns _ (ground arith) i (exchange-Good value ts s e n ns i)
turn_of-Good value (leaving n old) ts s ns i =
    alive-Good value s (leaving n old) ts n ns _ (ground arith) i
      (ns, refl, Inv-leave value s ts ns n old old (s.plus n == s.minus n + 1) refl i)
turn_of-Good value (won e n) ts s ns i =
    alive-Good value s (won e n) ts n ns _ (ground arith) i (swap_data-Good value ts s e n ns i)
turn_of-Good value (swapped e n) ts s ns i =
    alive-Good value s (swapped e n) ts n ns _ (ground arith) i
      (ns, refl, Inv-add value s ts ns e n (s.plus n + e == s.minus n + 2) refl i)
turn_of-Good value (pushing n) ts s ns i =
    alive-Good value s (pushing n) ts n ns _ (ground arith) i (link-Good value ts s n ns i)

pub turn-Good :
    (value : ℕ → ℕ) (ts : List Thread) (s : Stack) (ns : List ℕ)
    → Inv value (record s { threads = ts }) ns
    → Good value ns (turn ts s)
unfolding lifo
turn-Good value [] s ns i = (ns, refl, i)
turn-Good value (t ∷ ts) s ns i = turn_of-Good value t ts s ns i
