-- ===== src/Containers/CountedStack/Pushes.antt =====
-- What a push does to the owners of the nodes.
use learncc.Prelude.{ℕ, ◌+◌, ◌≡◌, refl, sym, subst, List, ◌∷◌, some, put, arith}
use learncc.Containers.CountedStack.{Ptr, ptr, Thread, pushing, Stack}
use learncc.Containers.CountedStack.Owners.{
  unmade, owned, linked, Agrees, cell, Walk, Inv, Walk-put, Fits-put, Agrees-put, unmade_put,
  made_put,
}

module _ (value : ℕ → ℕ) (s : Stack) (ts : List Thread) (ns : List ℕ) where
  pub Inv-link :
      (n : ℕ)
      → s.next_of n ≡ s.head
      → Inv value (record s { threads = pushing n ∷ ts }) ns
      → Inv value (record s { head = ptr 1 n; threads = ts }) (n ∷ ns)
  Inv-link n is_head i =
      let (l, above, d) = i.fits.0 in
      let before = cell (record s { threads = pushing n ∷ ts }) ns in
      let after = cell (record s { threads = ts }) (n ∷ ns) in
      let here = subst (λ x. Agrees x (before n)) l (i.agrees n) in
      record {
        phase = put i.phase n (linked 1);
        agrees =
            Agrees-put i.phase n (linked 1) before after (ground arith) (λ m other. ground arith)
              i.agrees;
        walk = (
          refl,
          above,
          ground arith,
          d,
          Walk-put value i.phase s.data_of s.data_of s.next_of s.next_of n (linked 1) (λ m o. refl)
              (λ m o. refl) (s.next_of n) ns (ground arith)
              (subst (λ p. Walk value i.phase s.data_of s.next_of p ns) (sym is_head) i.walk),
        );
        fits =
            Fits-put value i.phase s.data_of s.data_of s.next_of s.next_of n (linked 1)
              (λ m o. refl) (λ m o. refl) ts (ground arith) i.fits.1;
        unmade_after =
            unmade_put i.phase n (linked 1) s.made (λ u. ground (arith, l, u)) i.unmade_after;
        made_until = made_put i.phase n (linked 1) s.made (λ u. ground (arith, u)) i.made_until;
      }

  pub Inv-relink :
      (n : ℕ) (p : Ptr)
      → Inv value (record s { threads = pushing n ∷ ts }) ns
      → Inv value (record s { next_of = put s.next_of n p; threads = pushing n ∷ ts }) ns
  Inv-relink n p i =
      let (l, above, d) = i.fits.0 in
      let before = cell (record s { threads = pushing n ∷ ts }) ns in
      let here = subst (λ x. Agrees x (before n)) l (i.agrees n) in
      record {
        phase = put i.phase n owned;
        agrees = Agrees-put i.phase n owned before before (ground arith) (λ m other. refl) i.agrees;
        walk =
            Walk-put value i.phase s.data_of s.data_of s.next_of (put s.next_of n p) n owned
              (λ m o. refl) (λ m o. ground (arith, o)) s.head ns (ground arith) i.walk;
        fits = (
          (ground arith, above, d),
          Fits-put value i.phase s.data_of s.data_of s.next_of s.next_of n owned (λ m o. refl)
              (λ m o. refl) ts (ground arith) i.fits.1,
        );
        unmade_after = unmade_put i.phase n owned s.made (λ u. ground (arith, l, u)) i.unmade_after;
        made_until = made_put i.phase n owned s.made (λ u. ground (arith, u)) i.made_until;
      }

  pub Inv-make :
      (n : ℕ) (p : Ptr)
      → n ≡ s.made + 1
      → Inv value (record s { threads = ts }) ns
      → Inv value
          (record s {
            data_of = put s.data_of n (some (value n));
            next_of = put s.next_of n p;
            made = n;
            threads = pushing n ∷ ts;
          })
          ns
  Inv-make n p is_next i =
      let l : i.phase n ≡ unmade = i.unmade_after n (omega arith) in
      let before = cell (record s { threads = ts }) ns in
      let after = cell (record s { threads = pushing n ∷ ts }) ns in
      let here = subst (λ x. Agrees x (before n)) l (i.agrees n) in
      record {
        phase = put i.phase n owned;
        agrees =
            Agrees-put i.phase n owned before after (ground arith) (λ m other. ground arith)
              i.agrees;
        walk =
            Walk-put value i.phase s.data_of (put s.data_of n (some (value n))) s.next_of
              (put s.next_of n p) n owned (λ m o. ground (arith, o)) (λ m o. ground (arith, o))
              s.head ns (ground arith) i.walk;
        fits = (
          (ground arith, omega arith, ground arith),
          Fits-put value i.phase s.data_of (put s.data_of n (some (value n))) s.next_of s.next_of n
              owned (λ m o. ground (arith, o)) (λ m o. refl) ts (ground arith) i.fits,
        );
        unmade_after = λ m above. ground (arith, i.unmade_after m (omega arith));
        made_until = λ m above below u. ground (arith, u, i.made_until m above);
      }
