-- ===== src/Containers/CountedStack/Takes.antt =====
-- What a thread that takes a node does to the owners of the nodes.
use learncc.Prelude.{ℕ, ◌+◌, ◌≡◌, refl, subst, Bool, true, false, List, ◌∷◌, none, ◌==◌, put, arith}
use learncc.Containers.CountedStack.{ptr, Thread, holding, won, swapped, Stack, delete}
use learncc.Containers.CountedStack.Owners.{
  pending, out, gone, Agrees, cell, Inv, Walk-put, Fits-put, Agrees-put, unmade_put, made_put,
}

module _ (value : ℕ → ℕ) (s : Stack) (ts : List Thread) (ns : List ℕ) where
  pub Inv-win :
      (e n : ℕ)
      → Inv value (record s { head = ptr e n; threads = holding e n ∷ ts }) (n ∷ ns)
      → Inv value (record s { head = s.next_of n; threads = won e n ∷ ts }) ns
  Inv-win e n i =
      let (at, above, l, d, rest) = i.walk in
      let here =
        subst (λ x. Agrees x (cell (record s { threads = holding e n ∷ ts }) (n ∷ ns) n)) l
          (i.agrees n) in
      record {
        phase = put i.phase n (pending e);
        agrees =
            Agrees-put i.phase n (pending e)
              (cell (record s { threads = holding e n ∷ ts }) (n ∷ ns))
              (cell (record s { threads = won e n ∷ ts }) ns) (ground arith)
              (λ m other. ground arith) i.agrees;
        walk =
            Walk-put value i.phase s.data_of s.data_of s.next_of s.next_of n (pending e)
              (λ m o. refl) (λ m o. refl) (s.next_of n) ns (ground arith) rest;
        fits = (
          (ground arith, d),
          Fits-put value i.phase s.data_of s.data_of s.next_of s.next_of n (pending e) (λ m o. refl)
              (λ m o. refl) ts (ground arith) i.fits.1,
        );
        unmade_after =
            unmade_put i.phase n (pending e) s.made (λ u. ground (arith, l, u)) i.unmade_after;
        made_until = made_put i.phase n (pending e) s.made (λ u. ground (arith, u)) i.made_until;
      }

  pub Inv-swap :
      (e n : ℕ)
      → Inv value (record s { threads = won e n ∷ ts }) ns
      → Inv value (record s { data_of = put s.data_of n none; threads = swapped e n ∷ ts }) ns
  Inv-swap e n i =
      let (l, d) = i.fits.0 in
      let before = cell (record s { threads = won e n ∷ ts }) ns in
      let after = cell (record s { threads = swapped e n ∷ ts }) ns in
      let here = subst (λ x. Agrees x (before n)) l (i.agrees n) in
      record {
        phase = put i.phase n (pending e);
        agrees =
            Agrees-put i.phase n (pending e) before after (ground arith) (λ m other. ground arith)
              i.agrees;
        walk =
            Walk-put value i.phase s.data_of (put s.data_of n none) s.next_of s.next_of n
              (pending e) (λ m o. ground (arith, o)) (λ m o. refl) s.head ns (ground arith) i.walk;
        fits = (
          ground arith,
          Fits-put value i.phase s.data_of (put s.data_of n none) s.next_of s.next_of n (pending e)
              (λ m o. ground (arith, o)) (λ m o. refl) ts (ground arith) i.fits.1,
        );
        unmade_after =
            unmade_put i.phase n (pending e) s.made (λ u. ground (arith, l, u)) i.unmade_after;
        made_until = made_put i.phase n (pending e) s.made (λ u. ground (arith, u)) i.made_until;
      }

  pub Inv-add :
      (e n : ℕ) (last : Bool)
      → (s.plus n + e == s.minus n + 2) ≡ last
      → Inv value (record s { threads = swapped e n ∷ ts }) ns
      → Inv value
          (delete last n (record s {
            plus = put s.plus n (s.plus n + e);
            minus = put s.minus n (s.minus n + 2);
            threads = ts;
          }))
          ns
  Inv-add e n false t i =
      let l = i.fits.0 in
      let before = cell (record s { threads = swapped e n ∷ ts }) ns in
      let after =
        cell
          (record s {
            plus = put s.plus n (s.plus n + e);
            minus = put s.minus n (s.minus n + 2);
            threads = ts;
          })
          ns in
      let here = subst (λ x. Agrees x (before n)) l (i.agrees n) in
      record {
        phase = put i.phase n out;
        agrees =
            Agrees-put i.phase n out before after (ground (arith, t)) (λ m other. ground arith)
              i.agrees;
        walk =
            Walk-put value i.phase s.data_of s.data_of s.next_of s.next_of n out (λ m o. refl)
              (λ m o. refl) s.head ns (ground arith) i.walk;
        fits =
            Fits-put value i.phase s.data_of s.data_of s.next_of s.next_of n out (λ m o. refl)
              (λ m o. refl) ts (ground arith) i.fits.1;
        unmade_after = unmade_put i.phase n out s.made (λ u. ground (arith, l, u)) i.unmade_after;
        made_until = made_put i.phase n out s.made (λ u. ground (arith, u)) i.made_until;
      }
  Inv-add e n true t i =
      let l = i.fits.0 in
      let before = cell (record s { threads = swapped e n ∷ ts }) ns in
      let after =
        cell
          (record s {
            freed = put s.freed n true;
            plus = put s.plus n (s.plus n + e);
            minus = put s.minus n (s.minus n + 2);
            threads = ts;
          })
          ns in
      let here = subst (λ x. Agrees x (before n)) l (i.agrees n) in
      record {
        phase = put i.phase n gone;
        agrees =
            Agrees-put i.phase n gone before after (ground (arith, t)) (λ m other. ground arith)
              i.agrees;
        walk =
            Walk-put value i.phase s.data_of s.data_of s.next_of s.next_of n gone (λ m o. refl)
              (λ m o. refl) s.head ns (ground arith) i.walk;
        fits =
            Fits-put value i.phase s.data_of s.data_of s.next_of s.next_of n gone (λ m o. refl)
              (λ m o. refl) ts (ground arith) i.fits.1;
        unmade_after = unmade_put i.phase n gone s.made (λ u. ground (arith, l, u)) i.unmade_after;
        made_until = made_put i.phase n gone s.made (λ u. ground (arith, u)) i.made_until;
      }
