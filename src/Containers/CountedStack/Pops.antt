-- ===== src/Containers/CountedStack/Pops.antt =====
-- What a thread that counts itself in and out does to the owners of the nodes.
use learncc.Prelude.{ℕ, ◌+◌, ◌≡◌, refl, subst, Bool, true, false, List, ◌∷◌, ◌==◌, put, arith}
use learncc.Containers.CountedStack.{Ptr, ptr, Thread, entering, holding, leaving, Stack, delete}
use learncc.Containers.CountedStack.Owners.{
  linked, gone, Agrees, cell, Inv, Walk-put, Fits-put, Agrees-put, unmade_put, made_put, Agrees-at,
  Left-Agrees, Left-last,
}

module _ (value : ℕ → ℕ) (s : Stack) (ts : List Thread) (ns : List ℕ) where
  pub Inv-count :
      (old : Ptr) (e n : ℕ)
      → Inv value (record s { head = ptr e n; threads = entering old ∷ ts }) (n ∷ ns)
      → Inv value (record s { head = ptr (e + 1) n; threads = holding (e + 1) n ∷ ts }) (n ∷ ns)
  Inv-count old e n i =
      let (at, above, l, d, rest) = i.walk in
      let here =
        subst (λ x. Agrees x (cell (record s { threads = entering old ∷ ts }) (n ∷ ns) n)) l
          (i.agrees n) in
      record {
        phase = put i.phase n (linked (e + 1));
        agrees =
            Agrees-put i.phase n (linked (e + 1))
              (cell (record s { threads = entering old ∷ ts }) (n ∷ ns))
              (cell (record s { threads = holding (e + 1) n ∷ ts }) (n ∷ ns)) (ground arith)
              (λ m other. ground arith) i.agrees;
        walk = (
          refl,
          above,
          ground arith,
          d,
          Walk-put value i.phase s.data_of s.data_of s.next_of s.next_of n (linked (e + 1))
              (λ m o. refl) (λ m o. refl) (s.next_of n) ns (ground arith) rest,
        );
        fits = (
          above,
          Fits-put value i.phase s.data_of s.data_of s.next_of s.next_of n (linked (e + 1))
              (λ m o. refl) (λ m o. refl) ts (ground arith) i.fits.1,
        );
        unmade_after =
            unmade_put i.phase n (linked (e + 1)) s.made (λ u. ground (arith, l, u)) i.unmade_after;
        made_until =
            made_put i.phase n (linked (e + 1)) s.made (λ u. ground (arith, u)) i.made_until;
      }

  pub Inv-reenter :
      (old p : Ptr)
      → Inv value (record s { threads = entering old ∷ ts }) ns
      → Inv value (record s { threads = entering p ∷ ts }) ns
  Inv-reenter old p i = record {
    phase = i.phase;
    agrees = i.agrees;
    walk = i.walk;
    fits = i.fits;
    unmade_after = i.unmade_after;
    made_until = i.made_until;
  }

  pub Inv-lose :
      (e n : ℕ) (old : Ptr)
      → Inv value (record s { threads = holding e n ∷ ts }) ns
      → Inv value (record s { threads = leaving n old ∷ ts }) ns
  Inv-lose e n old i = record {
    phase = i.phase;
    agrees = i.agrees;
    walk = i.walk;
    fits = (tt, i.fits.1);
    unmade_after = i.unmade_after;
    made_until = i.made_until;
  }

  pub Inv-leave :
      (n : ℕ) (old old' : Ptr) (last : Bool)
      → (s.plus n == s.minus n + 1) ≡ last
      → Inv value (record s { threads = leaving n old ∷ ts }) ns
      → Inv value
          (delete last n
            (record s { minus = put s.minus n (s.minus n + 1); threads = entering old' ∷ ts }))
          ns
  Inv-leave n old old' false t i = record {
    phase = i.phase;
    agrees =
        Agrees-at i.phase n (cell (record s { threads = leaving n old ∷ ts }) ns)
          (cell (record s { minus = put s.minus n (s.minus n + 1); threads = entering old' ∷ ts })
            ns)
          (Left-Agrees (i.phase n) (cell (record s { threads = leaving n old ∷ ts }) ns n)
            (cell (record s { minus = put s.minus n (s.minus n + 1); threads = entering old' ∷ ts })
              ns n)
            (ground arith) (ground (arith, t)) (i.agrees n))
          (λ m other. ground arith) i.agrees;
    walk = i.walk;
    fits = (tt, i.fits.1);
    unmade_after = i.unmade_after;
    made_until = i.made_until;
  }
  Inv-leave n old old' true t i =
      let before = cell (record s { threads = leaving n old ∷ ts }) ns in
      let after =
        cell
          (record s {
            freed = put s.freed n true;
            minus = put s.minus n (s.minus n + 1);
            threads = entering old' ∷ ts;
          })
          ns in
      let (is_made, nobody, unclaimed, unlisted) =
        Left-last (i.phase n) (before n) (record (after n) { freed = s.freed n }) (ground arith)
          (ground (arith, t)) (i.agrees n) in
      record {
        phase = put i.phase n gone;
        agrees =
            Agrees-put i.phase n gone before after (ground arith) (λ m other. ground arith)
              i.agrees;
        walk =
            Walk-put value i.phase s.data_of s.data_of s.next_of s.next_of n gone (λ m o. refl)
              (λ m o. refl) s.head ns unlisted i.walk;
        fits = (
          tt,
          Fits-put value i.phase s.data_of s.data_of s.next_of s.next_of n gone (λ m o. refl)
              (λ m o. refl) ts (omega (arith, unclaimed)) i.fits.1,
        );
        unmade_after = unmade_put i.phase n gone s.made is_made i.unmade_after;
        made_until = made_put i.phase n gone s.made (λ u. ground (arith, u)) i.made_until;
      }
