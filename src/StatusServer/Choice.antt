-- ===== src/StatusServer/Choice.antt =====
-- A client is sent to a server with the fewest clients.
use learncc.Prelude.{
  ◌≤◌, ◌≡◌, ◌⊎◌, inl, inr, refl, ap, sym, subst, ◌∙◌, List, [], ◌∷◌, some, ltb, ◌==◌, arith,
  Bool-cases, Every,
}
use learncc.StatusServer.{ChatServer, Store, load, pick, scan, get_chatserver}

-- A server of the list with this name and address.
abbrev pub IsListed : ChatServer → List ChatServer → Type 0
IsListed m [] = ⊥
IsListed m (s ∷ ss) = ((m.name ≡ s.name) × (m.host ≡ s.host) × (m.port ≡ s.port)) ⊎ IsListed m ss

abbrev IsSame : ChatServer → ChatServer → Type 0
IsSame m s = (m.name ≡ s.name) × (m.host ≡ s.host) × (m.port ≡ s.port)

pick_best :
    (store : Store) (best s : ChatServer)
    → best.con_count ≡ load store best.name
    → let m = pick store best s in
      (m.con_count ≡ load store m.name)
      × (m.con_count ≤ best.con_count)
      × (m.con_count ≤ load store s.name)
      × (IsSame m best ⊎ IsSame m s)
unfolding pick
pick_best store best s h = elim (Bool-cases (s.name == best.name)) [
  | inl same ↦
      let alike : load store s.name ≡ load store best.name = ap (load store) (ground arith) in
      rw (same, pick) (h, omega arith, omega (arith, alike), inl (refl, refl, refl))
  | inr other ↦ elim (Bool-cases (ltb (load store s.name) best.con_count)) [
    | inl less ↦ rw (other, less, pick) (refl, ground arith, omega arith, inr (refl, refl, refl))
    | inr more ↦ rw (other, more, pick) (h, omega arith, ground arith, inl (refl, refl, refl))
  ]
]

origin :
    (store : Store) (best s : ChatServer) (ss : List ChatServer) (m p : ChatServer)
    → IsSame p best ⊎ IsSame p s
    → IsSame m p ⊎ IsListed m ss
    → IsSame m best ⊎ IsListed m (s ∷ ss)
origin store best s ss m p a (inr listed) = inr (inr listed)
origin store best s ss m p (inl (a, b, c)) (inl (d, e, f)) = inl (d ∙ a, e ∙ b, f ∙ c)
origin store best s ss m p (inr (a, b, c)) (inl (d, e, f)) = inr (inl (d ∙ a, e ∙ b, f ∙ c))

-- The best server so far beats itself and the rest.
scan_best :
    (store : Store) (best : ChatServer) (ss : List ChatServer)
    → best.con_count ≡ load store best.name
    → let m = scan store best ss in
      (m.con_count ≡ load store m.name)
      × (m.con_count ≤ best.con_count)
      × Every (λ s. m.con_count ≤ load store s.name) ss
      × (IsSame m best ⊎ IsListed m ss)
unfolding scan
scan_best store best [] h = (h, omega arith, tt, inl (refl, refl, refl))
scan_best store best (s ∷ ss) h =
    let (exact, beats, beats_s, from) = pick_best store best s h in
    let (exact', less, rest, from') = scan_best store (pick store best s) ss exact in
    (
      exact',
      omega arith,
      (omega arith, rest),
      origin store best s ss (scan store best (s ∷ ss)) (pick store best s) from from',
    )

-- The chosen server is one of the table, and no server of the table has fewer clients; a server
-- without an entry counts as full.
pub get_chatserver_fewest :
    (store : Store) (servers : List ChatServer) {m : ChatServer}
    → get_chatserver store servers ≡ some m
    → IsListed m servers
      × (m.con_count ≡ load store m.name)
      × Every (λ s. m.con_count ≤ load store s.name) servers
unfolding get_chatserver
get_chatserver_fewest store [] e = absurd (ground arith)
get_chatserver_fewest store (s ∷ ss) {m} e =
    let first = record s { con_count = load store s.name } in
    let shape : m ≡ scan store first (s ∷ ss) = ground arith in
    let (exact, beats, rest, from) = scan_best store first (s ∷ ss) refl in
    subst
      (λ x.
        IsListed x (s ∷ ss)
        × (x.con_count ≡ load store x.name)
        × Every (λ y. x.con_count ≤ load store y.name) (s ∷ ss))
      (sym shape) (elim from [ inl f ↦ inl f | inr f ↦ f ], exact, rest)
