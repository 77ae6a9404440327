-- ===== src/Mmuduo/Server/Table.antt =====
-- Each connection of a server is destroyed once.
use learncc.Prelude.{
  ℕ, ◌+◌, ◌≤◌, ◌≡◌, inl, inr, refl, ◌&&◌, List, [], ◌∷◌, ◌++◌, map, ltb, leb, ◌==◌, if◌then◌else◌,
  arith, Bool-cases, count, Option, none, some, Option-cases,
}
use learncc.Mmuduo.Server.{
  Server, Effect, listen, establish, destroy, make, new_connection, erase, remove_connection_inloop,
  destroy_each, destroy_all,
}

-- What happens to a server: a client connects, or a connection of the table closes.
pub data Event : Type 0 where
  accept : Event
  close : ℕ → Event

pub loop_of : ℕ → List (ℕ × ℕ) → Option ℕ
loop_of j [] = none
loop_of j ((i, l) ∷ cs) = if i == j then some l else loop_of j cs

pub serve : Event → Server → Server × List Effect
serve accept s = new_connection s
serve (close j) s = elim (loop_of j s.connections) [
  | none ↦ (s, [])
  | some l ↦ remove_connection_inloop j l s
]

pub serve_all : List Event → Server → Server × List Effect
serve_all [] s = (s, [])
serve_all (e ∷ es) s =
    let (s', fs) = serve e s in let (s'', fs') = serve_all es s' in (s'', fs ++ fs')

pub destroyed : List Effect → List ℕ
destroyed [] = []
destroyed (destroy l j ∷ es) = j ∷ destroyed es
destroyed (_ ∷ es) = destroyed es

abbrev keys : List (ℕ × ℕ) → List ℕ
keys [] = []
keys ((i, l) ∷ cs) = i ∷ keys cs

destroyed-append :
    (q : ℕ) (xs ys : List Effect)
    → count q (destroyed (xs ++ ys)) ≡ count q (destroyed xs) + count q (destroyed ys)
unfolding destroyed
destroyed-append q [] ys = omega arith
destroyed-append q (listen l ∷ xs) ys = destroyed-append q xs ys
destroyed-append q (establish l j ∷ xs) ys = destroyed-append q xs ys
destroyed-append q (destroy l j ∷ xs) ys = ground (arith, destroyed-append q xs ys)

destroyed-destroy_all :
    (q : ℕ) (cs : List (ℕ × ℕ)) → count q (destroyed (map destroy_each cs)) ≡ count q (keys cs)
unfolding destroyed
destroyed-destroy_all q [] = refl
destroyed-destroy_all q ((i, l) ∷ cs) = ground (arith, destroyed-destroy_all q cs)

count-erase :
    (q j : ℕ) (cs : List (ℕ × ℕ)) {l : ℕ}
    → loop_of j cs ≡ some l
    → count q (keys (erase j cs)) + count q (j ∷ []) ≡ count q (keys cs)
unfolding erase loop_of
count-erase q j [] e = absurd (ground arith)
count-erase q j ((i, l) ∷ cs) {l = served} e = elim (Bool-cases (i == j)) [
  | inl same ↦ ground arith
  | inr other ↦ ground (arith, count-erase q j cs {l = served} (ground arith))
]

serve_all-balance :
    (es : List Event) (s : Server) (q from : ℕ) (old : ℕ)
    → from ≤ s.next_connid
    → count q (keys s.connections) + old ≡ (if leb from q && ltb q s.next_connid then 1 else 0)
    → let (s', fs) = serve_all es s in
      count q (keys s'.connections) + (old + count q (destroyed fs))
      ≡ (if leb from q && ltb q s'.next_connid then 1 else 0)
unfolding serve_all serve new_connection destroyed remove_connection_inloop
serve_all-balance [] s q from old h e = omega (arith, e)
serve_all-balance (accept ∷ es) s q from old h e =
    ground
      (arith, serve_all-balance es (serve accept s).0 q from old (omega arith) (ground (arith, e)))
serve_all-balance (close j ∷ es) s q from old h e = elim (Option-cases (loop_of j s.connections)) [
  | inl gone ↦ rw (gone, serve) (serve_all-balance es s q from old h e)
  | inr (l, there) ↦
      rw (there, serve)
        (ground (
          arith,
          serve_all-balance es (record s { connections = erase j s.connections }) q from
              (old + count q (j ∷ [])) h (ground (arith, e, count-erase q j s.connections there)),
        ))
]

-- Whatever clients connect and connections close, in any order: once the server is destroyed, each
-- connection that it ever accepted was handed to its loop for destruction exactly once, and no other.
pub serve_all-destroyed_once :
    (es : List Event) (base q : ℕ)
    → let (s, fs) = serve_all es (make base) in
      count q (destroyed (fs ++ destroy_all s)) ≡ (if leb 1 q && ltb q s.next_connid then 1 else 0)
unfolding destroy_all
serve_all-destroyed_once es base q =
    let (s, fs) = serve_all es (make base) in
    omega (
      arith,
      serve_all-balance es (make base) q 1 0 (omega arith) (ground arith),
      destroyed-append q fs (map destroy_each s.connections),
      destroyed-destroy_all q s.connections,
    )
