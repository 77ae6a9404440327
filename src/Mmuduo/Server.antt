-- ===== src/Mmuduo/Server.antt =====
-- src/mmuduo/eventloop_threadpool.cc and src/mmuduo/tcp_server.cc: which loop serves a connection, and
-- the table of connections. A loop is a number, and a connection is the number that ends its name,
-- which the rest of the name, the same for all of a server, does not change.
pub mod Dispatch
pub mod Table
mod Tests
use learncc.Prelude.{
  ℕ, ◌+◌, Bool, true, false, List, [], ◌∷◌, ◌++◌, map, length, get_or, ltb, leb, ◌==◌,
  if◌then◌else◌,
}

pub record LoopPool : Type 0 where
  pub base : ℕ
  pub loops : List ℕ
  pub next : ℕ

abbrev pub is_empty : List ℕ → Bool
is_empty [] = true
is_empty (l ∷ ls) = false

pub get_nextloop : LoopPool → ℕ × LoopPool
get_nextloop p =
    let following = p.next + 1 in
    if is_empty p.loops then (p.base, p) else (
      get_or p.loops p.next p.base,
      record p { next = if leb (length p.loops) following then 0 else following },
    )

pub get_all_loops : LoopPool → List ℕ
get_all_loops p = if is_empty p.loops then p.base ∷ [] else p.loops

-- `connections` is `connections_`: a connection with the loop that serves it.
pub record Server : Type 0 where
  pub pool : LoopPool
  pub started : ℕ
  pub next_connid : ℕ
  pub connections : List (ℕ × ℕ)

-- What is handed to loops: the start of listening, and the two ends of a connection.
pub data Effect : Type 0 where
  listen : ℕ → Effect
  establish : (loop conn : ℕ) → Effect
  destroy : (loop conn : ℕ) → Effect

abbrev pub make : ℕ → Server
make base = record {
  pool = record { base = base; loops = []; next = 0 };
  started = 0;
  next_connid = 1;
  connections = [];
}

-- `loops` are those of the threads that `start` of the pool creates.
pub start : List ℕ → Server → Server × List Effect
start loops s =
    let counted = record s { started = s.started + 1 } in
    if s.started == 0
    then (
      record counted { pool = record s.pool { loops = s.pool.loops ++ loops } },
      listen s.pool.base ∷ [],
    )
    else (counted, [])

pub new_connection : Server → Server × List Effect
unfolding get_nextloop
new_connection s =
    let (loop, pool) = get_nextloop s.pool in
    (
      record s {
        pool = pool;
        next_connid = s.next_connid + 1;
        connections = (s.next_connid, loop) ∷ s.connections;
      },
      establish loop s.next_connid ∷ [],
    )

pub erase : ℕ → List (ℕ × ℕ) → List (ℕ × ℕ)
erase j [] = []
erase j ((i, l) ∷ cs) = if i == j then cs else (i, l) ∷ erase j cs

pub remove_connection_inloop : ℕ → ℕ → Server → Server × List Effect
remove_connection_inloop j loop s =
    (record s { connections = erase j s.connections }, destroy loop j ∷ [])

-- The destructor.
abbrev pub destroy_each : ℕ × ℕ → Effect
destroy_each (i, l) = destroy l i

pub destroy_all : Server → List Effect
destroy_all s = map destroy_each s.connections
