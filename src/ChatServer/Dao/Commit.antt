-- ===== src/ChatServer/Dao/Commit.antt =====
-- What `add_friend` leaves behind: a connection without autocommit.
use learncc.Prelude.{ℕ, ◌≡◌, Bool, true, false, [], ◌∷◌, ◌++◌}
use learncc.ChatServer.Dao.{
  Sql, Change, apply_for, accept, Conn, Dao, Outcome, Ending, done, negative, throws,
  auth_friend_apply, add_friend_apply,
}
use learncc.ChatServer.Dao.Adding.{Adding, adds}

-- An application or its acceptance, and how its statement ends.
pub data Call : Type 0 where
  asks : ℕ → ℕ → Ending → Call
  confirms : ℕ → ℕ → Ending → Call

abbrev pub call : (sql : Sql) → Call → Dao sql → Outcome sql Bool
call sql (asks from to e) d = add_friend_apply sql from to e d
call sql (confirms from to e) d = auth_friend_apply sql from to e d

abbrev pub IsSwitched : Adding → Type 0
IsSwitched (adds from to back refused first second fails) = refused ≡ false

abbrev is_done : Ending → Bool
is_done done = true
is_done negative = false
is_done throws = false

abbrev pub answer : Call → Bool
answer (asks from to e) = is_done e
answer (confirms from to e) = is_done e

abbrev pub IsOff : Conn → Type 0
IsOff c = c.autocommit ≡ false

-- What the connection holds back after the statement.
held_by : Ending → Change → Conn → Conn
held_by done x c = record c { pending = c.pending ++ (x ∷ []) }
held_by negative x c = c
held_by throws x c = c

held : Call → Conn → Conn
held (asks from to e) c = held_by e (apply_for from to) c
held (confirms from to e) c = held_by e (accept to from) c
