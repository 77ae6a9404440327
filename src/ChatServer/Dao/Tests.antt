-- ===== src/ChatServer/Dao/Tests.antt =====
-- The theorems on the database of the chat server with lists of pairs for tables.
use learncc.Prelude.{◌≡◌, ◌↔◌, Every, refl, true, false, List, [], ◌∷◌, ◌++◌, none, arith}
use learncc.ChatServer.Dao.{
  Sql, Change, befriend, Conn, waits, ended, done, throws, get_friend_list,
}
use learncc.ChatServer.Dao.Adding.{going, IsClean, Adding, adds, add, run, run-all_or_nothing}
use learncc.ChatServer.Dao.Commit.{Call, asks, confirms}
use learncc.ChatServer.Dao.Nested.{Short, get_friend_list-waits_iff}

-- A table is the list of what was done to it, and every user has the friend 9.
abbrev journal : Sql
journal = record {
  Tables = List Change;
  change = λ x t. t ++ (x ∷ []);
  user = λ t uid. none;
  user_by_name = λ t name. none;
  friends = λ t uid. 9 ∷ [];
  applies = λ t to begin limit. [];
}

abbrev fresh : Conn
fresh = record { autocommit = true; pending = [] }

-- The second call fails in its second insertion, and the third one before anything else.
abbrev three_adds : List Adding
three_adds =
    adds 1 2 3 false done done false
    ∷ adds 1 4 3 false done throws false
    ∷ adds 1 5 3 true done done false
    ∷ []

run-all_or_nothing_example :
    (cs' : List Conn) × (run journal (add journal) three_adds (going (fresh ∷ (fresh ∷ [])) [])
      ≡ ended (true ∷ false ∷ false ∷ []) (going cs' (befriend 1 2 3 ∷ (befriend 2 1 0 ∷ []))))
    × Every IsClean cs'
run-all_or_nothing_example =
    run-all_or_nothing journal three_adds (fresh ∷ (fresh ∷ [])) [] (omega arith) (refl, (refl, tt))

abbrev two_adds : List Adding
two_adds = adds 1 2 3 false done done false ∷ adds 1 4 3 false done throws false ∷ []

abbrev calls : List Call
calls = asks 5 6 done ∷ confirms 6 5 throws ∷ []

get_friend_list-waits_iff_example :
    (get_friend_list journal 1 false (going (fresh ∷ []) []) ≡ waits)
    ↔ Short journal 1 [] (fresh ∷ [])
get_friend_list-waits_iff_example = get_friend_list-waits_iff journal 1 (fresh ∷ []) []
