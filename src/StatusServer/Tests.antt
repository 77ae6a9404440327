-- ===== src/StatusServer/Tests.antt =====
-- The theorems on the status server at two chat servers.
use learncc.Prelude.{◌≡◌, refl, List, [], ◌∷◌, none, some, ◌==◌, if◌then◌else◌}
use learncc.StatusServer.{
  ChatServer, Store, load, pick, scan, get_chatserver, get_chat_server, insert_token, login,
  err_uid,
}
use learncc.StatusServer.Login.{login-get_chat_server}

abbrev first_server : ChatServer
first_server = record { host = 1; port = 8090; name = 21; con_count = 0 }

abbrev second_server : ChatServer
second_server = record { host = 2; port = 8091; name = 22; con_count = 0 }

abbrev servers : List ChatServer
servers = first_server ∷ second_server ∷ []

-- The first server has five clients and the second one three.
abbrev store : Store
store = record {
  counts = λ n. if n == 21 then some 5 else if n == 22 then some 3 else none;
  tokens = λ u. none;
}

login-get_chat_server_example : login (insert_token 7 99 store) 7 99 ≡ err_uid
unfolding get_chat_server get_chatserver scan pick load
login-get_chat_server_example = login-get_chat_server servers 7 99 99 store refl
