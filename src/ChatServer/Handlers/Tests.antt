-- ===== src/ChatServer/Handlers/Tests.antt =====
-- The theorems on handlers with two servers and two users.
use learncc.Prelude.{◌≡◌, refl, true, [], ◌∷◌, none, some, ◌==◌, if◌then◌else◌, arith}
use learncc.ChatServer.Users.{UserInfo, Object, Json, Database, get_base_info}
use learncc.ChatServer.Handlers.{
  Cluster, text_chat_rsp, notify_text_chat, sends, login_handler, clear_session, deal_chat_text_msg,
}
use learncc.ChatServer.Handlers.Delivery.{delivered, chat_delivered}
use learncc.ChatServer.Handlers.Login.{clear_session-other}

abbrev plain : Json
plain = record { Text = Object; print = λ o. o; parse = λ o. o; parse-print = λ o. refl }

abbrev lin : UserInfo
lin = record {
  uid = 7;
  pwd = 1;
  name = 2;
  email = 3;
  nick = 4;
  desc = 5;
  sex = 1;
  icon = 6;
  back = 0;
}

abbrev one_user : Database
one_user = record {
  applies = λ uid. none;
  friends = λ uid. [];
  user = λ uid. some lin;
  user_by_name = λ name. none;
}

-- User 7 is at server 2, in session 5.
abbrev two_servers : Cluster plain
two_servers = record {
  tokens = λ uid. some 9;
  ips = λ uid. if uid == 7 then some 2 else none;
  logins = λ server. none;
  redis = record { base = λ key. none; names = λ name. none };
  known = λ server session. true;
  users = λ server uid. if uid == 7 then some 5 else none;
  user_id = λ server session. 7;
}

chat_delivered_example :
    delivered plain one_user
      (λ uid. uid ∷ [])
      (λ from to. true)
      1
      two_servers
      (deal_chat_text_msg 1 3 8 7 ((4, 4) ∷ []) two_servers)
    ≡ (2, 5, notify_text_chat 8 7 ((4, 4) ∷ [])) ∷ ((1, 3, text_chat_rsp 8 7 ((4, 4) ∷ [])) ∷ [])
chat_delivered_example =
    chat_delivered plain one_user (λ uid. uid ∷ []) (λ from to. true) 1 3 8 7 ((4, 4) ∷ [])
      two_servers

found_lem : (get_base_info plain one_user (55 ∷ []) 7 two_servers.redis).0 ≡ some lin
unfolding get_base_info
found_lem = refl

clear_session-other_example :
    let c = clear_session 2 5 (login_handler plain one_user (55 ∷ []) 2 6 7 9 two_servers).1 in
    (c.known 2 6 ≡ true)
    × (c.ips 7 ≡ some 2)
    × (c.users 2 7 ≡ none)
    × (deal_chat_text_msg 2 3 8 7 [] c ≡ sends 3 (text_chat_rsp 8 7 []) ∷ [])
clear_session-other_example =
    clear_session-other plain one_user (55 ∷ []) 2 5 6 3 7 9 8 [] two_servers lin (ground arith)
      refl refl refl found_lem
