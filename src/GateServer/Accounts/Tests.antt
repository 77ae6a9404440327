-- ===== src/GateServer/Accounts/Tests.antt =====
-- The theorems on accounts with two rows and one chat server.
use learncc.Prelude.{◌≡◌, ◌≢◌, refl, true, false, List, [], ◌∷◌, map, none, some, arith}
use learncc.StatusServer.{
  ChatServer, Store, load, pick, scan, get_chatserver, get_chat_server, insert_token,
}
use learncc.ChatServer.Users.{Object, Json, Database, get_base_info}
use learncc.ChatServer.Handlers
use learncc.ChatServer.Handlers.{Cluster, login_handler}
use learncc.ChatServer.Handlers.Login.{error_of, is_found}
use learncc.GateServer.Dao.{
  Row, Dao, waits, ended, Procedure, get_conn, return_conn, first_by_name, first_by_email,
  check_email, set_pwd, check_pwd,
}
use learncc.GateServer.Accounts.{
  Form, Codes, refused, granted, Ticket, served, err_pwd_invalid, reset_pwd, user_login,
}
use learncc.GateServer.Accounts.Reset.{resets, resets-waits}
use learncc.GateServer.Accounts.Login.{login_handler-user_login, user_login-reset_pwd}

abbrev wang : Row
wang = record { uid = 7; name = 2; email = 3; pwd = 11 }

abbrev five : Dao
five = record {
  idle = 5;
  stopped = false;
  rows = record { uid = 6; name = 1; email = 4; pwd = 10 } ∷ wang ∷ [];
}

abbrev codes : Codes
codes = λ email. some 4321

abbrev form : Form
form = record { email = 3; user = 2; pwd = 12; confirm = 12; verifycode = 0; verify_code = 4321 }

abbrev stranger : Form
stranger = record form { user = 99 }

abbrev one_server : List ChatServer
one_server = record { host = 1; port = 8090; name = 21; con_count = 0 } ∷ []

abbrev store : Store
store = record { counts = λ n. none; tokens = λ u. none }

nobody : first_by_name 99 five.rows ≡ none
unfolding first_by_name
nobody = refl

resets-waits_example : resets 4 codes stranger five ≡ waits
resets-waits_example = resets-waits 4 codes stranger five refl refl nobody refl

by_name : first_by_name 2 five.rows ≡ some wang
unfolding first_by_name
by_name = refl

by_email : first_by_email 3 five.rows ≡ some wang
unfolding first_by_email
by_email = refl

abbrev later_five : Dao
later_five = record five { rows = map (set_pwd 2 12) five.rows }

abbrev with_old : Form
with_old = record form { pwd = 11 }

user_login-reset_pwd_example :
    (reset_pwd codes (some form) false false five ≡ ended (granted form) later_five)
    × (with_old.pwd ≡ form.pwd
        → user_login one_server 99 store (some with_old) false later_five
          ≡ ended
              (served (record wang { pwd = 12 }) store (get_chat_server one_server 7 99 store))
              later_five)
    × (with_old.pwd ≢ form.pwd
        → user_login one_server 99 store (some with_old) false later_five
          ≡ ended (refused err_pwd_invalid, store) later_five)
user_login-reset_pwd_example =
    user_login-reset_pwd codes form with_old five wang one_server 99 store refl refl (omega arith)
      by_name by_email refl

abbrev ticket : Ticket
ticket = record { uid = 7; token = 99; host = 1; port = 8090 }

login :
    user_login one_server 99 store (some with_old) false five
    ≡ ended (granted ticket, insert_token 7 99 store) five
unfolding user_login check_pwd get_conn return_conn first_by_email get_chat_server get_chatserver
    scan pick load
login = refl

abbrev plain : Json
plain = record { Text = Object; print = λ o. o; parse = λ o. o; parse-print = λ o. refl }

abbrev one_user : Database
one_user = record {
  applies = λ uid. none;
  friends = λ uid. [];
  user = λ uid. some (record {
    uid = 7;
    pwd = 11;
    name = 2;
    email = 3;
    nick = 0;
    desc = 0;
    sex = 0;
    icon = 0;
    back = 0;
  });
  user_by_name = λ name. none;
}

abbrev cluster : Cluster plain
cluster = record {
  tokens = (insert_token 7 99 store).tokens;
  ips = λ uid. none;
  logins = λ server. none;
  redis = record { base = λ key. none; names = λ name. none };
  known = λ server session. true;
  users = λ server uid. none;
  user_id = λ server session. 0;
}

is_user : is_found (get_base_info plain one_user (55 ∷ []) 7 cluster.redis).0 ≡ true
unfolding get_base_info
is_user = refl

login_handler-user_login_example :
    error_of (login_handler plain one_user (55 ∷ []) 1 4 7 99 cluster).0 ≡ Handlers.success
login_handler-user_login_example =
    login_handler-user_login one_server 99 store with_old false five five ticket
      (insert_token 7 99 store) plain one_user (55 ∷ []) 1 4 cluster login refl is_user

abbrev procedure : Procedure
procedure = record {
  reg_user = λ name email pwd rows.
      (some 8, record { uid = 8; name = name; email = email; pwd = pwd } ∷ rows);
}

abbrev four : Dao
four = record five { idle = 4 }

lost : check_email 99 3 false five ≡ ended true four
unfolding check_email get_conn first_by_name
lost = refl
