-- ===== src/ChatServer/Handlers.antt =====
-- Handlers of the chat servers: src/chat_server/logic_system.cc, chat_service_impl.cc, chat_grpc_client.cc,
-- cserver.cc and user_mgr.cc. Servers, sessions and users are numbers. Several servers share redis and
-- MySQL.
pub mod Delivery
pub mod Login
mod Tests
use learncc.Prelude.{
  ℕ, zero, suc, ◌+◌, Bool, true, false, List, [], ◌∷◌, ◌++◌, Option, none, some, ◌==◌,
  if◌then◌else◌, map, put,
}
use learncc.ChatServer.Users.{
  ApplyInfo, Object, without_icon, UserInfo, Json, Redis, Database, get_base_info,
  get_base_info_of_peer,
}

pub data Error : Type 0 where
  success : Error
  err_uid : Error
  err_token : Error

-- The reply to a login: the user and the two lists.
pub record Profile : Type 0 where
  pub info : Object
  pub apply_list : List ApplyInfo
  pub friend_list : List UserInfo

-- What is told of a user who confirms a friend.
pub record Shown : Type 0 where
  pub name : ℕ
  pub nick : ℕ
  pub icon : ℕ
  pub sex : ℕ

-- What clients are sent, without the constant texts. A text message is its content and its identifier.
pub data Message : Type 0 where
  login_rsp : Error → Option Profile → Message
  add_friend_rsp : Message
  notify_add_friend : ℕ → ℕ → Option (ℕ × ℕ × ℕ) → Message
  auth_friend_rsp : Error → ℕ → Option Shown → Message
  notify_auth_friend : Error → ℕ → ℕ → Option Shown → Message
  text_chat_rsp : ℕ → ℕ → List (ℕ × ℕ) → Message
  notify_text_chat : ℕ → ℕ → List (ℕ × ℕ) → Message

-- The calls between servers: `AddFriendReq`, `AuthFriendReq` and `TextChatMsgReq`.
pub data Request : Type 0 where
  add_friend_req : ℕ → ℕ → ℕ → ℕ × ℕ × ℕ → Request
  auth_friend_req : ℕ → ℕ → Request
  text_chat_req : ℕ → ℕ → List (ℕ × ℕ) → Request

-- What a handler does besides: it sends to a session, calls a server, or changes the database.
pub data Effect : Type 0 where
  sends : ℕ → Message → Effect
  calls : ℕ → Request → Effect
  stores_apply : ℕ → ℕ → Effect
  stores_auth : ℕ → ℕ → Effect
  stores_friend : ℕ → ℕ → ℕ → Effect

-- Redis has the token and the server of a user and the number of logins of a server; each server has
-- its sessions by session and by user, and `user_id_` of a session.
pub record Cluster (js : Json) : Type 0 where
  pub tokens : ℕ → Option ℕ
  pub ips : ℕ → Option ℕ
  pub logins : ℕ → Option ℕ
  pub redis : Redis js
  pub known : ℕ → ℕ → Bool
  pub users : ℕ → ℕ → Option ℕ
  pub user_id : ℕ → ℕ → ℕ

abbrev count_of : Option ℕ → ℕ
count_of none = 0
count_of (some n) = n

-- The last lines of a login.
abbrev pub bind : {js : Json} → ℕ → ℕ → ℕ → Cluster js → Cluster js
bind self session uid c = record c {
  logins = put c.logins self (some (count_of (c.logins self) + 1));
  user_id = put c.user_id self (put (c.user_id self) session uid);
  ips = put c.ips uid (some self);
  users = put c.users self (put (c.users self) uid (some session));
}

-- A friend is sent without password and mail address.
abbrev pub as_friend : UserInfo → UserInfo
as_friend u = record u { pwd = 0; email = 0 }

abbrev all_of : Option (List ApplyInfo) → List ApplyInfo
all_of none = []
all_of (some xs) = xs

abbrev pub profile : Database → ℕ → UserInfo → Profile
profile db uid u = record {
  info = record (without_icon u) { uid = uid };
  apply_list = all_of (db.applies uid);
  friend_list = map as_friend (db.friends uid);
}

abbrev pub enter :
    {js : Json}
    → Database
    → ℕ
    → ℕ
    → ℕ
    → Cluster js
    → Option UserInfo × Redis js
    → Message × Cluster js
enter db self session uid c (none, r) = (login_rsp err_uid none, record c { redis = r })
enter db self session uid c (some u, r) =
    (login_rsp success (some (profile db uid u)), bind self session uid (record c { redis = r }))

abbrev pub check_token :
    (js : Json) → Database → List ℕ → ℕ → ℕ → ℕ → ℕ → Cluster js → Option ℕ → Message × Cluster js
check_token js db key self session uid token c none = (login_rsp err_uid none, c)
check_token js db key self session uid token c (some t) =
    if t == token
    then enter db self session uid c (get_base_info js db key uid c.redis)
    else (login_rsp err_token none, c)

-- `login_handler`; `key` is the text of `uid`.
pub login_handler :
    (js : Json) → Database → List ℕ → ℕ → ℕ → ℕ → ℕ → Cluster js → Message × Cluster js
login_handler js db key self session uid token c =
    check_token js db key self session uid token c (c.tokens uid)

-- `cserver::handle_accept` and `cserver::clear_session`.
pub handle_accept : {js : Json} → ℕ → ℕ → Cluster js → Cluster js
handle_accept self session c = record c {
  known = put c.known self (put (c.known self) session true);
}

pub clear_session : {js : Json} → ℕ → ℕ → Cluster js → Cluster js
clear_session self session c =
    let forgotten = put c.known self (put (c.known self) session false) in
    let uid = c.user_id self session in
    if c.known self session
    then record c { users = put c.users self (put (c.users self) uid none); known = forgotten }
    else record c { known = forgotten }

-- Where a user is, as a server sees it: nowhere, in a session here or in none, or at another server.
pub data Route : Type 0 where
  offline : Route
  here : Option ℕ → Route
  at : ℕ → Route

abbrev route_by : {js : Json} → ℕ → ℕ → Cluster js → Option ℕ → Route
route_by self touid c none = offline
route_by self touid c (some server) =
    if server == self then here (c.users self touid) else at server

pub route : {js : Json} → ℕ → ℕ → Cluster js → Route
route self touid c = route_by self touid c (c.ips touid)

-- The notification in front of the reply, which is sent when the handler returns.
abbrev pub notify : Route → Message → Request → List Effect
notify offline m q = []
notify (here none) m q = []
notify (here (some s)) m q = sends s m ∷ []
notify (at server) m q = calls server q ∷ []

pub deal_chat_text_msg : {js : Json} → ℕ → ℕ → ℕ → ℕ → List (ℕ × ℕ) → Cluster js → List Effect
unfolding route
deal_chat_text_msg self session uid touid texts c =
    notify (route self touid c) (notify_text_chat uid touid texts) (text_chat_req uid touid texts)
    ++ (sends session (text_chat_rsp uid touid texts) ∷ [])

-- `chat_grpc_client::NotifyTextChatMsg`: another server gets the request if it is a peer that `pools_` has
-- and the call succeeds; otherwise nothing happens, and the handler does not look at the result.
pub notify_text_chat_msg : (ℕ → ℕ → Bool) → ℕ → ℕ → Request → Option Request
notify_text_chat_msg reaches self server q = if reaches self server then some q else none

-- The icon, the sex and the nickname that another server is told.
abbrev details : Option UserInfo → ℕ × ℕ × ℕ
details none = (0, 0, 0)
details (some u) = (u.icon, u.sex, u.nick)

-- Only for another server, and only for a session here, the user is looked up.
abbrev if_at :
    {js : Json} → Route → Redis js → Option UserInfo × Redis js → Option UserInfo × Redis js
if_at (at server) r got = got
if_at other r got = (none, r)

abbrev if_here :
    {js : Json} → Route → Redis js → Option UserInfo × Redis js → Option UserInfo × Redis js
if_here (here (some s)) r got = got
if_here other r got = (none, r)

pub add_friend_apply :
    (js : Json) → Database → List ℕ → ℕ → ℕ → ℕ → ℕ → ℕ → Cluster js → List Effect × Redis js
unfolding route
add_friend_apply js db key self session uid touid applyname c =
    let to = route self touid c in
    let (info, r) = if_at to c.redis (get_base_info js db key uid c.redis) in
    (
      (stores_apply uid touid
            ∷ notify to (notify_add_friend uid applyname none)
                (add_friend_req uid touid applyname (details info)))
          ++ (sends session add_friend_rsp ∷ []),
      r,
    )

abbrev shown : Option UserInfo → Option Shown
shown none = none
shown (some u) = some (record { name = u.name; nick = u.nick; icon = u.icon; sex = u.sex })

abbrev known_error : Option UserInfo → Error
known_error none = err_uid
known_error (some u) = success

pub auth_friend_apply :
    (js : Json) → Database → (ℕ → List ℕ) → ℕ → ℕ → ℕ → ℕ → ℕ → Cluster js → List Effect × Redis js
unfolding route
auth_friend_apply js db key self session uid touid back_name c =
    let to = route self touid c in
    let (to_info, r) = get_base_info js db (key touid) touid c.redis in
    let (info, r') = if_here to r (get_base_info js db (key uid) uid r) in
    (
      (stores_auth uid touid
            ∷ (stores_friend uid touid back_name
                ∷ notify to (notify_auth_friend (known_error info) uid touid (shown info))
                    (auth_friend_req uid touid)))
          ++ (sends session (auth_friend_rsp (known_error to_info) touid (shown to_info)) ∷ []),
      r',
    )

-- `ChatServiceImpl`: the server that was called.
abbrev to_session : Option ℕ → Message → List Effect
to_session none m = []
to_session (some s) m = sends s m ∷ []

abbrev if_session :
    {js : Json} → Option ℕ → Redis js → Option UserInfo × Redis js → Option UserInfo × Redis js
if_session none r got = (none, r)
if_session (some s) r got = got

pub serve :
    (js : Json) → Database → (ℕ → List ℕ) → ℕ → Request → Cluster js → List Effect × Redis js
serve js db key self (add_friend_req uid touid name info) c =
    (to_session (c.users self touid) (notify_add_friend uid name (some info)), c.redis)
serve js db key self (auth_friend_req uid touid) c =
    let (info, r) =
      if_session (c.users self touid) c.redis (get_base_info_of_peer js db (key uid) uid c.redis) in
    (
      to_session (c.users self touid)
          (notify_auth_friend (known_error info) uid touid (shown info)),
      r,
    )
serve js db key self (text_chat_req uid touid texts) c =
    (to_session (c.users self touid) (notify_text_chat uid touid texts), c.redis)
