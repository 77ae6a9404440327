-- ===== src/ChatServer/Users.antt =====
-- Users of the chat server: src/chat_server/logic_system.cc, chat_service_impl.cc and user_mgr.cc. Texts
-- are numbers where they are only compared and passed on, and 0 is the empty one.
pub mod Cache
use learncc.Prelude.{
  ℕ, zero, suc, ◌+◌, ◌-◌, ◌*◌, ◌^◌, ◌≡◌, Bool, true, false, ◌&&◌, List, [], ◌∷◌, Option, none, some,
  ltb, leb, ◌==◌, if◌then◌else◌,
}

-- `user_info` of inc/chat_server/data.h.
pub record UserInfo : Type 0 where
  pub uid : ℕ
  pub pwd : ℕ
  pub name : ℕ
  pub email : ℕ
  pub nick : ℕ
  pub desc : ℕ
  pub sex : ℕ
  pub icon : ℕ
  pub back : ℕ

-- The object that is kept in redis; its field `icon` may be missing.
pub record Object : Type 0 where
  pub uid : ℕ
  pub pwd : ℕ
  pub name : ℕ
  pub email : ℕ
  pub nick : ℕ
  pub desc : ℕ
  pub sex : ℕ
  pub icon : Option ℕ

-- jsoncpp: an object that is printed is read back as it was.
pub record Json : Type 1 where
  pub Text : Type 0
  pub print : Object → Text
  pub parse : Text → Object
  pub parse-print : (o : Object) → parse (print o) ≡ o

-- `redis` has the entries under `USER_BASE_INFO` and under `NAME_INFO`, by the text behind the prefix;
-- MySQL has the users by identifier and by name, and their lists.
pub record Redis (js : Json) : Type 0 where
  pub base : List ℕ → Option js.Text
  pub names : List ℕ → Option js.Text

-- `apply_info`.
pub record ApplyInfo : Type 0 where
  pub uid : ℕ
  pub name : ℕ
  pub desc : ℕ
  pub icon : ℕ
  pub nick : ℕ
  pub sex : ℕ
  pub status : ℕ

pub record Database : Type 0 where
  pub applies : ℕ → Option (List ApplyInfo)
  pub friends : ℕ → List UserInfo
  pub user : ℕ → Option UserInfo
  pub user_by_name : List ℕ → Option UserInfo

pub same_text : List ℕ → List ℕ → Bool
same_text [] [] = true
same_text [] (y ∷ ys) = false
same_text (x ∷ xs) [] = false
same_text (x ∷ xs) (y ∷ ys) = (x == y) && same_text xs ys

abbrev pub set_text : {A : Type 0} → (List ℕ → Option A) → List ℕ → A → List ℕ → Option A
set_text f k v k' = if same_text k k' then some v else f k'

-- A missing field reads as an empty text; `get_base_info` of the logic system neither writes nor reads
-- the icon.
abbrev pub without_icon : UserInfo → Object
without_icon u = record {
  uid = u.uid;
  pwd = u.pwd;
  name = u.name;
  email = u.email;
  nick = u.nick;
  desc = u.desc;
  sex = u.sex;
  icon = none;
}

abbrev pub with_icon : UserInfo → Object
with_icon u = record (without_icon u) { icon = some u.icon }

abbrev as_text : Option ℕ → ℕ
as_text none = 0
as_text (some t) = t

abbrev pub read_object : Object → UserInfo
read_object o = record {
  uid = o.uid;
  pwd = o.pwd;
  name = o.name;
  email = o.email;
  nick = o.nick;
  desc = o.desc;
  sex = o.sex;
  icon = 0;
  back = 0;
}

abbrev pub read_with_icon : Object → UserInfo
read_with_icon o = record (read_object o) { icon = as_text o.icon }

abbrev pub base_info :
    (js : Json)
    → List ℕ
    → ℕ
    → Redis js
    → Option js.Text
    → Option UserInfo
    → Option UserInfo × Redis js
base_info js key uid r (some t) u = (some (read_object (js.parse t)), r)
base_info js key uid r none none = (none, r)
base_info js key uid r none (some u) = (
  some u,
  record r { base = set_text r.base key (js.print (record (without_icon u) { uid = uid })) },
)

-- `logic_system::get_base_info`, for the identifier and its text.
unfoldable pub get_base_info :
    (js : Json) → Database → List ℕ → ℕ → Redis js → Option UserInfo × Redis js
unfolding same_text
get_base_info js db key uid r = base_info js key uid r (r.base key) (db.user uid)

abbrev pub base_info_of_peer :
    (js : Json)
    → List ℕ
    → ℕ
    → Redis js
    → Option js.Text
    → Option UserInfo
    → Option UserInfo × Redis js
base_info_of_peer js key uid r (some t) u = (some (read_with_icon (js.parse t)), r)
base_info_of_peer js key uid r none none = (none, r)
base_info_of_peer js key uid r none (some u) = (
  some u,
  record r { base = set_text r.base key (js.print (record (with_icon u) { uid = uid })) },
)

-- `ChatServiceImpl::get_base_info`.
pub get_base_info_of_peer :
    (js : Json) → Database → List ℕ → ℕ → Redis js → Option UserInfo × Redis js
unfolding same_text
get_base_info_of_peer js db key uid r = base_info_of_peer js key uid r (r.base key) (db.user uid)

pub is_pure_digit : List ℕ → Bool
is_pure_digit [] = true
is_pure_digit (c ∷ cs) = (leb 48 c && leb c 57) && is_pure_digit cs

-- `std::stoi` of digits: the number, or `none` for the exception if there is none or it is too large.
abbrev digits_value : ℕ → List ℕ → ℕ
digits_value n [] = n
digits_value n (c ∷ cs) = digits_value (n * 10 + (c - 48)) cs

pub stoi : List ℕ → Option ℕ
stoi [] = none
stoi (c ∷ cs) = let n = digits_value 0 (c ∷ cs) in if ltb n (2 ^ 31) then some n else none

-- How a search ends: the user, no user, or an exception that ends the program.
pub data Search (js : Json) : Type 0 where
  found : Object → Redis js → Search js
  unknown : Search js
  thrown : Search js

abbrev store_found : (js : Json) → List ℕ → Redis js → Option UserInfo → Search js
store_found js key r none = unknown
store_found js key r (some u) =
    found (without_icon u) (record r { base = set_text r.base key (js.print (without_icon u)) })

abbrev by_uid : (js : Json) → Database → List ℕ → Redis js → Option ℕ → Search js
by_uid js db key r none = thrown
by_uid js db key r (some uid) = store_found js key r (db.user uid)

pub get_user_byuid : (js : Json) → Database → List ℕ → Redis js → Search js
unfolding stoi same_text
get_user_byuid js db key r = elim (r.base key) [
  | some t ↦ found (record (js.parse t) { icon = none }) r
  | none ↦ by_uid js db key r (stoi key)
]

pub get_user_byname : (js : Json) → Database → List ℕ → Redis js → Search js
unfolding same_text
get_user_byname js db name r = elim (r.names name) [
  | some t ↦ found (record (js.parse t) { icon = none }) r
  | none ↦ elim (db.user_by_name name) [
    | none ↦ unknown
    | some u ↦
        found (without_icon u)
          (record r { names = set_text r.names name (js.print (without_icon u)) })
  ]
]

-- The part of `search_info` after the request has been read.
pub search_info : (js : Json) → Database → List ℕ → Redis js → Search js
unfolding is_pure_digit get_user_byuid get_user_byname
search_info js db text r =
    if is_pure_digit text then get_user_byuid js db text r else get_user_byname js db text r
