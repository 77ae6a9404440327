-- ===== src/GateServer/Accounts.antt =====
-- src/gateserver/logic_system.cc: the requests that need a database. The fields of a request are texts,
-- empty where they are missing; jsoncpp, which reads them, either reads a form or fails.
mod Tests
pub mod Reset
pub mod Login
use learncc.Prelude.{
  ℕ, zero, suc, ◌+◌, ◌-◌, Bool, true, false, List, [], ◌∷◌, Option, none, some, ◌==◌, if◌then◌else◌,
}
use learncc.GateServer.Dao.{
  Row, Dao, Outcome, waits, ended, Procedure, reg_user, check_email, update_pwd, check_pwd,
}
use learncc.StatusServer
use learncc.StatusServer.{ChatServer, Store, get_chat_server}

pub data Error : Type 0 where
  success : Error
  err_json : Error
  err_rpc : Error
  err_ver_expired : Error
  err_ver_code : Error
  err_exist : Error
  err_email : Error
  err_pwd_update : Error
  err_pwd_invalid : Error

-- `verifycode` is read by a registration, `verify_code` by a reset.
pub record Form : Type 0 where
  pub email : ℕ
  pub user : ℕ
  pub pwd : ℕ
  pub confirm : ℕ
  pub verifycode : ℕ
  pub verify_code : ℕ

-- What redis has under `CODEPREFIX`, by the address.
abbrev pub Codes : Type 0
Codes = ℕ → Option ℕ

-- The reply of a registration: the error and, with success, the identifier.
pub data Reply (A : Type 0) : Type 0 where
  refused : Error → Reply A
  granted : A → Reply A

abbrev registered : Outcome (Option ℕ) → Outcome (Reply ℕ)
registered waits = waits
registered (ended none d) = ended (refused err_exist) d
registered (ended (some uid) d) =
    if uid == 0 then ended (refused err_exist) d else ended (granted uid) d

abbrev with_code : {A : Type 0} → Option ℕ → ℕ → Error → Dao → Outcome (Reply A) → Outcome (Reply A)
with_code none given expired d next = ended (refused expired) d
with_code (some code) given expired d next =
    if code == given then next else ended (refused err_ver_code) d

pub user_register : Procedure → Codes → Option Form → Bool → Dao → Outcome (Reply ℕ)
user_register p codes none throws d = ended (refused err_json) d
user_register p codes (some f) throws d =
    with_code (codes f.email) f.verifycode err_ver_expired d
      (registered (reg_user p f.user f.email f.pwd throws d))

abbrev updated : Form → Outcome Bool → Outcome (Reply Form)
updated f waits = waits
updated f (ended true d) = ended (granted f) d
updated f (ended false d) = ended (refused err_pwd_update) d

abbrev email_checked : Form → Bool → Outcome Bool → Outcome (Reply Form)
email_checked f throws waits = waits
email_checked f throws (ended false d) = ended (refused err_email) d
email_checked f throws (ended true d) = updated f (update_pwd f.user f.pwd throws d)

-- The two calls of the database throw or not.
pub reset_pwd : Codes → Option Form → Bool → Bool → Dao → Outcome (Reply Form)
reset_pwd codes none throws throws' d = ended (refused err_json) d
reset_pwd codes (some f) throws throws' d =
    with_code (codes f.email) f.verify_code err_ver_code d
      (email_checked f throws' (check_email f.user f.email throws d))

-- What a client needs to go on with a chat server.
pub record Ticket : Type 0 where
  pub uid : ℕ
  pub token : ℕ
  pub host : ℕ
  pub port : ℕ

-- The call of the status server: `none` where it fails.
abbrev served : Row → Store → Option (StatusServer.Reply × Store) → Reply Ticket × Store
served u store none = (refused err_rpc, store)
served u store (some (r, later)) =
    (granted (record { uid = u.uid; token = r.token; host = r.host; port = r.port }), later)

abbrev pwd_checked :
    List ChatServer → ℕ → Store → Outcome (Option Row) → Outcome (Reply Ticket × Store)
pwd_checked servers fresh store waits = waits
pwd_checked servers fresh store (ended none d) = ended (refused err_pwd_invalid, store) d
pwd_checked servers fresh store (ended (some u) d) =
    ended (served u store (get_chat_server servers u.uid fresh store)) d

-- `fresh` is the token that the status server makes.
pub user_login :
    List ChatServer → ℕ → Store → Option Form → Bool → Dao → Outcome (Reply Ticket × Store)
user_login servers fresh store none throws d = ended (refused err_json, store) d
user_login servers fresh store (some f) throws d =
    pwd_checked servers fresh store (check_pwd f.email f.pwd throws d)
