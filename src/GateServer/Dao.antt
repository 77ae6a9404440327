-- ===== src/GateServer/Dao.antt =====
-- src/gateserver/mysql_dao.cc and the pool of inc/gateserver/mysql_dao.h. Texts are numbers, since they are
-- only compared and stored; 0 is the empty one. A statement of SQL does what it says to the rows of the
-- table `user`; whether MySQL throws is an argument.
pub mod Pool
pub mod Calls
use learncc.Prelude.{
  ℕ, zero, suc, ◌+◌, ◌-◌, Bool, true, false, List, [], ◌∷◌, map, Option, none, some, ◌==◌,
  if◌then◌else◌,
}

pub record Row : Type 0 where
  pub uid : ℕ
  pub name : ℕ
  pub email : ℕ
  pub pwd : ℕ

-- The connections in the pool, `b_stop_`, and the table.
pub record Dao : Type 0 where
  pub idle : ℕ
  pub stopped : Bool
  pub rows : List Row

-- A call of the database waits for a connection, or ends.
pub data Outcome (A : Type 0) : Type 0 where
  waits : Outcome A
  ended : A → Dao → Outcome A

-- `get_conn`, with what is done without a connection and with one that was taken out.
pub data Conn : Type 0 where
  blocked : Conn
  null : Conn
  conn : Dao → Conn

unfoldable pub get_conn : Dao → Conn
get_conn d =
    if d.stopped
    then null
    else (if d.idle == 0 then blocked else conn (record d { idle = d.idle - 1 }))

unfoldable pub return_conn : Dao → Dao
return_conn d = if d.stopped then d else record d { idle = d.idle + 1 }

-- `CALL reg_user(...)` and the select of its result, which the database has: `none` is -1.
pub record Procedure : Type 0 where
  pub reg_user : ℕ → ℕ → ℕ → List Row → Option ℕ × List Row

abbrev reg_user_on : Procedure → ℕ → ℕ → ℕ → Bool → Conn → Dao → Outcome (Option ℕ)
reg_user_on p name email pwd throws blocked d = waits
reg_user_on p name email pwd throws null d = ended (some 0) d
reg_user_on p name email pwd throws (conn d') d =
    let (result, rows) = p.reg_user name email pwd d'.rows in
    if throws
    then ended none (return_conn d')
    else ended result (return_conn (record d' { rows = rows }))

pub reg_user : Procedure → ℕ → ℕ → ℕ → Bool → Dao → Outcome (Option ℕ)
unfolding get_conn return_conn
reg_user p name email pwd throws d = reg_user_on p name email pwd throws (get_conn d) d

unfoldable pub first_by_name : ℕ → List Row → Option Row
first_by_name name [] = none
first_by_name name (r ∷ rs) =
    let later = first_by_name name rs in if r.name == name then some r else later

unfoldable pub first_by_email : ℕ → List Row → Option Row
first_by_email email [] = none
first_by_email email (r ∷ rs) =
    let later = first_by_email email rs in if r.email == email then some r else later

-- No row: the connection is not given back.
abbrev check_row : ℕ → Dao → Option Row → Outcome Bool
check_row email d none = ended true d
check_row email d (some r) =
    if email == r.email then ended true (return_conn d) else ended false (return_conn d)

abbrev check_email_on : ℕ → ℕ → Bool → Conn → Dao → Outcome Bool
check_email_on name email throws blocked d = waits
check_email_on name email throws null d = ended false d
check_email_on name email throws (conn d') d =
    if throws then ended false (return_conn d') else check_row email d' (first_by_name name d'.rows)

unfoldable pub check_email : ℕ → ℕ → Bool → Dao → Outcome Bool
unfolding get_conn return_conn first_by_name
check_email name email throws d = check_email_on name email throws (get_conn d) d

-- `UPDATE user SET pwd = ? WHERE name = ?`.
abbrev pub set_pwd : ℕ → ℕ → Row → Row
set_pwd name pwd r = if r.name == name then record r { pwd = pwd } else r

abbrev update_pwd_on : ℕ → ℕ → Bool → Conn → Dao → Outcome Bool
update_pwd_on name pwd throws blocked d = waits
update_pwd_on name pwd throws null d = ended false d
update_pwd_on name pwd throws (conn d') d =
    if throws
    then ended false (return_conn d')
    else ended true (return_conn (record d' { rows = map (set_pwd name pwd) d'.rows }))

pub update_pwd : ℕ → ℕ → Bool → Dao → Outcome Bool
unfolding get_conn return_conn
update_pwd name pwd throws d = update_pwd_on name pwd throws (get_conn d) d

-- Without a row the password is compared with the empty text, and reading the other fields throws.
abbrev pub user_of : ℕ → Option Row → Option Row
user_of pwd none = none
user_of pwd (some r) = if pwd == r.pwd then some r else none

abbrev check_pwd_on : ℕ → ℕ → Bool → Conn → Dao → Outcome (Option Row)
check_pwd_on email pwd throws blocked d = waits
check_pwd_on email pwd throws null d = ended none d
check_pwd_on email pwd throws (conn d') d =
    if throws
    then ended none (return_conn d')
    else ended (user_of pwd (first_by_email email d'.rows)) (return_conn d')

unfoldable pub check_pwd : ℕ → ℕ → Bool → Dao → Outcome (Option Row)
unfolding get_conn return_conn first_by_email
check_pwd email pwd throws d = check_pwd_on email pwd throws (get_conn d) d
