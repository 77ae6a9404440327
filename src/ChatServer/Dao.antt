-- ===== src/ChatServer/Dao.antt =====
-- src/chat_server/mysql_dao.cc: the calls on friends and users, with the pool of connections of
-- inc/chat_server/mysql_dao.h. A connection holds back what it changes while its autocommit is off. What
-- a statement does to the tables is an argument, and so is whether MySQL throws; a rollback does not. The
-- snapshot that an open transaction reads is left out: it reads the tables and its own changes.
mod Tests
pub mod Adding
pub mod Commit
pub mod Nested
use learncc.Prelude.{ℕ, Bool, true, false, List, [], ◌∷◌, ◌++◌, Option, none, some, if◌then◌else◌}
use learncc.ChatServer.Users.{UserInfo, ApplyInfo}

-- The statements that change something.
pub data Change : Type 0 where
  befriend : ℕ → ℕ → ℕ → Change
  apply_for : ℕ → ℕ → Change
  accept : ℕ → ℕ → Change

pub record Sql : Type 1 where
  pub Tables : Type 0
  pub change : Change → Tables → Tables
  pub user : Tables → ℕ → Option UserInfo
  pub user_by_name : Tables → ℕ → Option UserInfo
  pub friends : Tables → ℕ → List ℕ
  pub applies : Tables → ℕ → ℕ → ℕ → List ApplyInfo

-- `sql_connection`, with the changes that are not committed.
pub record Conn : Type 0 where
  pub autocommit : Bool
  pub pending : List Change

pub record Dao (sql : Sql) : Type 0 where
  pub idle : List Conn
  pub stopped : Bool
  pub tables : sql.Tables

pub data Outcome (sql : Sql) (A : Type 0) : Type 0 where
  waits : Outcome sql A
  ended : A → Dao sql → Outcome sql A

pub data Taken (sql : Sql) : Type 0 where
  blocked : Taken sql
  null : Taken sql
  conn : Conn → Dao sql → Taken sql

-- How a statement that changes something ends.
pub data Ending : Type 0 where
  done : Ending
  negative : Ending
  throws : Ending

abbrev first_conn : {sql : Sql} → List Conn → Dao sql → Taken sql
first_conn [] d = blocked
first_conn (c ∷ cs) d = conn c (record d { idle = cs })

abbrev pub get_conn : {sql : Sql} → Dao sql → Taken sql
get_conn d = if d.stopped then null else first_conn d.idle d

abbrev pub return_conn : {sql : Sql} → Conn → Dao sql → Dao sql
return_conn c d = if d.stopped then d else record d { idle = d.idle ++ (c ∷ []) }

abbrev pub change_all : (sql : Sql) → List Change → sql.Tables → sql.Tables
change_all sql [] t = t
change_all sql (x ∷ xs) t = change_all sql xs (sql.change x t)

-- What a connection reads: its own changes too.
abbrev pub seen : {sql : Sql} → Conn → Dao sql → sql.Tables
seen {sql} c d = change_all sql c.pending d.tables

-- A statement on a connection, which is given back.
abbrev pub changed : {sql : Sql} → Bool → Change → Conn → Dao sql → Outcome sql Bool
changed {sql} true x c d = ended true (return_conn c (record d { tables = sql.change x d.tables }))
changed {sql} false x c d =
    ended true (return_conn (record c { pending = c.pending ++ (x ∷ []) }) d)

abbrev one_change : {sql : Sql} → Change → Ending → Taken sql → Dao sql → Outcome sql Bool
one_change x e blocked d = waits
one_change x e null d = ended false d
one_change x done (conn c d') d = changed c.autocommit x c d'
one_change x negative (conn c d') d = ended false (return_conn c d')
one_change x throws (conn c d') d = ended false (return_conn c d')

-- The applicant is the other one, who applied.
pub auth_friend_apply : (sql : Sql) → ℕ → ℕ → Ending → Dao sql → Outcome sql Bool
auth_friend_apply sql from to e d = one_change (accept to from) e (get_conn d) d

pub add_friend_apply : (sql : Sql) → ℕ → ℕ → Ending → Dao sql → Outcome sql Bool
add_friend_apply sql from to e d = one_change (apply_for from to) e (get_conn d) d

-- The transaction; autocommit stays off. `refused` is whether the change of autocommit throws, `first` and
-- `second` are how the two insertions end, and the last argument is whether the commit throws.
abbrev rolled_back : {sql : Sql} → Conn → Dao sql → Outcome sql Bool
rolled_back c d = ended false (return_conn (record c { pending = [] }) d)

abbrev hold : Change → Conn → Conn
hold x c = record c { pending = c.pending ++ (x ∷ []) }

abbrev committed : {sql : Sql} → Bool → Conn → Dao sql → Outcome sql Bool
committed true c d = rolled_back c d
committed {sql} false c d = ended true (
    return_conn (record c { pending = [] })
      (record d { tables = change_all sql c.pending d.tables }))

abbrev second_insert : {sql : Sql} → ℕ → ℕ → Ending → Bool → Conn → Dao sql → Outcome sql Bool
second_insert from to done fails c d = committed fails (hold (befriend to from 0) c) d
second_insert from to negative fails c d = rolled_back c d
second_insert from to throws fails c d = rolled_back c d

abbrev first_insert :
    {sql : Sql} → ℕ → ℕ → ℕ → Ending → Ending → Bool → Conn → Dao sql → Outcome sql Bool
first_insert from to back done second fails c d =
    second_insert from to second fails (hold (befriend from to back) c) d
first_insert from to back negative second fails c d = rolled_back c d
first_insert from to back throws second fails c d = rolled_back c d

abbrev add_friend_on :
    {sql : Sql} → ℕ → ℕ → ℕ → Bool → Ending → Ending → Bool → Taken sql → Dao sql → Outcome sql Bool
add_friend_on from to back refused first second fails blocked d = waits
add_friend_on from to back refused first second fails null d = ended false d
add_friend_on from to back true first second fails (conn c d') d = rolled_back c d'
add_friend_on from to back false first second fails (conn c d') d =
    first_insert from to back first second fails (record c { autocommit = false }) d'

pub add_friend :
    (sql : Sql) → ℕ → ℕ → ℕ → Bool → Ending → Ending → Bool → Dao sql → Outcome sql Bool
add_friend sql from to back refused first second fails d =
    add_friend_on from to back refused first second fails (get_conn d) d

-- By identifier only these fields are read; the other ones are as `user_info` makes them.
abbrev read_user : ℕ → UserInfo → UserInfo
read_user uid u = record {
  uid = uid;
  pwd = u.pwd;
  name = u.name;
  email = u.email;
  nick = 0;
  desc = 0;
  sex = 0;
  icon = 0;
  back = 0;
}

abbrev found : ℕ → Option UserInfo → Option UserInfo
found uid none = none
found uid (some u) = some (read_user uid u)

abbrev get_user_on : {sql : Sql} → ℕ → Bool → Taken sql → Dao sql → Outcome sql (Option UserInfo)
get_user_on uid fails blocked d = waits
get_user_on uid fails null d = ended none d
get_user_on uid true (conn c d') d = ended none (return_conn c d')
get_user_on {sql} uid false (conn c d') d =
    ended (found uid (sql.user (seen c d') uid)) (return_conn c d')

pub get_user : (sql : Sql) → ℕ → Bool → Dao sql → Outcome sql (Option UserInfo)
get_user sql uid fails d = get_user_on uid fails (get_conn d) d

abbrev get_apply_list_on :
    {sql : Sql} → ℕ → ℕ → ℕ → Bool → Taken sql → Dao sql → Outcome sql (Option (List ApplyInfo))
get_apply_list_on touid begin limit fails blocked d = waits
get_apply_list_on touid begin limit fails null d = ended none d
get_apply_list_on touid begin limit true (conn c d') d = ended none (return_conn c d')
get_apply_list_on {sql} touid begin limit false (conn c d') d =
    ended (some (sql.applies (seen c d') touid begin limit)) (return_conn c d')

pub get_apply_list :
    (sql : Sql) → ℕ → ℕ → ℕ → Bool → Dao sql → Outcome sql (Option (List ApplyInfo))
get_apply_list sql touid begin limit fails d =
    get_apply_list_on touid begin limit fails (get_conn d) d

-- A friend is listed with its name as the remark.
abbrev listed :
    {sql : Sql} → Option UserInfo → Outcome sql (List UserInfo) → Outcome sql (List UserInfo)
listed u waits = waits
listed none (ended us d) = ended us d
listed (some u) (ended us d) = ended (record u { back = u.name } ∷ us) d

abbrev collect_then :
    {sql : Sql}
    → (Dao sql → Outcome sql (List UserInfo))
    → Outcome sql (Option UserInfo)
    → Outcome sql (List UserInfo)
collect_then k waits = waits
collect_then k (ended u d) = listed u (k d)

-- The users of the rows, each by a call of `get_user` with a connection of its own.
pub collect : (sql : Sql) → List ℕ → Dao sql → Outcome sql (List UserInfo)
unfolding get_user
collect sql [] d = ended [] d
collect sql (id ∷ ids) d = collect_then (collect sql ids) (get_user sql id false d)

abbrev give_back :
    {sql : Sql} → Conn → Outcome sql (List UserInfo) → Outcome sql (Option (List UserInfo))
give_back c waits = waits
give_back c (ended us d) = ended (some us) (return_conn c d)

abbrev get_friend_list_on :
    {sql : Sql} → ℕ → Bool → Taken sql → Dao sql → Outcome sql (Option (List UserInfo))
get_friend_list_on self_id fails blocked d = waits
get_friend_list_on self_id fails null d = ended none d
get_friend_list_on self_id true (conn c d') d = ended none (return_conn c d')
get_friend_list_on {sql} self_id false (conn c d') d =
    give_back c (collect sql (sql.friends (seen c d') self_id) d')

pub get_friend_list : (sql : Sql) → ℕ → Bool → Dao sql → Outcome sql (Option (List UserInfo))
unfolding collect
get_friend_list sql self_id fails d = get_friend_list_on self_id fails (get_conn d) d
