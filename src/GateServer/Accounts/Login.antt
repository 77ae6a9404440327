-- ===== src/GateServer/Accounts/Login.antt =====
-- From a reset to a login, and on to the chat server.
use learncc.Prelude.{
  ℕ, ◌<◌, Bool, true, false, List, map, Option, none, some, ◌≡◌, ◌≢◌, ◌∙◌, refl, sym, subst, ap,
  arith,
}
use learncc.StatusServer
use learncc.StatusServer.{ChatServer, Store, get_chatserver, get_chat_server}
use learncc.StatusServer.Login.{tokens-get_chat_server}
use learncc.ChatServer.Users.{Json, Database, get_base_info}
use learncc.ChatServer.Handlers
use learncc.ChatServer.Handlers.{Cluster, login_handler}
use learncc.ChatServer.Handlers.Login.{error_of, is_found, login_handler-success_iff}
use learncc.GateServer.Dao.{
  Row, Dao, Outcome, check_email, waits, ended, first_by_name, first_by_email, set_pwd, user_of,
  check_pwd,
}
use learncc.GateServer.Dao.Pool.{first_by_email-set_pwd, name-first_by_name, email-first_by_email}
use learncc.GateServer.Dao.Calls.{check_email-known, update_pwd-ends, check_pwd-ends}
use learncc.GateServer.Accounts.{
  err_pwd_invalid, Form, Codes, refused, granted, updated, email_checked, Ticket, served,
  pwd_checked, reset_pwd, user_login,
}
use learncc.GateServer.Accounts.Reset.{reset_pwd-code}

served-granted :
    (servers : List ChatServer) (fresh : ℕ) (u : Row) (store : Store) (t : Ticket) (later : Store)
    (o : Option (StatusServer.Reply × Store))
    → (get_chat_server servers u.uid fresh store ≡ o)
    → served u store o ≡ (granted t, later)
    → later.tokens t.uid ≡ some t.token
served-granted servers fresh u store t later none e h = absurd (ground arith)
served-granted servers fresh u store t later (some (reply, after)) e h =
    ground (arith, tokens-get_chat_server servers u.uid fresh store e)

pwd_checked-granted :
    (servers : List ChatServer) (fresh : ℕ) (store : Store) (o : Outcome (Option Row)) (d' : Dao)
    (t : Ticket) (later : Store)
    → pwd_checked servers fresh store o ≡ ended (granted t, later) d'
    → later.tokens t.uid ≡ some t.token
pwd_checked-granted servers fresh store waits d' t later h = absurd (ground arith)
pwd_checked-granted servers fresh store (ended none d) d' t later h = absurd (ground arith)
pwd_checked-granted servers fresh store (ended (some u) d) d' t later h =
    served-granted servers fresh u store t later (get_chat_server servers u.uid fresh store) refl
      (ground arith)

user_login-token :
    (servers : List ChatServer) (fresh : ℕ) (store : Store) (f : Form) (throws : Bool) (d d' : Dao)
    (t : Ticket) (later : Store)
    → user_login servers fresh store (some f) throws d ≡ ended (granted t, later) d'
    → later.tokens t.uid ≡ some t.token
unfolding user_login
user_login-token servers fresh store f throws d d' t later h =
    pwd_checked-granted servers fresh store (check_pwd f.email f.pwd throws d) d' t later h

-- A client whom the gate server grants a login is let in by every chat server that sees the tokens of
-- the status server, if that finds the user.
pub login_handler-user_login :
    (servers : List ChatServer) (fresh : ℕ) (store : Store) (f : Form) (throws : Bool) (d d' : Dao)
    (t : Ticket) (later : Store) (js : Json) (db : Database) (key : List ℕ) (self session : ℕ)
    (c : Cluster js)
    → user_login servers fresh store (some f) throws d ≡ ended (granted t, later) d'
    → c.tokens ≡ later.tokens
    → is_found (get_base_info js db key t.uid c.redis).0 ≡ true
    → error_of (login_handler js db key self session t.uid t.token c).0 ≡ Handlers.success
login_handler-user_login servers fresh store f throws d d' t later js db key self session c h same
      found =
    (login_handler-success_iff js db key self session t.uid t.token c).1
      (ap (λ g. g t.uid) same ∙ user_login-token servers fresh store f throws d d' t later h, found)

named_row : (n w : ℕ) (r : Row) → r.name ≡ n → set_pwd n w r ≡ record r { pwd = w }
named_row n w r e = ground arith

right_pwd : (w : ℕ) (r : Row) → w ≡ r.pwd → user_of w (some r) ≡ some r
right_pwd w r e = ground arith

wrong_pwd : (w : ℕ) (r : Row) → w ≢ r.pwd → user_of w (some r) ≡ none
wrong_pwd w r e = ground arith

user_login-row :
    (servers : List ChatServer) (fresh : ℕ) (store : Store) (g : Form) (d : Dao) (r : Row)
    → d.stopped ≡ false
    → 0 < d.idle
    → first_by_email g.email d.rows ≡ some r
    → (g.pwd ≡ r.pwd
        → user_login servers fresh store (some g) false d
          ≡ ended (served r store (get_chat_server servers r.uid fresh store)) d)
      × (g.pwd ≢ r.pwd
          → user_login servers fresh store (some g) false d
            ≡ ended (refused err_pwd_invalid, store) d)
unfolding user_login
user_login-row servers fresh store g d r going idle row =
    let known : user_login servers fresh store (some g) false d
        ≡ pwd_checked servers fresh store (ended (user_of g.pwd (some r)) d) =
      ap (pwd_checked servers fresh store)
        (check_pwd-ends d going g.email g.pwd idle ∙ ap (λ o. ended (user_of g.pwd o) d) row) in
    (
      (λ e. known ∙ ap (λ o. pwd_checked servers fresh store (ended o d)) (right_pwd g.pwd r e)),
      (λ e. known ∙ ap (λ o. pwd_checked servers fresh store (ended o d)) (wrong_pwd g.pwd r e)),
    )

-- A reset with the right code for the row that has both the name and the address, with a connection in
-- the pool: it is granted; and then a login with that address goes on with the user of the row if it
-- has the new password, and is refused if it has another one.
pub user_login-reset_pwd :
    (codes : Codes) (f g : Form) (d : Dao) (r : Row) (servers : List ChatServer) (fresh : ℕ)
    (store : Store)
    → codes f.email ≡ some f.verify_code
    → d.stopped ≡ false
    → 0 < d.idle
    → first_by_name f.user d.rows ≡ some r
    → first_by_email f.email d.rows ≡ some r
    → g.email ≡ f.email
    → let d' = record d { rows = map (set_pwd f.user f.pwd) d.rows } in
      (reset_pwd codes (some f) false false d ≡ ended (granted f) d')
      × (g.pwd ≡ f.pwd
          → user_login servers fresh store (some g) false d'
            ≡ ended
                (served
                  (record r { pwd = f.pwd })
                  store
                  (get_chat_server servers r.uid fresh store))
                d')
      × (g.pwd ≢ f.pwd
          → user_login servers fresh store (some g) false d'
            ≡ ended (refused err_pwd_invalid, store) d')
user_login-reset_pwd codes f g d r servers fresh store code going idle by_name by_email same =
    let d' = record d { rows = map (set_pwd f.user f.pwd) d.rows } in
    let checked : check_email f.user f.email false d ≡ ended true d =
      check_email-known d going f.user f.email r by_name
        (email-first_by_email f.email d.rows r by_email) idle in
    let named : set_pwd f.user f.pwd r ≡ record r { pwd = f.pwd } =
      named_row f.user f.pwd r (name-first_by_name f.user d.rows r by_name) in
    let row : first_by_email g.email d'.rows ≡ some (record r { pwd = f.pwd }) =
      subst (λ e. first_by_email e d'.rows ≡ some (record r { pwd = f.pwd })) (sym same)
        (first_by_email-set_pwd f.email f.user f.pwd d.rows r by_email ∙ ap some named) in
    let login = user_login-row servers fresh store g d' (record r { pwd = f.pwd }) going idle row in
    (
      reset_pwd-code codes f false false d code
          ∙ ap (email_checked f false) checked
          ∙ ap (updated f) (update_pwd-ends d going f.user f.pwd idle),
      login.0,
      login.1,
    )
