-- ===== src/GateServer/Dao/Calls.antt =====
-- What the calls of src/gateserver/mysql_dao.cc do with a pool that is in use, or empty.
use learncc.Prelude.{ℕ, ◌-◌, ◌<◌, true, false, map, none, some, ◌≡◌, arith}
use learncc.GateServer.Dao.{
  Row, Dao, waits, ended, get_conn, return_conn, first_by_name, first_by_email, check_email,
  set_pwd, update_pwd, user_of, check_pwd,
}

module _ (d : Dao) (going : d.stopped ≡ false) where
  pub check_email-unknown :
      (n e : ℕ)
      → first_by_name n d.rows ≡ none
      → 0 < d.idle
      → check_email n e false d ≡ ended true (record d { idle = d.idle - 1 })
  unfolding check_email get_conn
  check_email-unknown n e unknown h = ground arith

  pub check_email-known :
      (n e : ℕ) (r : Row)
      → first_by_name n d.rows ≡ some r
      → r.email ≡ e
      → 0 < d.idle
      → check_email n e false d ≡ ended true d
  unfolding check_email get_conn return_conn
  check_email-known n e r known same h = ground arith

  pub check_email-waits : (n e : ℕ) → d.idle ≡ 0 → check_email n e false d ≡ waits
  unfolding check_email get_conn
  check_email-waits n e h = ground arith

  pub update_pwd-waits : (n w : ℕ) → d.idle ≡ 0 → update_pwd n w false d ≡ waits
  unfolding update_pwd get_conn
  update_pwd-waits n w h = ground arith

  pub update_pwd-ends :
      (n w : ℕ)
      → 0 < d.idle
      → update_pwd n w false d ≡ ended true (record d { rows = map (set_pwd n w) d.rows })
  unfolding update_pwd get_conn return_conn
  update_pwd-ends n w h = ground arith

  pub check_pwd-ends :
      (e w : ℕ) → 0 < d.idle → check_pwd e w false d ≡ ended (user_of w (first_by_email e d.rows)) d
  unfolding check_pwd get_conn return_conn
  check_pwd-ends e w h = ground arith
