-- ===== src/GateServer/Dao/Pool.antt =====
-- The connections across the calls of src/gateserver/mysql_dao.cc, and what a call leaves of the table.
use learncc.Prelude.{
  ℕ, Bool, true, false, List, [], ◌∷◌, map, Option, none, some, ◌==◌, ◌≡◌, ◌↔◌, ◌⊎◌, refl, ap, sym,
  ◌∙◌, ◌≢◌, arith,
}
use mathlib.Core.Option
use learncc.GateServer.Dao.{
  Row, Dao, ended, Procedure, get_conn, return_conn, reg_user, first_by_name, first_by_email,
  check_email, set_pwd, update_pwd, check_pwd,
}

module _ (n e w : ℕ) (d d' : Dao) where
  idle-reg_user :
      (p : Procedure) (throws : Bool) {r : Option ℕ}
      → reg_user p n e w throws d ≡ ended r d'
      → d'.idle ≡ d.idle
  unfolding reg_user get_conn return_conn
  idle-reg_user p throws h = ground arith

  idle-update_pwd : (throws b : Bool) → update_pwd n w throws d ≡ ended b d' → d'.idle ≡ d.idle
  unfolding update_pwd get_conn return_conn
  idle-update_pwd throws b h = ground arith

  idle-check_pwd :
      (throws : Bool) {r : Option Row} → check_pwd e w throws d ≡ ended r d' → d'.idle ≡ d.idle
  unfolding check_pwd get_conn return_conn
  idle-check_pwd throws h = ground arith

  idle-check_email_iff :
      (throws b : Bool)
      → check_email n e throws d ≡ ended b d'
      → (d'.idle ≡ d.idle ↔ (
          (d.stopped ≡ true) ⊎ ((throws ≡ true) ⊎ ((r : Row) × (first_by_name n d.rows ≡ some r)))))
  unfolding check_email get_conn return_conn
  idle-check_email_iff throws b h = ground arith

-- `reg_user`, `update_pwd` and `check_pwd` that end leave as many connections in the pool as there were;
-- `check_email` does so exactly if the pool is stopped, MySQL throws, or a row has the name.
pub idle-calls :
    (n e w : ℕ) (d d' : Dao) (p : Procedure) (throws b : Bool) (result : Option ℕ) (u : Option Row)
    → (reg_user p n e w throws d ≡ ended result d' → d'.idle ≡ d.idle)
      × (update_pwd n w throws d ≡ ended b d' → d'.idle ≡ d.idle)
      × (check_pwd e w throws d ≡ ended u d' → d'.idle ≡ d.idle)
      × (check_email n e throws d ≡ ended b d'
          → (d'.idle ≡ d.idle ↔ (
              (d.stopped ≡ true)
              ⊎ ((throws ≡ true) ⊎ ((r : Row) × (first_by_name n d.rows ≡ some r))))))
idle-calls n e w d d' p throws b result u = (
  idle-reg_user n e w d d' p throws,
  idle-update_pwd n e w d d' throws b,
  idle-check_pwd n e w d d' throws,
  idle-check_email_iff n e w d d' throws b,
)

nothing : (e : ℕ) (r : Row) → first_by_email e [] ≢ some r
unfolding first_by_email
nothing e r h = ground arith

email-set_pwd : (n w : ℕ) (x : Row) → (set_pwd n w x).email ≡ x.email
email-set_pwd n w x = ground arith

-- One row of the search, in front of what the rest gives.
abbrev first : Bool → Row → Option Row → Option Row
first true x later = some x
first false x later = later

first_by_email-cons :
    (e : ℕ) (x : Row) (rs : List Row)
    → first_by_email e (x ∷ rs) ≡ first (x.email == e) x (first_by_email e rs)
unfolding first_by_email
first_by_email-cons e x rs = ground arith

first-set_pwd :
    (n w : ℕ) (b : Bool) (x r : Row) (later later' : Option Row)
    → first b x later ≡ some r
    → (later ≡ some r → later' ≡ some (set_pwd n w r))
    → first b (set_pwd n w x) later' ≡ some (set_pwd n w r)
first-set_pwd n w true x r later later' h k = ap (Option.map (set_pwd n w)) h
first-set_pwd n w false x r later later' h k = k h

-- The row with an address stays the row with that address when a password is changed.
pub first_by_email-set_pwd :
    (e n w : ℕ) (rs : List Row) (r : Row)
    → first_by_email e rs ≡ some r
    → first_by_email e (map (set_pwd n w) rs) ≡ some (set_pwd n w r)
first_by_email-set_pwd e n w [] r h = absurd (nothing e r h)
first_by_email-set_pwd e n w (x ∷ rs) r h =
    rw (first_by_email-cons, email-set_pwd)
      (first-set_pwd n w (x.email == e) x r (first_by_email e rs)
        (first_by_email e (map (set_pwd n w) rs)) (sym (first_by_email-cons e x rs) ∙ h)
        (first_by_email-set_pwd e n w rs r))

pub first_by_email→by_name :
    (e : ℕ) (rs : List Row) (r : Row)
    → first_by_email e rs ≡ some r
    → first_by_name r.name rs ≢ none
unfolding first_by_email first_by_name
first_by_email→by_name e [] r h k = ground arith
first_by_email→by_name e (x ∷ rs) r h k = ground (arith, first_by_email→by_name e rs r)

pub set_pwd-unknown :
    (n w : ℕ) (rs : List Row) → first_by_name n rs ≡ none → map (set_pwd n w) rs ≡ rs
unfolding first_by_name
set_pwd-unknown n w [] h = refl
set_pwd-unknown n w (x ∷ rs) h = ground (arith, set_pwd-unknown n w rs)

pub name-first_by_name :
    (n : ℕ) (rs : List Row) (r : Row) → first_by_name n rs ≡ some r → r.name ≡ n
unfolding first_by_name
name-first_by_name n [] r h = ground arith
name-first_by_name n (x ∷ rs) r h = ground (arith, name-first_by_name n rs r)

pub email-first_by_email :
    (e : ℕ) (rs : List Row) (r : Row) → first_by_email e rs ≡ some r → r.email ≡ e
unfolding first_by_email
email-first_by_email e [] r h = ground arith
email-first_by_email e (x ∷ rs) r h = ground (arith, email-first_by_email e rs r)
