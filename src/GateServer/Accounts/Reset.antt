-- ===== src/GateServer/Accounts/Reset.antt =====
-- What a reset of a password does to the table and to the pool of connections.
use learncc.Prelude.{
  ℕ, zero, suc, ◌+◌, ◌-◌, ◌≤◌, ◌<◌, Bool, true, false, none, some, ◌==◌, ◌≡◌, ◌∙◌, refl, ap, dec_lt,
  arith,
}
use learncc.GateServer.Dao.{Dao, Outcome, waits, ended, first_by_name, check_email, update_pwd}
use learncc.GateServer.Dao.Pool.{set_pwd-unknown}
use learncc.GateServer.Dao.Calls.{
  check_email-unknown, check_email-waits, update_pwd-waits, update_pwd-ends,
}
use learncc.GateServer.Accounts.{Form, Codes, Reply, granted, updated, email_checked, reset_pwd}

-- A request with the code that redis has is the two calls of the database.
pub reset_pwd-code :
    (codes : Codes) (f : Form) (throws throws' : Bool) (d : Dao)
    → codes f.email ≡ some f.verify_code
    → reset_pwd codes (some f) throws throws' d
      ≡ email_checked f throws' (check_email f.user f.email throws d)
unfolding reset_pwd
reset_pwd-code codes f throws throws' d h =
    let same : (f.verify_code == f.verify_code) ≡ true = ground arith in rw (h, same) refl

unknown_once :
    (codes : Codes) (f : Form) (d : Dao)
    → codes f.email ≡ some f.verify_code
    → d.stopped ≡ false
    → first_by_name f.user d.rows ≡ none
    → 0 < d.idle
    → reset_pwd codes (some f) false false d
      ≡ updated f (update_pwd f.user f.pwd false (record d { idle = d.idle - 1 }))
unknown_once codes f d h going unknown more =
    reset_pwd-code codes f false false d h
    ∙ ap (email_checked f false) (check_email-unknown d going f.user f.email unknown more)

-- A reset with the right code for a name that no row has is granted and changes no row, and the pool
-- has one connection less; with a single connection it waits.
pub reset_pwd-unknown :
    (codes : Codes) (f : Form) (d : Dao)
    → codes f.email ≡ some f.verify_code
    → d.stopped ≡ false
    → first_by_name f.user d.rows ≡ none
    → (1 < d.idle
        → reset_pwd codes (some f) false false d
          ≡ ended (granted f) (record d { idle = d.idle - 1 }))
      × (d.idle ≤ 1 → reset_pwd codes (some f) false false d ≡ waits)
reset_pwd-unknown codes f d h going unknown =
    let less = record d { idle = d.idle - 1 } in
    (
      (λ more.
          unknown_once codes f d h going unknown (omega arith)
          ∙ ap (updated f) (update_pwd-ends less going f.user f.pwd (omega arith))
          ∙ ap (λ rs. ended (granted f) (record less { rows = rs }))
              (set_pwd-unknown f.user f.pwd d.rows unknown)),
      (λ few. elim (dec_lt 0 d.idle) [
        | yes one ↦
            unknown_once codes f d h going unknown one
            ∙ ap (updated f) (update_pwd-waits less going f.user f.pwd (omega arith))
        | no none_left ↦
            reset_pwd-code codes f false false d h
            ∙ ap (email_checked f false) (check_email-waits d going f.user f.email (omega arith))
      ]),
    )

abbrev next : {A : Type 0} → (Dao → Outcome A) → Outcome A → Outcome A
next k waits = waits
next k (ended a d) = k d

-- The same reset once more than `n` times, one after another.
pub resets : ℕ → Codes → Form → Dao → Outcome (Reply Form)
resets zero codes f d = reset_pwd codes (some f) false false d
resets (suc n) codes f d = next (resets n codes f) (reset_pwd codes (some f) false false d)

-- As many resets with a right code and an unknown name as there are connections, one after another, end
-- with one that waits.
pub resets-waits :
    (n : ℕ) (codes : Codes) (f : Form) (d : Dao)
    → codes f.email ≡ some f.verify_code
    → d.stopped ≡ false
    → first_by_name f.user d.rows ≡ none
    → d.idle ≡ n + 1
    → resets n codes f d ≡ waits
unfolding resets
resets-waits zero codes f d h going unknown i =
    (reset_pwd-unknown codes f d h going unknown).1 (omega arith)
resets-waits (suc n) codes f d h going unknown i =
    ap (next (resets n codes f)) ((reset_pwd-unknown codes f d h going unknown).0 (omega arith))
    ∙ resets-waits n codes f (record d { idle = d.idle - 1 }) h going unknown (omega arith)
