-- ===== src/ChatServer/Handlers/Login.antt =====
-- When a login succeeds, and what a second login and the end of a session do to it.
use learncc.Prelude.{
  false, Bool, ℕ, ◌≡◌, ◌≢◌, ◌↔◌, inl, inr, refl, ap, ◌∙◌, true, List, [], ◌∷◌, Option, none, some,
  ◌==◌, if◌then◌else◌, arith, Bool-cases,
}
use learncc.ChatServer.Users.{UserInfo, Json, Redis, Database, get_base_info}
use learncc.ChatServer.Handlers.{
  err_uid, Error, Cluster, success, err_token, Message, login_rsp, sends, text_chat_rsp, bind,
  enter, check_token, login_handler, clear_session, route, deal_chat_text_msg,
}

-- The error that the reply to a login names.
pub error_of : Message → Error
error_of (login_rsp e p) = e
error_of m = success

abbrev pub is_found : {A : Type 0} → Option A → Bool
is_found none = false
is_found (some a) = true

abbrev code : Error → ℕ
code success = 0
code err_uid = 1
code err_token = 2

enter_iff :
    {js : Json} (db : Database) (self session uid : ℕ) (c : Cluster js)
    (got : Option UserInfo × Redis js)
    → (error_of (enter db self session uid c got).0 ≡ success) ↔ (is_found got.0 ≡ true)
unfolding error_of
enter_iff db self session uid c (none, r) =
    ((λ e. absurd (ground (arith, ap code e))), (λ e. absurd (ground arith)))
enter_iff db self session uid c (some u, r) = ((λ e. refl), (λ e. refl))

check_token_iff :
    (js : Json) (db : Database) (key : List ℕ) (self session uid token : ℕ) (c : Cluster js)
    (o : Option ℕ)
    → (error_of (check_token js db key self session uid token c o).0 ≡ success)
      ↔ ((o ≡ some token) × (is_found (get_base_info js db key uid c.redis).0 ≡ true))
unfolding error_of
check_token_iff js db key self session uid token c none =
    ((λ e. absurd (ground (arith, ap code e))), (λ (e, f). absurd (ground arith)))
check_token_iff js db key self session uid token c (some t) = elim (Bool-cases (t == token)) [
  | inl same ↦
      let is_token : t ≡ token = ground arith in
      let (there, back) = enter_iff db self session uid c (get_base_info js db key uid c.redis) in
      rw (same) ((λ e. (ap some is_token, there e)), (λ (e, f). back f))
  | inr other ↦
      rw (other) ((λ e. absurd (ground (arith, ap code e))), (λ (e, f). absurd (ground arith)))
]

-- A login succeeds exactly if redis has this token for the user and the user is found, in redis or in
-- the database.
pub login_handler-success_iff :
    (js : Json) (db : Database) (key : List ℕ) (self session uid token : ℕ) (c : Cluster js)
    → (error_of (login_handler js db key self session uid token c).0 ≡ success)
      ↔ ((c.tokens uid ≡ some token) × (is_found (get_base_info js db key uid c.redis).0 ≡ true))
unfolding login_handler
login_handler-success_iff js db key self session uid token c =
    check_token_iff js db key self session uid token c (c.tokens uid)

enter-bind :
    {js : Json} (db : Database) (self session uid : ℕ) (c : Cluster js)
    (got : Option UserInfo × Redis js) (u : UserInfo)
    → got.0 ≡ some u
    → (enter db self session uid c got).1 ≡ bind self session uid (record c { redis = got.1 })
enter-bind db self session uid c (none, r) u e = absurd (ground arith)
enter-bind db self session uid c (some v, r) u e = refl

login_handler-bind :
    (js : Json) (db : Database) (key : List ℕ) (self session uid token : ℕ) (c : Cluster js)
    (u : UserInfo)
    → c.tokens uid ≡ some token
    → (get_base_info js db key uid c.redis).0 ≡ some u
    → (login_handler js db key self session uid token c).1
      ≡ bind self session uid (record c { redis = (get_base_info js db key uid c.redis).1 })
unfolding login_handler
login_handler-bind js db key self session uid token c u e f =
    let same : (token == token) ≡ true = ground arith in
    ap (λ o. (check_token js db key self session uid token c o).1) e
    ∙ ap
        (λ b.
          (if b
            then enter db self session uid c (get_base_info js db key uid c.redis)
            else (login_rsp err_token none, c)).1)
        same
    ∙ enter-bind db self session uid c (get_base_info js db key uid c.redis) u f

module _ {js : Json} (self s1 s2 uid : ℕ) (c : Cluster js) (d : s1 ≢ s2)
    (k : c.known self s1 ≡ true) (i : c.user_id self s1 ≡ uid) where
  abbrev after : Cluster js
  after = clear_session self s1 (bind self s2 uid c)

  after-user_id : (bind self s2 uid c).user_id self s1 ≡ uid
  after-user_id = ground (arith, i)

  after-known : after.known self s2 ≡ c.known self s2
  unfolding clear_session
  after-known = rw (k) (ground arith)

  after-ips : after.ips uid ≡ some self
  unfolding clear_session
  after-ips = rw (k) (ground arith)

  after-users : after.users self uid ≡ none
  unfolding clear_session
  after-users = rw (k, after-user_id) (ground arith)

no_session :
    {js : Json} (self s from uid : ℕ) (texts : List (ℕ × ℕ)) (c : Cluster js)
    → c.ips uid ≡ some self
    → c.users self uid ≡ none
    → deal_chat_text_msg self s from uid texts c ≡ sends s (text_chat_rsp from uid texts) ∷ []
unfolding deal_chat_text_msg route
no_session self s from uid texts c e f =
    let same : (self == self) ≡ true = ground arith in rw (e, same, f) refl

-- A user whose base information is found is logged in in one session, logs in in another one of the
-- same server, and then the first one ends. Then the second one is as open as before, redis says that
-- the user is at this server, and the server has no session for the user: a text message that a session
-- of this server sends to the user right then has no effect but the reply to its sender.
pub clear_session-other :
    (js : Json) (db : Database) (key : List ℕ) (self s1 s2 s uid token from : ℕ)
    (texts : List (ℕ × ℕ)) (c : Cluster js) (u : UserInfo)
    → s1 ≢ s2
    → c.known self s1 ≡ true
    → c.user_id self s1 ≡ uid
    → c.tokens uid ≡ some token
    → (get_base_info js db key uid c.redis).0 ≡ some u
    → let c' = clear_session self s1 (login_handler js db key self s2 uid token c).1 in
      (c'.known self s2 ≡ c.known self s2)
      × (c'.ips uid ≡ some self)
      × (c'.users self uid ≡ none)
      × (deal_chat_text_msg self s from uid texts c' ≡ sends s (text_chat_rsp from uid texts) ∷ [])
clear_session-other js db key self s1 s2 s uid token from texts c u d k i t f =
    let c0 = record c { redis = (get_base_info js db key uid c.redis).1 } in
    let bound = login_handler-bind js db key self s2 uid token c u t f in
    rw (bound) (
      after-known self s1 s2 uid c0 d k i,
      after-ips self s1 s2 uid c0 d k i,
      after-users self s1 s2 uid c0 d k i,
      no_session self s from uid texts (after self s1 s2 uid c0 d k i)
          (after-ips self s1 s2 uid c0 d k i) (after-users self s1 s2 uid c0 d k i),
    )
