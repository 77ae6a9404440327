-- ===== src/ChatServer/Dao/Nested.antt =====
-- `get_friend_list` keeps its connection while `get_user` takes another one for each friend.
use learncc.Prelude.{
  ℕ, ◌<◌, ◌≡◌, ◌≢◌, ◌↔◌, refl, sym, ap, ◌∙◌, Bool, true, false, List, [], ◌∷◌, ◌++◌, Option, none,
  some, length, length-append, arith,
}
use learncc.ChatServer.Users.{UserInfo}
use learncc.ChatServer.Dao.{
  Sql, Conn, Dao, Outcome, waits, ended, change_all, found, listed, give_back, collect,
  get_friend_list,
}
use learncc.ChatServer.Dao.Adding.{going}

abbrev is_waiting : {sql : Sql} → {A : Type 0} → Outcome sql A → Bool
is_waiting waits = true
is_waiting (ended a d) = false

listed-ends :
    {sql : Sql} (u : Option UserInfo) (us : List UserInfo) (d : Dao sql)
    → (us' : List UserInfo) × (listed u (ended us d) ≡ ended us' d)
listed-ends none us d = (us, refl)
listed-ends (some u) us d = (_, refl)

-- A connection is enough for all friends.
collect-ends :
    (sql : Sql) (ids : List ℕ) (cs : List Conn) (t : sql.Tables)
    → 0 < length cs
    → (us : List UserInfo) × (cs' : List Conn) × (collect sql ids (going cs t)
        ≡ ended us (going cs' t))
unfolding collect
collect-ends sql [] cs t l = ([], cs, refl)
collect-ends sql (id ∷ ids) [] t l = absurd (omega (arith, l))
collect-ends sql (id ∷ ids) (c ∷ cs) t l =
    let next = cs ++ (c ∷ []) in
    let (us, cs', r) = collect-ends sql ids next t (omega (arith, length-append cs (c ∷ []))) in
    let u = found id (sql.user (change_all sql c.pending t) id) in
    let (us', e) = listed-ends u us (going {sql = sql} cs' t) in (us', cs', ap (listed u) r ∙ e)

-- Too few connections: none, or one and a friend.
abbrev pub Short : (sql : Sql) → ℕ → sql.Tables → List Conn → Type 0
Short sql id t [] = Unit
Short sql id t (c ∷ []) = sql.friends (change_all sql c.pending t) id ≢ []
Short sql id t (c ∷ (c' ∷ cs)) = ⊥

alone_iff :
    (sql : Sql) (ids : List ℕ) (c : Conn) (t : sql.Tables)
    → (give_back c (collect sql ids (going [] t)) ≡ waits) ↔ (ids ≢ [])
unfolding collect
alone_iff sql [] c t = ((λ e. absurd (ground (arith, ap is_waiting e))), (λ e. absurd (e refl)))
alone_iff sql (id ∷ ids) c t = ((λ e. ground arith), (λ e. refl))

-- With a pool that is not stopped, no error of MySQL, and no other thread that takes or gives back a
-- connection during the call: the list of friends is waited for without end exactly if no connection is
-- there, or one is and the user has a friend, so that the call keeps it and waits for a second one.
pub get_friend_list-waits_iff :
    (sql : Sql) (id : ℕ) (cs : List Conn) (t : sql.Tables)
    → (get_friend_list sql id false (going cs t) ≡ waits) ↔ Short sql id t cs
unfolding get_friend_list
get_friend_list-waits_iff sql id [] t = ((λ e. tt), (λ u. refl))
get_friend_list-waits_iff sql id (c ∷ []) t =
    alone_iff sql (sql.friends (change_all sql c.pending t) id) c t
get_friend_list-waits_iff sql id (c ∷ (c' ∷ cs)) t =
    let ids = sql.friends (change_all sql c.pending t) id in
    let (us, cs', r) = collect-ends sql ids (c' ∷ cs) t (omega arith) in
    ((λ e. absurd (ground (arith, ap is_waiting (sym (ap (give_back c) r) ∙ e)))), (λ e. absurd e))
