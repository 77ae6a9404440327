-- ===== src/ChatServer/Users/Cache.antt =====
-- What comes out of the cache of users.
use learncc.Prelude.{
  ℕ, ◌≡◌, refl, ap, ◌∙◌, true, List, [], ◌∷◌, none, some, ◌==◌, if◌then◌else◌, arith,
}
use learncc.ChatServer.Users.{
  UserInfo, Object, Json, Redis, Database, same_text, set_text, without_icon, read_object,
  read_with_icon, base_info, base_info_of_peer, get_base_info, get_base_info_of_peer,
}

same_text_refl : (t : List ℕ) → same_text t t ≡ true
unfolding same_text
same_text_refl [] = refl
same_text_refl (c ∷ cs) = let same : (c == c) ≡ true = ground arith in rw (same) (same_text_refl cs)

-- A user that is read from the database is kept in redis without the icon: the next time the same user
-- is read, by this server or by another one, the icon and the remark are empty.
pub get_base_info-again :
    (js : Json) (db : Database) (key : List ℕ) (uid : ℕ) (r : Redis js) (u : UserInfo)
    → r.base key ≡ none
    → db.user uid ≡ some u
    → let (first, r') = get_base_info js db key uid r in
      (first ≡ some u)
      × ((get_base_info js db key uid r').0 ≡ some (record u { uid = uid; icon = 0; back = 0 }))
      × ((get_base_info_of_peer js db key uid r').0
          ≡ some (record u { uid = uid; icon = 0; back = 0 }))
unfolding get_base_info get_base_info_of_peer
get_base_info-again js db key uid r u e f =
    let o : Object = record (without_icon u) { uid = uid } in
    let r' : Redis js = record r { base = set_text r.base key (js.print o) } in
    let first_run : get_base_info js db key uid r ≡ (some u, r') =
      ap (λ t. base_info js key uid r t (db.user uid)) e
      ∙ ap (λ x. base_info js key uid r none x) f in
    let stored : r'.base key ≡ some (js.print o) =
      ap (λ b. if b then some (js.print o) else r.base key) (same_text_refl key) in
    let again =
      ap (λ t. (base_info js key uid r' t (db.user uid)).0) stored
      ∙ ap (λ x. some (read_object x)) (js.parse-print o) in
    let elsewhere =
      ap (λ t. (base_info_of_peer js key uid r' t (db.user uid)).0) stored
      ∙ ap (λ x. some (read_with_icon x)) (js.parse-print o) in
    (
      ap (λ p. p.0) first_run,
      ap (λ p. (get_base_info js db key uid p.1).0) first_run ∙ again,
      ap (λ p. (get_base_info_of_peer js db key uid p.1).0) first_run ∙ elsewhere,
    )
