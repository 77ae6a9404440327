-- ===== src/ChatServer/Dao/Adding.antt =====
-- `add_friend` commits both rows or none.
use learncc.Prelude.{
  ℕ, ◌<◌, ◌≡◌, refl, ap, ◌∙◌, Bool, true, false, List, [], ◌∷◌, ◌++◌, Every, Every-append, length,
  length-append, map, arith,
}
use learncc.ChatServer.Dao.{
  Sql, Change, befriend, Conn, Dao, Outcome, waits, ended, Ending, done, negative, throws,
  change_all, add_friend,
}

abbrev pub going : {sql : Sql} → List Conn → sql.Tables → Dao sql
going cs t = record { idle = cs; stopped = false; tables = t }

abbrev pub off : Conn
off = record { autocommit = false; pending = [] }

-- Autocommit is switched off, and both insertions and the commit are done.
abbrev pub succeeds : Bool → Ending → Ending → Bool → Bool
succeeds false done done false = true
succeeds refused first second fails = false

-- Both rows, after what the connection held back.
abbrev pub both : ℕ → ℕ → ℕ → Conn → List Change
both from to back c = (c.pending ++ (befriend from to back ∷ [])) ++ (befriend to from 0 ∷ [])

abbrev pub kept : (sql : Sql) → Bool → List Change → sql.Tables → sql.Tables
kept sql true xs t = change_all sql xs t
kept sql false xs t = t

-- How the connection goes back.
abbrev pub left_with : Bool → Conn → Conn
left_with true c = record c { pending = [] }
left_with false c = off

pub add_friend_lem :
    (sql : Sql) (from to back : ℕ) (refused : Bool) (first second : Ending) (fails : Bool)
    (c : Conn) (cs : List Conn) (t : sql.Tables)
    → let b = succeeds refused first second fails in
      add_friend sql from to back refused first second fails (going (c ∷ cs) t)
      ≡ ended b (going (cs ++ (left_with refused c ∷ [])) (kept sql b (both from to back c) t))
unfolding add_friend
add_friend_lem sql from to back true first second fails c cs t = refl
add_friend_lem sql from to back false done done false c cs t = refl
add_friend_lem sql from to back false done done true c cs t = refl
add_friend_lem sql from to back false done negative fails c cs t = refl
add_friend_lem sql from to back false done throws fails c cs t = refl
add_friend_lem sql from to back false negative second fails c cs t = refl
add_friend_lem sql from to back false throws second fails c cs t = refl

pub data Adding : Type 0 where
  adds : ℕ → ℕ → ℕ → Bool → Ending → Ending → Bool → Adding

abbrev pub add : (sql : Sql) → Adding → Dao sql → Outcome sql Bool
add sql (adds from to back refused first second fails) d =
    add_friend sql from to back refused first second fails d

abbrev pub is_added : Adding → Bool
is_added (adds from to back refused first second fails) = succeeds refused first second fails

abbrev pub with_rest : {sql : Sql} → Bool → Outcome sql (List Bool) → Outcome sql (List Bool)
with_rest b waits = waits
with_rest b (ended bs d) = ended (b ∷ bs) d

abbrev pub then_all :
    {sql : Sql} → (Dao sql → Outcome sql (List Bool)) → Outcome sql Bool → Outcome sql (List Bool)
then_all k waits = waits
then_all k (ended b d) = with_rest b (k d)

-- One call after another, with their answers.
unfoldable pub run {ℓ} :
    {A : Type ℓ} (sql : Sql)
    → (A → Dao sql → Outcome sql Bool)
    → List A
    → Dao sql
    → Outcome sql (List Bool)
run sql f [] d = ended [] d
run sql f (x ∷ xs) d = then_all (run sql f xs) (f x d)

abbrev rows_if : Bool → ℕ → ℕ → ℕ → List Change → List Change
rows_if true from to back rest = befriend from to back ∷ (befriend to from 0 ∷ rest)
rows_if false from to back rest = rest

-- Both rows of each call that succeeds, in their order.
abbrev pub rows : List Adding → List Change
rows [] = []
rows (adds from to back refused first second fails ∷ xs) =
    rows_if (succeeds refused first second fails) from to back (rows xs)

abbrev pub IsClean : Conn → Type 0
IsClean c = c.pending ≡ []

left_with-IsClean : (refused : Bool) (c : Conn) → IsClean (left_with refused c)
left_with-IsClean true c = refl
left_with-IsClean false c = refl

kept-rows :
    (sql : Sql) (b : Bool) (from to back : ℕ) (c : Conn) (rest : List Change) (t : sql.Tables)
    → IsClean c
    → change_all sql rest (kept sql b (both from to back c) t)
      ≡ change_all sql (rows_if b from to back rest) t
kept-rows sql true from to back c rest t clean =
    ap
      (λ p.
        change_all sql rest
          (change_all sql ((p ++ (befriend from to back ∷ [])) ++ (befriend to from 0 ∷ [])) t))
      clean
kept-rows sql false from to back c rest t clean = refl

-- Any number of calls of `add_friend`, one after another, over a pool whose connections hold nothing back
-- and are there: every call ends, and reports success exactly if none of its steps failed. In the
-- end the tables have both rows of each call that reports success, and nothing of the other ones; the
-- connections hold nothing back.
pub run-all_or_nothing :
    (sql : Sql) (adding : List Adding) (cs : List Conn) (t : sql.Tables)
    → 0 < length cs
    → Every IsClean cs
    → (cs' : List Conn) × (run sql (add sql) adding (going cs t)
        ≡ ended (map is_added adding) (going cs' (change_all sql (rows adding) t)))
      × Every IsClean cs'
unfolding run
run-all_or_nothing sql [] cs t l o = (cs, refl, o)
run-all_or_nothing sql (x ∷ xs) [] t l o = absurd (omega (arith, l))
run-all_or_nothing sql (adds from to back refused first second fails ∷ xs) (c ∷ cs) t l (o, os) =
    let b = succeeds refused first second fails in
    let given = left_with refused c in
    let t1 = kept sql b (both from to back c) t in
    let (cs', r, o') =
      run-all_or_nothing sql xs (cs ++ (given ∷ [])) t1
        (omega (arith, length-append cs (given ∷ [])))
        (Every-append IsClean cs (given ∷ []) os (left_with-IsClean refused c, tt)) in
    (
      cs',
      ap (then_all (run sql (add sql) xs))
            (add_friend_lem sql from to back refused first second fails c cs t)
          ∙ ap (with_rest b) r
          ∙ ap (λ u. ended (b ∷ map is_added xs) (going cs' u))
              (kept-rows sql b from to back c (rows xs) t o),
      o',
    )
