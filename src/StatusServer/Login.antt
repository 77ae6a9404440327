-- ===== src/StatusServer/Login.antt =====
-- Who may log in.
use learncc.Prelude.{ℕ, ◌≡◌, ◌↔◌, inl, inr, List, none, some, arith, Option-cases}
use learncc.StatusServer.{
  ChatServer, Store, Reply, get_chatserver, get_chat_server, insert_token, get, success, err_uid,
  login,
}

-- A login succeeds exactly if no token is stored for the user and the client sends the empty token.
pub login-success_iff :
    (store : Store) (uid token : ℕ)
    → (login store uid token ≡ success) ↔ ((store.tokens uid ≡ none) × (token ≡ 0))
unfolding login get
login-success_iff store uid token = ground arith

-- Whoever was given a token is refused, with the token as without it.
pub login-get_chat_server :
    (servers : List ChatServer) (uid fresh token : ℕ) (store : Store) {reply : Reply}
    {later : Store}
    → get_chat_server servers uid fresh store ≡ some (reply, later)
    → login later uid token ≡ err_uid
unfolding get_chat_server insert_token login get
login-get_chat_server servers uid fresh token store e =
    elim (Option-cases (get_chatserver store servers)) [
      | inl none_there ↦ absurd (ground arith)
      | inr (s, found) ↦ ground arith
    ]

pub tokens-get_chat_server :
    (servers : List ChatServer) (uid fresh : ℕ) (store : Store) {reply : Reply} {later : Store}
    → get_chat_server servers uid fresh store ≡ some (reply, later)
    → later.tokens uid ≡ some reply.token
unfolding get_chat_server insert_token
tokens-get_chat_server servers uid fresh store e =
    elim (Option-cases (get_chatserver store servers)) [
      | inl none_there ↦ absurd (ground arith)
      | inr (s, found) ↦ ground arith
    ]
