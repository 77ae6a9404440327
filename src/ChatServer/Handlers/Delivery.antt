-- ===== src/ChatServer/Handlers/Delivery.antt =====
-- Messages between two clients, on one server or on two.
use learncc.Prelude.{
  Bool, ◌||◌, if◌then◌else◌, ℕ, ◌≡◌, inl, inr, refl, ap, sym, true, List, [], ◌∷◌, ◌++◌, Option,
  none, some, ◌==◌, arith, Bool-cases, Option-cases,
}
use learncc.ChatServer.Users.{Json, Database}
use learncc.ChatServer.Handlers.{
  Cluster, Request, notify_text_chat_msg, Message, notify_text_chat, text_chat_rsp, Effect, sends,
  calls, route, serve, deal_chat_text_msg,
}

sent : ℕ → List Effect → List (ℕ × ℕ × Message)
sent server (sends s m ∷ es) = (server, s, m) ∷ sent server es
sent server es = []

-- What the server that is called does, if the request reaches it.
abbrev answered :
    (js : Json) → Database → (ℕ → List ℕ) → ℕ → Cluster js → Option Request → List (ℕ × ℕ × Message)
answered js db key server c none = []
answered js db key server c (some q) = sent server (serve js db key server q c).0

-- What sessions are sent in the end, each with its server: what the handler sends, and what the servers
-- send that it calls. `reaches` says which server can call which.
pub delivered :
    (js : Json)
    → Database
    → (ℕ → List ℕ)
    → (ℕ → ℕ → Bool)
    → ℕ
    → Cluster js
    → List Effect
    → List (ℕ × ℕ × Message)
unfolding sent serve notify_text_chat_msg
delivered js db key reaches self c [] = []
delivered js db key reaches self c (sends s m ∷ es) =
    (self, s, m) ∷ delivered js db key reaches self c es
delivered js db key reaches self c (calls server q ∷ es) =
    answered js db key server c (notify_text_chat_msg reaches self server q)
    ++ delivered js db key reaches self c es
delivered js db key reaches self c (e ∷ es) = delivered js db key reaches self c es

-- The session of the addressee, where there is one that the message can come to.
abbrev to_client : {A : Type 0} → (ℕ → Bool) → Option ℕ → (ℕ → Option ℕ) → (ℕ → ℕ → A) → List A
to_client near none users f = []
to_client near (some server) users f =
    if near server then elim (users server) [ none ↦ [] | some s ↦ f server s ∷ [] ] else []

-- The server that redis names for the addressee is the one of the sender, or one that it reaches: then a
-- text message is delivered once to the session that this server has for the addressee, and to nobody if
-- it has none. If redis names no server, or one that is not reached, nobody gets the message. In every
-- case the sender gets one reply after it.
pub chat_delivered :
    (js : Json) (db : Database) (key : ℕ → List ℕ) (reaches : ℕ → ℕ → Bool)
    (self session uid touid : ℕ) (texts : List (ℕ × ℕ)) (c : Cluster js)
    → delivered js db key reaches self c (deal_chat_text_msg self session uid touid texts c)
      ≡ to_client
          (λ server. (server == self) || reaches self server)
          (c.ips touid)
          (λ server. c.users server touid)
          (λ server s. (server, s, notify_text_chat uid touid texts))
        ++ ((self, session, text_chat_rsp uid touid texts) ∷ [])
unfolding deal_chat_text_msg route delivered serve sent notify_text_chat_msg
chat_delivered js db key reaches self session uid touid texts c =
    elim (Option-cases (c.ips touid)) [
      | inl e ↦ rw (e) refl
      | inr (server, e) ↦ elim (Bool-cases (server == self)) [
        | inl same ↦
            let is_self : server ≡ self = ground arith in
            let self_lem : (self == self) ≡ true = ground arith in
            elim (Option-cases (c.users self touid)) [
              | inl none_there ↦ rw (e, is_self, self_lem, none_there) refl
              | inr (s, there) ↦
                  rw (e, is_self, self_lem, there)
                    (ap
                      (λ n.
                        (n, s, notify_text_chat uid touid texts)
                        ∷ ((self, session, text_chat_rsp uid touid texts) ∷ []))
                      (sym is_self))
            ]
        | inr other ↦ elim (Bool-cases (reaches self server)) [
          | inr unreached ↦ rw (e, other, unreached) refl
          | inl reached ↦ elim (Option-cases (c.users server touid)) [
            | inl none_there ↦ rw (e, other, reached, none_there) refl
            | inr (s, there) ↦ rw (e, other, reached, there) refl
          ]
        ]
      ]
    ]
