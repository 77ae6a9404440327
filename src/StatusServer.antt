-- ===== src/StatusServer.antt =====
-- src/status_server/status_service_impl.cc: the choice of a chat server for a client, and tokens. Names
-- and tokens are numbers, since they are only compared; 0 is the empty text.
pub mod Choice
pub mod Login
mod Tests
use learncc.Prelude.{
  ℕ, ◌-◌, ◌^◌, Bool, true, false, List, [], ◌∷◌, Option, none, some, ltb, ◌==◌, if◌then◌else◌,
}

pub record ChatServer : Type 0 where
  pub host : ℕ
  pub port : ℕ
  pub name : ℕ
  pub con_count : ℕ

abbrev pub int_max : ℕ
int_max = 2 ^ 31 - 1

-- What redis holds: under `LOGIN_COUNT` the number of clients of a server, and the token of a user.
-- An entry that is not there is `none`; a connection to redis is taken to be there.
pub record Store : Type 0 where
  pub counts : ℕ → Option ℕ
  pub tokens : ℕ → Option ℕ

-- The count of a server; one without an entry is not online.
unfoldable pub load : Store → ℕ → ℕ
load store name = elim (store.counts name) [ none ↦ int_max | some n ↦ n ]

-- The body of the loop over `servers_`.
unfoldable pub pick : Store → ChatServer → ChatServer → ChatServer
unfolding load
pick store best s =
    let counted = record s { con_count = load store s.name } in
    if s.name == best.name
    then best
    else if ltb counted.con_count best.con_count
    then counted
    else best

unfoldable pub scan : Store → ChatServer → List ChatServer → ChatServer
unfolding pick
scan store best [] = best
scan store best (s ∷ ss) = scan store (pick store best s) ss

-- `none` is the use of `servers_.begin()` of an empty table.
unfoldable pub get_chatserver : Store → List ChatServer → Option ChatServer
unfolding scan load
get_chatserver store [] = none
get_chatserver store (s ∷ ss) =
    some (scan store (record s { con_count = load store s.name }) (s ∷ ss))

unfoldable pub insert_token : ℕ → ℕ → Store → Store
insert_token uid token store = record store {
  tokens = λ u. if u == uid then some token else store.tokens u;
}

-- The reply: address and token. `fresh` is the text that `generate_unique_string` makes.
pub record Reply : Type 0 where
  pub host : ℕ
  pub port : ℕ
  pub token : ℕ

unfoldable pub get_chat_server : List ChatServer → ℕ → ℕ → Store → Option (Reply × Store)
unfolding get_chatserver insert_token
get_chat_server servers uid fresh store = elim (get_chatserver store servers) [
  | none ↦ none
  | some s ↦
      some (record { host = s.host; port = s.port; token = fresh }, insert_token uid fresh store)
]

pub data Error : Type 0 where
  success : Error
  err_uid : Error
  err_token : Error

-- `redis_mgr::get` returns whether there is an entry, and leaves the text empty if there is none.
pub get : Store → ℕ → Bool × ℕ
get store uid = elim (store.tokens uid) [ none ↦ (false, 0) | some t ↦ (true, t) ]

pub login : Store → ℕ → ℕ → Error
unfolding get
login store uid token =
    let (found, value) = get store uid in
    if found then err_uid else if value == token then success else err_token
