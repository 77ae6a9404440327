-- ===== src/ChatServer/LogicQueue/Tests.antt =====
-- A message is posted while the thread sleeps.
use learncc.Prelude.{ℕ, ◌≡◌, refl, Bool, [], ◌∷◌, ◌==◌, arith}
use learncc.ChatServer.LogicQueue.{
  Node, System, make, post_msg, notify, deal_msg, drain, handle, posts, notifies, deals, Run, here,
  next,
}
use learncc.ChatServer.LogicQueue.Wakeup.{IsServed, reached-IsServed}

abbrev only_login : ℕ → Bool
only_login id = id == 1005

abbrev login : Node
login = (1005, (7 ∷ []))

abbrev sleeping : System
sleeping = deal_msg only_login make

abbrev served : System
served = deal_msg only_login (notify (post_msg login sleeping))

served_lem : served.handled ≡ login ∷ []
unfolding deal_msg notify post_msg handle drain
served_lem = refl

served-Run : Run only_login make served
unfolding deal_msg notify post_msg
served-Run = next make sleeping served (deals make refl) (
    next sleeping (post_msg login sleeping) served (posts login sleeping) (
      next (post_msg login sleeping) (notify (post_msg login sleeping)) served
        (notifies (post_msg login sleeping) (omega arith))
        (next (notify (post_msg login sleeping)) served served
          (deals (notify (post_msg login sleeping)) refl) (here served))))

reached-IsServed_example : IsServed only_login served
reached-IsServed_example = reached-IsServed served-Run
