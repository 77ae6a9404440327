-- ===== src/Mmuduo/Channel/Tests.antt =====
-- The callbacks of some events, and the masks at a new channel.
use learncc.Prelude.{◌≡◌, refl, true, [], ◌∷◌}
use learncc.Mmuduo.Channel.{Channel, make, on_read, on_close, handle_event, handle_event_with_guard}

abbrev hung_up : Channel
hung_up = record (make 1 5) { revents = 18; has_close = true; has_read = true }

-- A hang-up with urgent input closes, and then still reads.
hang_up : handle_event true hung_up ≡ on_close ∷ on_read ∷ []
unfolding handle_event handle_event_with_guard make
hang_up = refl
