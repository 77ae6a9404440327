-- ===== src/Mmuduo/Channel.antt =====
-- inc/mmuduo/channel.h and src/mmuduo/channel.cc: the events that a descriptor is watched for, and
-- the callbacks that an event starts. Masks are numbers, with the values of <sys/epoll.h>.
pub mod Masks
mod Tests
use Prim.Native.Nat.{bit_and, bit_or}
use learncc.Prelude.{
  ℕ, ◌+◌, ◌-◌, ◌^◌, Bool, true, false, not, ◌&&◌, List, [], ◌∷◌, ◌++◌, ◌==◌, if◌then◌else◌,
}

abbrev pub epollin : ℕ
epollin = 1

abbrev pub epollpri : ℕ
epollpri = 2

abbrev pub epollout : ℕ
epollout = 4

abbrev pub epollerr : ℕ
epollerr = 8

abbrev pub epollhup : ℕ
epollhup = 16

abbrev pub none_event : ℕ
none_event = 0

abbrev pub read_event : ℕ
read_event = 3

abbrev pub write_event : ℕ
write_event = 4

-- `~m` of a 32-bit mask.
abbrev pub not_mask : ℕ → ℕ
not_mask m = 2 ^ 32 - 1 - m

-- `enum channel_state` of src/mmuduo/epoll_poller.cc, which `idx_` holds.
pub data Index : Type 0 where
  new added deleted : Index

-- `id` is the channel's address, and a callback is known by whether it is set.
pub record Channel : Type 0 where
  pub id : ℕ
  pub fd : ℕ
  pub events : ℕ
  pub revents : ℕ
  pub index : Index
  pub tied : Bool
  pub has_read : Bool
  pub has_write : Bool
  pub has_close : Bool
  pub has_error : Bool

unfoldable pub make : ℕ → ℕ → Channel
make id fd = record {
  id = id;
  fd = fd;
  events = 0;
  revents = 0;
  index = new;
  tied = false;
  has_read = false;
  has_write = false;
  has_close = false;
  has_error = false;
}

-- Changing the mask; the call of `update()` that follows is `Poller.update_channel`.
unfoldable pub enable_reading : ℕ → ℕ
enable_reading e = bit_or e read_event

unfoldable pub disable_reading : ℕ → ℕ
disable_reading e = bit_and e (not_mask read_event)

unfoldable pub enable_writing : ℕ → ℕ
enable_writing e = bit_or e write_event

unfoldable pub disable_writing : ℕ → ℕ
disable_writing e = bit_and e (not_mask write_event)

unfoldable pub is_none : ℕ → Bool
is_none e = e == none_event

unfoldable pub is_reading : ℕ → Bool
is_reading e = e == read_event

unfoldable pub is_writing : ℕ → Bool
is_writing e = e == write_event

pub data Callback : Type 0 where
  on_read on_write on_close on_error : Callback

abbrev pub bit : ℕ → ℕ → Bool
bit e m = not (bit_and e m == 0)

abbrev pub when : Bool → Callback → List Callback
when b c = if b then c ∷ [] else []

-- The callbacks in the order in which `handle_event_with_guard` makes them.
pub handle_event_with_guard : Channel → List Callback
handle_event_with_guard ch =
    when (bit ch.revents epollhup && not (bit ch.revents epollin) && ch.has_close) on_close
    ++ when (bit ch.revents epollerr && ch.has_error) on_error
    ++ when (bit ch.revents read_event && ch.has_read) on_read
    ++ when (bit ch.revents epollout && ch.has_write) on_write

-- `alive` is whether `tie_.lock()` finds the object alive.
pub handle_event : Bool → Channel → List Callback
handle_event alive ch =
    if ch.tied
    then (if alive then handle_event_with_guard ch else [])
    else handle_event_with_guard ch
