-- ===== src/Mmuduo/Poller.antt =====
-- inc/mmuduo/epoll_poller.h and src/mmuduo/epoll_poller.cc: the table of channels, and the calls of
-- `epoll_ctl` by which the kernel's interest list follows it. The kernel is a parameter, with the
-- documented behaviour of `epoll_ctl`. `none` is `LOG_FATAL`, which ends the process.
pub mod Agreement
mod Tests
use learncc.Prelude.{
  ℕ, ◌≡◌, ◌≢◌, Bool, true, false, List, [], ◌∷◌, Option, none, some, ◌==◌, if◌then◌else◌, put,
}
use learncc.Mmuduo.Channel.{Channel, Index, new, added, deleted, is_none}

pub data Ctl : Type 0 where
  add mod_ del : Ctl

-- The interest list of one `epollfd`: `watched k fd` is the mask of `fd`, if it is on the list.
pub record Epoll : Type 1 where
  pub Kernel : Type 0
  pub watched : Kernel → ℕ → Option ℕ
  pub ctl : Kernel → Ctl → ℕ → ℕ → Option Kernel
  pub ctl_add :
      (k : Kernel) (fd m : ℕ)
      → watched k fd ≡ none
      → (k' : Kernel) × (ctl k add fd m ≡ some k')
        × (watched k' fd ≡ some m)
        × ((other : ℕ) → fd ≢ other → watched k' other ≡ watched k other)
  pub ctl_mod :
      (k : Kernel) (fd m : ℕ) {old : ℕ}
      → watched k fd ≡ some old
      → (k' : Kernel) × (ctl k mod_ fd m ≡ some k')
        × (watched k' fd ≡ some m)
        × ((other : ℕ) → fd ≢ other → watched k' other ≡ watched k other)
  pub ctl_del :
      (k : Kernel) (fd m : ℕ) {old : ℕ}
      → watched k fd ≡ some old
      → (k' : Kernel) × (ctl k del fd m ≡ some k')
        × (watched k' fd ≡ none)
        × ((other : ℕ) → fd ≢ other → watched k' other ≡ watched k other)

module _ (os : Epoll) where
  open os use {Kernel, watched, ctl}

  -- `table` is `channels_`: the address of the channel by its descriptor. The operations return the
  -- channel that they change.
  pub record Poller : Type 0 where
    pub kernel : Kernel
    pub table : ℕ → Option ℕ

  -- A failed removal is logged, any other failure ends the process.
  pub update : Poller → Ctl → Channel → Option Poller
  update p op ch = elim (ctl p.kernel op ch.fd ch.events) [
    | some k ↦ some (record p { kernel = k })
    | none ↦ elim op [ del ↦ some p | _ ↦ none ]
  ]

  abbrev with_index : Channel → Index → Option Poller → Option (Poller × Channel)
  with_index ch x none = none
  with_index ch x (some p) = some (p, record ch { index = x })

  -- `update_channel`, by the value of `ch->index()`.
  pub update_by : Index → Poller → Channel → Option (Poller × Channel)
  update_by new p ch =
      with_index ch added (update (record p { table = put p.table ch.fd (some ch.id) }) add ch)
  update_by deleted p ch = with_index ch added (update p add ch)
  update_by added p ch =
      if is_none ch.events
      then with_index ch deleted (update p del ch)
      else with_index ch added (update p mod_ ch)

  pub update_channel : Poller → Channel → Option (Poller × Channel)
  update_channel p ch = update_by ch.index p ch

  pub remove_by : Index → Poller → Channel → Option (Poller × Channel)
  remove_by added p ch = with_index ch new (update p del ch)
  remove_by _ p ch = some (p, record ch { index = new })

  pub remove_channel : Poller → Channel → Option (Poller × Channel)
  remove_channel p ch = remove_by ch.index (record p { table = put p.table ch.fd none }) ch

  -- A change of a channel's mask with the call of `update()`: `enable_reading` and its siblings.
  pub set_events : Poller → Channel → ℕ → Option (Poller × Channel)
  set_events p ch e = update_channel p (record ch { events = e })

  pub has_channel : Poller → Channel → Bool
  has_channel p ch = elim (p.table ch.fd) [ none ↦ false | some j ↦ j == ch.id ]
