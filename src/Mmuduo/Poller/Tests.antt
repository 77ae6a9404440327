-- ===== src/Mmuduo/Poller/Tests.antt =====
-- A kernel that behaves as documented, and the theorems at a new channel.
use learncc.Prelude.{put, ℕ, ◌≡◌, ◌≢◌, refl, Option, none, some, arith}
use learncc.Mmuduo.Channel.{Channel, added, make}
use learncc.Mmuduo.Poller.{Ctl, add, mod_, del, Epoll, Poller, set_events}
use learncc.Mmuduo.Poller.Agreement.{InStep, Frame, set_events-InStep}

abbrev List_ : Type 0
List_ = ℕ → Option ℕ

abbrev ctl_list : List_ → Ctl → ℕ → ℕ → Option List_
ctl_list k add fd m = elim (k fd) [ none ↦ some (put k fd (some m)) | some old ↦ none ]
ctl_list k mod_ fd m = elim (k fd) [ none ↦ none | some old ↦ some (put k fd (some m)) ]
ctl_list k del fd m = elim (k fd) [ none ↦ none | some old ↦ some (put k fd none) ]

put_self : (k : List_) (fd : ℕ) (m : Option ℕ) → put k fd m fd ≡ m
put_self k fd m = ground arith

put_rest : (k : List_) (fd other : ℕ) (m : Option ℕ) → fd ≢ other → put k fd m other ≡ k other
put_rest k fd other m n = ground arith

ctl_list-add : (k : List_) (fd m : ℕ) → k fd ≡ none → ctl_list k add fd m ≡ some (put k fd (some m))
ctl_list-add k fd m e = rw (e, ctl_list)

ctl_list-mod :
    (k : List_) (fd m : ℕ) {old : ℕ}
    → k fd ≡ some old
    → ctl_list k mod_ fd m ≡ some (put k fd (some m))
ctl_list-mod k fd m e = rw (e, ctl_list)

ctl_list-del :
    (k : List_) (fd m : ℕ) {old : ℕ} → k fd ≡ some old → ctl_list k del fd m ≡ some (put k fd none)
ctl_list-del k fd m e = rw (e, ctl_list)

abbrev documented : Epoll
documented = record {
  Kernel = List_;
  watched = λ k. k;
  ctl = ctl_list;
  ctl_add = λ k fd m e. (
    put k fd (some m),
    ctl_list-add k fd m e,
    put_self k fd (some m),
    λ o n. put_rest k fd o (some m) n,
  );
  ctl_mod = λ k fd m {old} e. (
    put k fd (some m),
    ctl_list-mod k fd m e,
    put_self k fd (some m),
    λ o n. put_rest k fd o (some m) n,
  );
  ctl_del = λ k fd m {old} e.
      (put k fd none, ctl_list-del k fd m e, put_self k fd none, λ o n. put_rest k fd o none n);
}

abbrev empty : Poller documented
empty = record { kernel = λ fd. none; table = λ fd. none }

fresh-InStep : InStep documented empty (make 1 5)
unfolding make
fresh-InStep = (refl, refl)

set_events-InStep_example :
    (q : Poller documented) × (c : Channel) × (set_events documented empty (make 1 5) 3
      ≡ some (q, c))
    × InStep documented q c
    × (c.fd ≡ (make 1 5).fd)
    × (c.events ≡ 3)
    × Frame documented empty q (make 1 5).fd
set_events-InStep_example = set_events-InStep documented empty (make 1 5) 3 fresh-InStep

-- The same channel after `enable_reading`.
abbrev reading : Channel
reading = record (make 1 5) { events = 3; index = added }

abbrev watching : Poller documented
watching = record { kernel = put (λ fd. none) 5 (some 3); table = put (λ fd. none) 5 (some 1) }

reading-InStep : InStep documented watching reading
unfolding make
reading-InStep = (refl, refl)
