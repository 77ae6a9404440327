-- ===== src/Mmuduo/Poller/Agreement.antt =====
-- The kernel watches exactly the descriptors of the channels that are added, for their events.
use learncc.Prelude.{
  put, ℕ, ◌≡◌, ◌≢◌, true, false, Option, none, some, arith, refl, inl, inr, Bool-cases, ap, ◌∙◌,
}
use learncc.Mmuduo.Channel.{Channel, Index, new, added, deleted, is_none}
use learncc.Mmuduo.Poller.{
  Epoll, Poller, update, update_by, update_channel, remove_by, remove_channel, set_events,
}

-- `watching` is what the kernel has for the descriptor, `entry` what the table has.
abbrev pub Agrees : Index → Option ℕ → Option ℕ → ℕ → ℕ → Type 0
Agrees new watching entry i events = (watching ≡ none) × (entry ≡ none)
Agrees added watching entry i events = (watching ≡ some events) × (entry ≡ some i)
Agrees deleted watching entry i events = (watching ≡ none) × (entry ≡ some i)

module _ (os : Epoll) where
  open os use {watched}

  -- The channel agrees with the kernel's interest list and with the table.
  abbrev pub InStep : Poller os → Channel → Type 0
  InStep p ch = Agrees ch.index (watched p.kernel ch.fd) (p.table ch.fd) ch.id ch.events

  -- From `p` to `q` nothing changes at the other descriptors.
  pub record Frame (p q : Poller os) (fd : ℕ) : Type 0 where
    pub kernel : (other : ℕ) → fd ≢ other → watched q.kernel other ≡ watched p.kernel other
    pub table : (other : ℕ) → fd ≢ other → q.table other ≡ p.table other

  put_other : (f : ℕ → Option ℕ) (i j : ℕ) (a : Option ℕ) → i ≢ j → put f i a j ≡ f j
  put_other f i j a n = ground arith

  abbrev Outcome : Poller os → Channel → Option (Poller os × Channel) → Type 0
  Outcome p ch r =
      (q : Poller os) × (c : Channel) × (r ≡ some (q, c))
      × InStep q c
      × (c.fd ≡ ch.fd)
      × (c.events ≡ ch.events)
      × Frame p q ch.fd

  update_new :
      (p : Poller os) (ch : Channel)
      → Agrees new (watched p.kernel ch.fd) (p.table ch.fd) ch.id ch.events
      → Outcome p ch (update_by os new p ch)
  unfolding update_by update
  update_new p ch v =
      let (k, done, w, rest) = os.ctl_add p.kernel ch.fd ch.events v.0 in
      (
        record { kernel = k; table = put p.table ch.fd (some ch.id) },
        record ch { index = added },
        ground (arith, done),
        ground (arith, w),
        refl,
        refl,
        record { kernel = rest; table = λ fd n. put_other p.table ch.fd fd (some ch.id) n },
      )

  update_deleted :
      (p : Poller os) (ch : Channel)
      → Agrees deleted (watched p.kernel ch.fd) (p.table ch.fd) ch.id ch.events
      → Outcome p ch (update_by os deleted p ch)
  unfolding update_by update
  update_deleted p ch v =
      let (k, done, w, rest) = os.ctl_add p.kernel ch.fd ch.events v.0 in
      (
        record p { kernel = k },
        record ch { index = added },
        ground (arith, done),
        ground (arith, w, v.1),
        refl,
        refl,
        record { kernel = rest; table = λ fd n. refl },
      )

  update_none :
      (p : Poller os) (ch : Channel) {old : ℕ}
      → watched p.kernel ch.fd ≡ some old
      → p.table ch.fd ≡ some ch.id
      → is_none ch.events ≡ true
      → Outcome p ch (update_by os added p ch)
  unfolding update_by update
  update_none p ch v t z =
      let (k, done, w, rest) = os.ctl_del p.kernel ch.fd ch.events v in
      (
        record p { kernel = k },
        record ch { index = deleted },
        ground (arith, done, z),
        ground (arith, w, t),
        refl,
        refl,
        record { kernel = rest; table = λ fd n. refl },
      )

  update_some :
      (p : Poller os) (ch : Channel) {old : ℕ}
      → watched p.kernel ch.fd ≡ some old
      → p.table ch.fd ≡ some ch.id
      → is_none ch.events ≡ false
      → Outcome p ch (update_by os added p ch)
  unfolding update_by update
  update_some p ch v t z =
      let (k, done, w, rest) = os.ctl_mod p.kernel ch.fd ch.events v in
      (
        record p { kernel = k },
        record ch { index = added },
        ground (arith, done, z),
        ground (arith, w, t),
        refl,
        refl,
        record { kernel = rest; table = λ fd n. refl },
      )

  by_index :
      (x : Index) (p : Poller os) (ch : Channel) (old : ℕ)
      → Agrees x (watched p.kernel ch.fd) (p.table ch.fd) ch.id old
      → Outcome p ch (update_by os x p ch)
  by_index new p ch old v = update_new p ch v
  by_index deleted p ch old v = update_deleted p ch v
  by_index added p ch old v = elim (Bool-cases (is_none ch.events)) [
    | inl z ↦ update_none p ch v.0 v.1 z
    | inr z ↦ update_some p ch v.0 v.1 z
  ]

  -- A channel in step with the kernel and the table is so again after a change of its events: no
  -- call of `epoll_ctl` fails, the channel has the new events, and no other descriptor is touched.
  pub set_events-InStep :
      (p : Poller os) (ch : Channel) (e : ℕ)
      → InStep p ch
      → (q : Poller os) × (c : Channel) × (set_events os p ch e ≡ some (q, c))
        × InStep q c
        × (c.fd ≡ ch.fd)
        × (c.events ≡ e)
        × Frame p q ch.fd
  unfolding set_events update_channel
  set_events-InStep p ch e v = by_index ch.index p (record ch { events = e }) ch.events v

  remove_added :
      (p : Poller os) (ch : Channel)
      → watched p.kernel ch.fd ≡ some ch.events
      → (q : Poller os) × (remove_by os added p ch ≡ some (q, record ch { index = new }))
        × (watched q.kernel ch.fd ≡ none)
        × (q.table ≡ p.table)
        × ((other : ℕ) → ch.fd ≢ other → watched q.kernel other ≡ watched p.kernel other)
  unfolding remove_by update
  remove_added p ch v =
      let (k, done, w, rest) = os.ctl_del p.kernel ch.fd ch.events v in
      (record p { kernel = k }, ground (arith, done), w, refl, rest)

  abbrev Removed : Poller os → Poller os → Channel → Option (Poller os × Channel) → Type 0
  Removed p base ch r =
      (q : Poller os) × (r ≡ some (q, record ch { index = new }))
      × (watched q.kernel ch.fd ≡ none)
      × (q.table ≡ base.table)
      × ((other : ℕ) → ch.fd ≢ other → watched q.kernel other ≡ watched p.kernel other)

  by_remove :
      (x : Index) (p base : Poller os) (ch : Channel) (entry : Option ℕ)
      → base.kernel ≡ p.kernel
      → Agrees x (watched p.kernel ch.fd) entry ch.id ch.events
      → Removed p base ch (remove_by os x base ch)
  unfolding remove_by
  by_remove new p base ch entry k v = (base, refl, rw k v.0, refl, λ other n. rw k)
  by_remove deleted p base ch entry k v = (base, refl, rw k v.0, refl, λ other n. rw k)
  by_remove added p base ch entry k v =
      let (q, done, gone, table, rest) = remove_added base ch (rw k v.0) in
      (q, done, gone, table, λ other n. rest other n ∙ ap (λ x. watched x other) k)

  put_self : (f : ℕ → Option ℕ) (i : ℕ) (a : Option ℕ) → put f i a i ≡ a
  put_self f i a = ground arith

  -- Removal of a channel that is in step takes its descriptor off the kernel's list and out of the
  -- table, makes the channel new, and touches no other descriptor.
  pub remove_channel-InStep :
      (p : Poller os) (ch : Channel)
      → InStep p ch
      → (q : Poller os) × (remove_channel os p ch ≡ some (q, record ch { index = new }))
        × InStep q (record ch { index = new })
        × Frame p q ch.fd
  unfolding remove_channel
  remove_channel-InStep p ch v =
      let (q, done, gone, table, rest) =
        by_remove ch.index p (record p { table = put p.table ch.fd none }) ch (p.table ch.fd) refl
          v in
      (
        q,
        done,
        (gone, ap (λ t. t ch.fd) table ∙ put_self p.table ch.fd none),
        record {
          kernel = rest;
          table = λ other n. ap (λ t. t other) table ∙ put_other p.table ch.fd other none n;
        },
      )
