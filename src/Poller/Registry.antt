-- ===== src/Poller/Registry.antt =====
-- EPollPoller.cpp: the map of channels, the indices of the channels, and the kernel's interest
-- list.
use my_testserver.Prelude.Keys.{number_keys}
use my_testserver.Prelude.{
  ℕ, ◌≡◌, refl, Bool, true, false, Option, none, some, ◌==◌, ==_iff, arith, Option-cases,
  Bool-cases, inl, inr, ◌⊎◌, if◌then◌else◌,
}
use my_testserver.Prelude.Assoc.{get, Distinct}
use my_testserver.Channel.{Index, new, added, deleted, Channel}
use my_testserver.Poller.Kernel.{Epoll}
use my_testserver.Poller.{EPollPoller}

abbrev pub is_new : Index → Bool
is_new new = true
is_new added = false
is_new deleted = false

abbrev pub is_added : Index → Bool
is_added new = false
is_added added = true
is_added deleted = false

pub Index-cases : (i : Index) → (i ≡ new) ⊎ ((i ≡ added) ⊎ (i ≡ deleted))
Index-cases new = inl refl
Index-cases added = inr (inl refl)
Index-cases deleted = inr (inr refl)

module _ (epoll : Epoll) where
  open epoll use {K, interest}

  -- The kernel watches exactly the added channels, for the events that they want, and the map lists
  -- exactly the channels that are not new.
  pub record InSync (p : EPollPoller K) : Type 0 where
    pub distinct : Distinct p.channels
    pub watched :
        (id : ℕ)
        → is_added (p.channel id).index ≡ true
        → interest p.kernel (p.channel id).fd ≡ some ((p.channel id).events, id)
    pub only :
        (fd events id : ℕ)
        → interest p.kernel fd ≡ some (events, id)
        → (is_added (p.channel id).index ≡ true) × ((p.channel id).fd ≡ fd)
    pub mapped :
        (id : ℕ) → is_new (p.channel id).index ≡ false → get p.channels (p.channel id).fd ≡ some id
    pub listed :
        (fd id : ℕ)
        → get p.channels fd ≡ some id
        → (is_new (p.channel id).index ≡ false) × ((p.channel id).fd ≡ fd)

  -- No other channel holds the descriptor.
  abbrev pub Owns : EPollPoller K → ℕ → ℕ → Type 0
  Owns p id fd = (other : ℕ) → get p.channels fd ≡ some other → other ≡ id

  -- What a channel asks of the kernel and of the map.
  abbrev pub entry : Channel → ℕ → Option (ℕ × ℕ)
  entry c id = if is_added c.index then some (c.events, id) else none

  abbrev pub listing : Channel → ℕ → Option ℕ
  listing c id = if is_new c.index then none else some id

  pub install-InSync :
      (p q : EPollPoller K) (id : ℕ) (c : Channel)
      → InSync p
      → Owns p id c.fd
      → (p.channel id).fd ≡ c.fd
      → Distinct q.channels
      → ((j : ℕ) → q.channel j ≡ (if j == id then c else p.channel j))
      → ((j : ℕ) → interest q.kernel j ≡ (if c.fd == j then entry c id else interest p.kernel j))
      → ((j : ℕ) → get q.channels j ≡ (if c.fd == j then listing c id else get p.channels j))
      → InSync q
  install-InSync p q id c a own same d chans interests gets = record {
    distinct = d;
    watched = λ j h. ground (
      arith,
      chans j,
      interests c.fd,
      interests (p.channel j).fd,
      own j,
      a.mapped j,
      a.watched j,
      ==_iff j id,
    );
    only = λ fd events j h.
        ground (arith, chans j, interests fd, own j, a.mapped j, a.only fd events j, ==_iff j id);
    mapped = λ j h.
        ground (arith, chans j, gets c.fd, gets (p.channel j).fd, own j, a.mapped j, ==_iff j id);
    listed = λ fd j h. ground (arith, chans j, gets fd, own j, a.listed fd j, ==_iff j id);
  }

  -- A new channel has a descriptor that no other channel holds.
  abbrev pub IsFree : EPollPoller K → ℕ → Type 0
  IsFree p id = is_new (p.channel id).index ≡ true → get p.channels (p.channel id).fd ≡ none

  pub owns : (p : EPollPoller K) (id : ℕ) → InSync p → IsFree p id → Owns p id (p.channel id).fd
  owns p id a free j h = elim (Bool-cases (is_new (p.channel id).index)) [
    | inl e ↦ ground (arith, free e)
    | inr e ↦ ground (arith, a.mapped id e)
  ]

  -- The kernel does not watch the descriptor of a channel that is not added.
  pub unwatched :
      (p : EPollPoller K) (id : ℕ)
      → InSync p
      → IsFree p id
      → is_added (p.channel id).index ≡ false
      → interest p.kernel (p.channel id).fd ≡ none
  unwatched p id a free h = elim (Option-cases (interest p.kernel (p.channel id).fd)) [
    | inl e ↦ e
    | inr ((events, j), e) ↦
        absurd
          (ground (arith, e, a.only (p.channel id).fd events j, a.mapped j, owns p id a free j))
  ]
