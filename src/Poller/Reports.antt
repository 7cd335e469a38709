-- ===== src/Poller/Reports.antt =====
-- What EPollPoller::poll returns, from what `epoll_wait` reports.
use my_testserver.Prelude.Keys.{number_keys}
use my_testserver.Prelude.{
  ℕ, ◌≤◌, ◌<◌, ◌*◌, ◌≡◌, refl, sym, ap, subst, ◌∙◌, true, some, List, [], ◌∷◌, ◌++◌, map, length,
  ◌==◌, ==_iff, arith, Bool-cases, inl, inr, append_assoc, append-nil, if◌then◌else◌,
}
use my_testserver.Prelude.Assoc.{Distinct}
use my_testserver.Channel.{Channel, set_revents}
use my_testserver.Poller.{EPollPoller, set_channel, fill_active_channels, poll}
use my_testserver.Poller.Kernel.{Epoll}
use my_testserver.Poller.Registry.{InSync, is_added}

module _ (epoll : Epoll) where
  open epoll use {K, interest}

  -- What `epoll_wait` may report: events of entries of the interest list.
  abbrev pub Watched : EPollPoller K → List (ℕ × ℕ) → Type 0
  Watched p [] = Unit
  Watched p ((events, id) ∷ reported) =
      ((fd : ℕ) × (wanted : ℕ) × (interest p.kernel fd ≡ some (wanted, id))) × Watched p reported

-- The events of a channel behind a report: the last that are reported for it.
abbrev pub latest : List (ℕ × ℕ) → ℕ → ℕ → ℕ
latest [] j revents = revents
latest ((events, id) ∷ reported) j revents = latest reported j (if j == id then events else revents)

module _ {K : Type 0} where
  abbrev pub AreAdded : EPollPoller K → List ℕ → Type 0
  AreAdded q [] = Unit
  AreAdded q (id ∷ ids) = (is_added (q.channel id).index ≡ true) × AreAdded q ids

  -- `q` is `p` with other `revents`.
  record Refreshed (reported : List (ℕ × ℕ)) (active : List ℕ) (p : EPollPoller K)
      (result : List ℕ × EPollPoller K) : Type 0 where
    lists : result.0 ≡ active ++ map (λ r. r.1) reported
    same_kernel : result.1.kernel ≡ p.kernel
    same_map : result.1.channels ≡ p.channels
    same_capacity : result.1.capacity ≡ p.capacity
    refreshed :
        (j : ℕ)
        → result.1.channel j ≡ set_revents (p.channel j) (latest reported j (p.channel j).revents)

  set_channel-latest :
      (p : EPollPoller K) (id events : ℕ) (reported : List (ℕ × ℕ)) (j : ℕ)
      → (let c = (set_channel p id (set_revents (p.channel id) events)).channel j in
          set_revents c (latest reported j c.revents))
        ≡ set_revents (p.channel j) (latest ((events, id) ∷ reported) j (p.channel j).revents)
  set_channel-latest p id events reported j = elim (Bool-cases (j == id)) [
    | inl e ↦
        subst
          (λ i.
            (let c : Channel = if j == id then set_revents (p.channel i) events else p.channel j in
              set_revents c (latest reported j c.revents))
            ≡ set_revents (p.channel j)
                (latest reported j (if j == id then events else (p.channel j).revents)))
          ((==_iff j id).0 e) (ground (arith, e))
    | inr e ↦ ground (arith, e)
  ]

  fill_active_channels-Refreshed :
      (p : EPollPoller K) (reported : List (ℕ × ℕ)) (active : List ℕ)
      → Refreshed reported active p (fill_active_channels p reported active)
  unfolding fill_active_channels
  fill_active_channels-Refreshed p [] active = record {
    lists = sym (append-nil active);
    same_kernel = refl;
    same_map = refl;
    same_capacity = refl;
    refreshed = λ j. refl;
  }
  fill_active_channels-Refreshed p ((events, id) ∷ reported) active =
      let p₁ = set_channel p id (set_revents (p.channel id) events) in
      let f = fill_active_channels-Refreshed p₁ reported (active ++ (id ∷ [])) in
      record {
        lists = f.lists ∙ append_assoc active (id ∷ []) (map (λ r. r.1) reported);
        same_kernel = f.same_kernel;
        same_map = f.same_map;
        same_capacity = f.same_capacity;
        refreshed = λ j. f.refreshed j ∙ set_channel-latest p id events reported j;
      }

  -- What `poll` returns, from what `fill_active_channels` does.
  poll-fields :
      (p : EPollPoller K) (reported : List (ℕ × ℕ)) (j : ℕ)
      → ((poll p reported).0 ≡ map (λ r. r.1) reported)
        × ((poll p reported).1.kernel ≡ p.kernel)
        × ((poll p reported).1.channels ≡ p.channels)
        × ((poll p reported).1.capacity
            ≡ (if length reported == p.capacity then p.capacity * 2 else p.capacity))
        × ((poll p reported).1.channel j
            ≡ set_revents (p.channel j) (latest reported j (p.channel j).revents))
  unfolding poll
  poll-fields p [] j = (refl, refl, refl, ground arith, refl)
  poll-fields p (r ∷ rs) j =
      let f = fill_active_channels-Refreshed p (r ∷ rs) [] in
      (
        ground (arith, f.lists),
        ground (arith, f.same_kernel),
        ground (arith, f.same_map),
        ground (arith, f.same_capacity),
        ground (arith, f.refreshed j),
      )

module _ (epoll : Epoll) where
  open epoll use {K, interest}

  refreshed-InSync :
      (p q : EPollPoller K) (revents : ℕ → ℕ)
      → q.kernel ≡ p.kernel
      → q.channels ≡ p.channels
      → ((j : ℕ) → q.channel j ≡ set_revents (p.channel j) (revents j))
      → InSync epoll p
      → InSync epoll q
  refreshed-InSync p q revents k m c a = record {
    distinct = subst Distinct (sym m) a.distinct;
    watched = λ id h. ground (arith, k, c id, a.watched id);
    only = λ fd events id h. ground (arith, k, c id, a.only fd events id);
    mapped = λ id h. ground (arith, m, c id, a.mapped id);
    listed = λ fd id h. ground (arith, m, c id, a.listed fd id);
  }

  Watched-AreAdded :
      (p q : EPollPoller K) (reported : List (ℕ × ℕ))
      → ((j : ℕ) → (q.channel j).index ≡ (p.channel j).index)
      → InSync epoll p
      → Watched epoll p reported
      → AreAdded q (map (λ r. r.1) reported)
  Watched-AreAdded p q [] same a seen = tt
  Watched-AreAdded p q ((events, id) ∷ reported) same a ((fd, wanted, e), seen) =
      (ground (arith, same id, a.only fd wanted id e), Watched-AreAdded p q reported same a seen)

  -- Poll, given reports about watched channels, no more than the list of events has room for,
  -- returns these channels in order, all of them added, sets the received events of each channel
  -- to the last reported ones and changes nothing else of any channel, keeps the kernel, map and
  -- indices in step, and leaves room for at least one event more than were reported.
  pub poll-reports :
      (p : EPollPoller K) (reported : List (ℕ × ℕ)) (j : ℕ)
      → InSync epoll p
      → Watched epoll p reported
      → length reported ≤ p.capacity
      → 0 < p.capacity
      → ((poll p reported).0 ≡ map (λ r. r.1) reported)
        × AreAdded (poll p reported).1 (poll p reported).0
        × ((poll p reported).1.channel j
            ≡ set_revents (p.channel j) (latest reported j (p.channel j).revents))
        × InSync epoll (poll p reported).1
        × (length reported < (poll p reported).1.capacity)
  poll-reports p reported j a seen fits positive =
      let q : EPollPoller K = (poll p reported).1 in
      let f = poll-fields p reported j in
      (
        f.0,
        subst (AreAdded q) (sym f.0) (
            Watched-AreAdded p q reported (λ i. ap (λ c. c.index) (poll-fields p reported i).4) a
              seen),
        f.4,
        refreshed-InSync p q (λ i. latest reported i (p.channel i).revents) f.1 f.2
            (λ i. (poll-fields p reported i).4) a,
        ground (arith, f.3),
      )
