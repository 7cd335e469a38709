-- ===== src/Poller.antt =====
-- mymuduo/EPollPoller.cpp and mymuduo/Poller.cpp: which channels the kernel watches. Channels are
-- shared: a name, the address of the object, leads to one through `channel`.
pub mod Kernel
pub mod Registry
pub mod Changes
pub mod Calls
pub mod Reports
pub mod Toy
mod Tests
use my_testserver.Prelude.Keys.{number_keys}
use my_testserver.Prelude.{
  ℕ, ◌+◌, ◌*◌, Bool, true, false, Option, none, some, List, [], ◌∷◌, ◌++◌, length, ◌==◌, ==_iff,
  ltb, if◌then◌else◌,
}
use my_testserver.Prelude.Assoc.{get, assign, erase}
use my_testserver.Channel.{
  Index, new, added, deleted, Channel, set_index, set_revents, is_none_event, with_reading,
  without_reading, with_writing, without_writing, none_event,
}
use my_testserver.Poller.Kernel.{Epoll, Op, ctl_add, ctl_mod, ctl_del}

-- `capacity` is the size of `events_`.
pub record EPollPoller (K : Type 0) : Type 0 where
  pub kernel : K
  pub channels : List (ℕ × ℕ)
  pub channel : ℕ → Channel
  pub capacity : ℕ

abbrev pub init_event_list_size : ℕ
init_event_list_size = 16

module _ {K : Type 0} where
  -- The constructor, with a new epoll instance and the channels that will come to be.
  abbrev pub create_poller : K → (ℕ → Channel) → EPollPoller K
  create_poller kernel channel = record {
    kernel = kernel;
    channels = [];
    channel = channel;
    capacity = init_event_list_size;
  }

  abbrev pub set_channel : EPollPoller K → ℕ → Channel → EPollPoller K
  set_channel p id c = record p { channel = λ other. if other == id then c else p.channel other }

  -- `hasChannel`.
  unfoldable pub has_channel : EPollPoller K → ℕ → Bool
  has_channel p id = elim (get p.channels (p.channel id).fd) [
    | none ↦ false
    | some found ↦ found == id
  ]

  -- The loop of `fillActiveChannels`, over the events that were reported, each with its channel.
  unfoldable pub fill_active_channels :
      EPollPoller K → List (ℕ × ℕ) → List ℕ → List ℕ × EPollPoller K
  fill_active_channels p [] active = (active, p)
  fill_active_channels p ((events, id) ∷ reported) active =
      fill_active_channels (set_channel p id (set_revents (p.channel id) events)) reported
        (active ++ (id ∷ []))

  -- `poll`, with the events that `epoll_wait` reported; none on a timeout or an error.
  unfoldable pub poll : EPollPoller K → List (ℕ × ℕ) → List ℕ × EPollPoller K
  unfolding fill_active_channels
  poll p reported =
      if ltb 0 (length reported)
      then (let (active, p') = fill_active_channels p reported [] in
          (
            active,
            if length reported == p'.capacity then record p' { capacity = p'.capacity * 2 } else p',
          ))
      else ([], p)

module _ (epoll : Epoll) where
  open epoll use {K, ctl}

  -- `update`: a failed EPOLL_CTL_DEL is logged, any other failure exits.
  unfoldable pub update : EPollPoller K → Op → ℕ → Option (EPollPoller K)
  update p op id =
      let c = p.channel id in
      let (ok, kernel) = ctl p.kernel op c.fd c.events id in
      let p' : EPollPoller K = record p { kernel = kernel } in
      if ok then some p' else elim op [ ctl_del ↦ some p' | ctl_add ↦ none | ctl_mod ↦ none ]

  -- `updateChannel`, for each value of the index.
  unfoldable pub add_channel : EPollPoller K → ℕ → Option (EPollPoller K)
  unfolding update
  add_channel p id = update (set_channel p id (set_index (p.channel id) added)) ctl_add id

  mark_deleted : ℕ → Option (EPollPoller K) → Option (EPollPoller K)
  mark_deleted id none = none
  mark_deleted id (some p) = some (set_channel p id (set_index (p.channel id) deleted))

  update_at : Index → EPollPoller K → ℕ → Option (EPollPoller K)
  unfolding add_channel update mark_deleted
  update_at new p id =
      add_channel (record p { channels = assign p.channels (p.channel id).fd id }) id
  update_at deleted p id = add_channel p id
  update_at added p id =
      if is_none_event (p.channel id)
      then mark_deleted id (update p ctl_del id)
      else update p ctl_mod id

  unfoldable pub update_channel : EPollPoller K → ℕ → Option (EPollPoller K)
  unfolding update_at
  update_channel p id = update_at (p.channel id).index p id

  mark_new : ℕ → Option (EPollPoller K) → Option (EPollPoller K)
  mark_new id none = none
  mark_new id (some p) = some (set_channel p id (set_index (p.channel id) new))

  remove_at : Index → EPollPoller K → ℕ → Option (EPollPoller K)
  unfolding update
  remove_at added p id = update p ctl_del id
  remove_at new p id = some p
  remove_at deleted p id = some p

  unfoldable pub remove_channel : EPollPoller K → ℕ → Option (EPollPoller K)
  unfolding mark_new remove_at
  remove_channel p id =
      let p' : EPollPoller K = record p { channels = erase p.channels (p.channel id).fd } in
      mark_new id (remove_at (p.channel id).index p' id)

  -- `Channel::enableReading` and its kin: new events, and `update`.
  unfoldable pub change_events : (ℕ → ℕ) → EPollPoller K → ℕ → Option (EPollPoller K)
  unfolding update_channel
  change_events change p id =
      let c = p.channel id in
      update_channel (set_channel p id (record c { events = change c.events })) id

  abbrev pub enable_reading : EPollPoller K → ℕ → Option (EPollPoller K)
  enable_reading p id = change_events with_reading p id

  abbrev pub disable_reading : EPollPoller K → ℕ → Option (EPollPoller K)
  disable_reading p id = change_events without_reading p id

  abbrev pub enable_writing : EPollPoller K → ℕ → Option (EPollPoller K)
  enable_writing p id = change_events with_writing p id

  abbrev pub disable_writing : EPollPoller K → ℕ → Option (EPollPoller K)
  disable_writing p id = change_events without_writing p id

  abbrev pub disable_all : EPollPoller K → ℕ → Option (EPollPoller K)
  disable_all p id = change_events (λ events. none_event) p id
