-- ===== src/Poller/Tests.antt =====
-- A poller of EPollPoller.cpp over an epoll that is a function, and the theorems at inputs that meet
-- their hypotheses.
use my_testserver.Prelude.Keys.{number_keys}
use my_testserver.Prelude.{
  ◌+◌, ◌≡◌, refl, ◌<◌, none, some, List, [], ◌∷◌, ◌==◌, arith, replicate, if◌then◌else◌, ==_iff,
}
use my_testserver.Prelude.Assoc.{get, has, assign}
use my_testserver.Channel.{create_channel, set_revents, added}
use my_testserver.Poller.Toy.{Entries, entries, entries-IsLawful, put}
use my_testserver.Poller.{
  EPollPoller, create_poller, change_events, update_channel, update, add_channel, remove_channel,
  poll,
}
use my_testserver.Connection.{Connection, create, room}
use my_testserver.Connection.Interest.{Act, closes, destroys, writable, sends, act_all, awaited}
use my_testserver.Connection.Mirror.{Mirrors, live_established, established, live-Mirrors}
use my_testserver.Connection.Waiting.{IsNew}
use my_testserver.Poller.Reports.{poll-reports, AreAdded, latest}
use my_testserver.Poller.Registry.{InSync}
use my_testserver.Poller.Calls.{
  make_call, Call, enables_reading, enables_writing, disables_all, removes, run, Ready, run-InSync,
}

-- Channel `id` is for descriptor `id + 3`, and has not been used.
abbrev idle : EPollPoller Entries
idle = create_poller (λ fd. none) (λ id. create_channel (id + 3))

idle-InSync : InSync entries idle
unfolding get
idle-InSync = record {
  distinct = tt;
  watched = λ id h. absurd (ground arith);
  only = λ fd events id h. absurd (ground arith);
  mapped = λ id h. absurd (ground arith);
  listed = λ fd id h. absurd (ground arith);
}

abbrev life : List Call
life = enables_reading 0 ∷ enables_writing 0 ∷ disables_all 0 ∷ enables_reading 1 ∷ removes 0 ∷ []

life-Ready : Ready entries (some idle) life
unfolding make_call change_events update_channel update add_channel remove_channel get assign
life-Ready = (
  λ h. refl,
  (
    λ h. absurd (ground arith),
    (λ h. absurd (ground arith), (λ h. refl, (λ h. absurd (ground arith), tt))),
  ),
)

run-InSync_example : (q : EPollPoller Entries) × (run entries idle life ≡ some q) × InSync entries q
run-InSync_example = run-InSync entries entries-IsLawful idle life idle-InSync life-Ready

-- The poller with channel 0 in use.
abbrev busy : EPollPoller Entries
busy = record {
  kernel = put idle.kernel 3 (some (3, 0));
  channels = (3, 0) ∷ [];
  channel = λ id.
      if id == 0
      then record (create_channel 3) { events = 3; index = added }
      else create_channel (id + 3);
  capacity = 16;
}

busy-InSync : InSync entries busy
unfolding get has
busy-InSync = record {
  distinct = (refl, tt);
  watched = λ id h. ground (arith, h, ==_iff id 0);
  only = λ fd events id h. ground (arith, h, ==_iff id 0);
  mapped = λ id h. ground (arith, h, ==_iff id 0);
  listed = λ fd id h. ground (arith, h, ==_iff id 0);
}

poll-reports_example :
    ((poll busy ((1, 0) ∷ [])).0 ≡ 0 ∷ [])
    × AreAdded (poll busy ((1, 0) ∷ [])).1 (poll busy ((1, 0) ∷ [])).0
    × ((poll busy ((1, 0) ∷ [])).1.channel 0
        ≡ set_revents (busy.channel 0) (latest ((1, 0) ∷ []) 0 0))
    × InSync entries (poll busy ((1, 0) ∷ [])).1
    × (1 < (poll busy ((1, 0) ∷ [])).1.capacity)
poll-reports_example =
    poll-reports entries busy ((1, 0) ∷ []) 0 busy-InSync ((3, 3, refl), tt) (omega arith)
      (omega arith)

-- A connection from its start to its end, with bytes that wait in between.
abbrev acts : List Act
acts = sends (1 ∷ 2 ∷ []) (room 1) ∷ writable (room 1) ∷ closes ∷ destroys ∷ []

idle-Mirrors : Mirrors entries idle 0 0
unfolding create get
idle-Mirrors = record { in_sync = idle-InSync; free = λ h. refl; wants = refl }

-- With a buffer of twelve bytes for output.
abbrev small : Connection
small = record create {
  output = record { store = replicate 12 0; reader_index = 8; writer_index = 8 };
}

small-IsNew : IsNew small
unfolding create
small-IsNew = record {
  valid = omega arith;
  empty = refl;
  deaf = refl;
  silent = refl;
  unshut = refl;
}

live-Mirrors_example :
    (q : EPollPoller Entries) × (live_established entries idle 0 small acts ≡ some q)
    × Mirrors entries q 0 (awaited (act_all (established small) acts))
live-Mirrors_example =
    live-Mirrors entries entries-IsLawful idle 0 small acts idle-Mirrors small-IsNew (omega arith)
