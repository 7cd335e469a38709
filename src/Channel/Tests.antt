-- ===== src/Channel/Tests.antt =====
-- A connection with three bytes to write, met by events of its channel.
use my_testserver.Prelude.{refl, true, [], ◌∷◌, ◌++◌, replicate}
use my_testserver.Buffer.{moved}
use my_testserver.Net.{connected}
use my_testserver.Connection.{Connection, room, create}
use my_testserver.Channel.{Channel, create_channel, handle_event}
use my_testserver.Channel.Closing.{closing, Outcome, handle_event_closes}
use my_testserver.Channel.Events.{connection_callbacks}

abbrev writer : Connection
writer = record create {
  state = connected;
  writing = true;
  output = record {
    store = replicate 8 0 ++ (1 ∷ 2 ∷ 3 ∷ []);
    reader_index = 8;
    writer_index = 11;
  };
}

-- EPOLLIN and EPOLLOUT.
abbrev both : Channel
both = record (create_channel 7) { events = 7; revents = 5; tied = true }

handle_event_closes_example :
    Outcome
      (closing both true (moved []))
      writer
      (handle_event both true (connection_callbacks (moved []) (room 2)) writer)
handle_event_closes_example = handle_event_closes both true (moved []) (room 2) writer refl
