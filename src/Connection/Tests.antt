-- ===== src/Connection/Tests.antt =====
-- A connection of TcpConnection.cpp, run, and the theorems about it at inputs that meet their
-- hypotheses.
use my_testserver.Connection.Elsewhere.{run_deferred, run_deferred_reads}
use my_testserver.Prelude.{
  ◌+◌, false, sym, append-nil, take, ◌≡◌, refl, true, List, [], ◌∷◌, ◌++◌, arith, replicate,
}
use my_testserver.Net.{Net, connected}
use my_testserver.Connection.View.{Happening, net_run, happen_all, events_of}
use my_testserver.Connection.Sent.{Implements, happen_all-Implements}
use my_testserver.Connection.{
  Connection, room, would_block, deferred_send, enqueue, create, handle_write, send, shutdown,
}
use my_testserver.Connection.Stream.{IsSound, given}
use my_testserver.Connection.Run.{
  Event, accepted, run, run-stream, sends, writable, shuts_down, shutdown-delivers,
}

-- Just established, with a buffer of twelve bytes for output.
abbrev fresh : Connection
fresh = record create {
  state = connected;
  output = record { store = replicate 12 0; reader_index = 8; writer_index = 8 };
}

fresh-IsSound : IsSound fresh
unfolding create
fresh-IsSound = record {
  valid = omega arith;
  interest = λ up. refl;
  drained = λ shut. absurd (ground arith);
}

-- Three bytes wait.
abbrev waiting : Connection
waiting = record create {
  state = connected;
  writing = true;
  output = record {
    store = replicate 8 0 ++ (1 ∷ 2 ∷ 3 ∷ []);
    reader_index = 8;
    writer_index = 11;
  };
}

waiting-IsSound : IsSound waiting
unfolding create
waiting-IsSound = record {
  valid = omega arith;
  interest = λ up. refl;
  drained = λ shut. absurd (ground arith);
}

shutdown-delivers_example :
    ((handle_write (shutdown waiting) (room 5)).shut ≡ true)
    × ((handle_write (shutdown waiting) (room 5)).wire ≡ given waiting)
shutdown-delivers_example = shutdown-delivers waiting 5 waiting-IsSound refl (omega arith)

-- The string has gone when the loop runs the call, and other bytes stand in its place.
run_deferred_reads_example :
    (send false fresh 70 (1 ∷ 2 ∷ []) would_block ≡ enqueue fresh (deferred_send 70 2))
    × (given (run_deferred (λ a. 9 ∷ 9 ∷ 9 ∷ 9 ∷ []) fresh 70 2 (room 5))
        ≡ given fresh ++ take 2 (9 ∷ 9 ∷ 9 ∷ 9 ∷ []))
run_deferred_reads_example =
    run_deferred_reads (λ a. 9 ∷ 9 ∷ 9 ∷ 9 ∷ []) fresh fresh 70 (1 ∷ 2 ∷ []) would_block (room 5)
      refl fresh-IsSound refl (omega arith) refl

-- Two connections, of which the first is asked to shut down between two messages to it.
abbrev open_net : Net
open_net = record { state = λ conn. connected; sent = [] }

abbrev two_lives : List Happening
two_lives =
    record { thread = 6; conn = 1; address = 90; event = sends (1 ∷ 2 ∷ []) (room 1) }
    ∷ record { thread = 7; conn = 2; address = 95; event = sends (7 ∷ []) (room 1) }
    ∷ record { thread = 6; conn = 1; address = 0; event = shuts_down }
    ∷ record { thread = 6; conn = 1; address = 90; event = sends (3 ∷ []) (room 1) }
    ∷ record { thread = 6; conn = 1; address = 0; event = writable (room 4) }
    ∷ []

happen_all-Implements_example :
    Implements
      (net_run open_net (events_of two_lives))
      1
      (happen_all (λ conn. conn + 5) (λ conn. fresh) two_lives 1)
      (given fresh)
happen_all-Implements_example =
    happen_all-Implements (λ conn. conn + 5) two_lives open_net (λ conn. fresh) 1 (given fresh)
      (refl, (refl, (refl, (refl, (refl, tt)))))
      (record { sound = fresh-IsSound; same_state = refl; holds = sym (append-nil (given fresh)) })
      (omega arith) ((refl, tt), ((refl, tt), (tt, ((refl, tt), (tt, tt)))))

-- One of them, until all its bytes are on the wire.
abbrev short_life : List Event
short_life = sends (1 ∷ 2 ∷ []) (room 1) ∷ writable (room 4) ∷ shuts_down ∷ []

run-stream_example :
    IsSound (run fresh short_life)
    × (given (run fresh short_life) ≡ given fresh ++ accepted connected short_life)
run-stream_example = run-stream short_life {c = fresh} fresh-IsSound (omega arith) (refl, tt)
