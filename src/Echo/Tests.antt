-- ===== src/Echo/Tests.antt =====
-- An echo of two reads, the first written at once, the second later.
use my_testserver.Prelude.{◌≡◌, refl, List, [], ◌∷◌, ◌++◌, Bytes, arith, replicate}
use my_testserver.Net.{connected}
use my_testserver.Connection.{Connection, Write, room, would_block, create}
use my_testserver.Connection.Stream.{given}
use my_testserver.Buffer.{Buffer, readable}
use my_testserver.Echo.{serve}
use my_testserver.Echo.Stream.{IsReady, received, serve-echoes}

abbrev small : Buffer
small = record { store = replicate 12 0; reader_index = 8; writer_index = 8 }

abbrev caller : Connection
caller = record create { state = connected; input = small; output = small }

caller-IsReady : IsReady caller
unfolding create readable
caller-IsReady = record {
  sound = record {
    valid = omega arith;
    interest = λ up. refl;
    drained = λ shut. absurd (ground arith);
  };
  valid = omega arith;
  empty = refl;
  up = refl;
}

abbrev reads : List (Bytes × Write)
reads = (1 ∷ 2 ∷ [], room 2) ∷ (3 ∷ 4 ∷ 5 ∷ [], would_block) ∷ []

serve-echoes_example :
    IsReady (serve caller reads) × (given (serve caller reads) ≡ given caller ++ received reads)
serve-echoes_example =
    serve-echoes reads caller-IsReady (omega arith, refl, (omega arith, refl, tt)) (omega arith)
      (omega arith)
