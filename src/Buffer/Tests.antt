-- ===== src/Buffer/Tests.antt =====
-- Runs of Buffer.cpp, and the theorems about it at inputs that meet their hypotheses.
use my_testserver.Prelude.{◌≡◌, refl, List, [], ◌∷◌, arith, write_at}
use my_testserver.Buffer.{Buffer, readable}
use my_testserver.Buffer.Valid.{IsValid}
use my_testserver.Buffer.Queue.{
  Op, appends, receives, retrieves, takes_all, run, run_queue, run_refines,
}

-- A vector of twelve bytes with "ab" behind the prepended eight, and one more byte used up.
abbrev small : Buffer
small = record {
  store = 0 ∷ 0 ∷ 0 ∷ 0 ∷ 0 ∷ 0 ∷ 0 ∷ 0 ∷ 9 ∷ 97 ∷ 98 ∷ 0 ∷ [];
  reader_index = 9;
  writer_index = 11;
}

small-IsValid : IsValid small
small-IsValid = omega arith

abbrev script : List Op
script = appends (1 ∷ 2 ∷ []) ∷ retrieves 1 ∷ receives (3 ∷ []) ∷ takes_all ∷ []

run-small : (run small script).0 ≡ (98 ∷ 1 ∷ 2 ∷ 3 ∷ []) ∷ []
unfolding run write_at
run-small = refl

run_refines_example :
    let (outs, last) = run small script in (outs, readable last) ≡ run_queue (readable small) script
run_refines_example = run_refines script small-IsValid (omega arith)
