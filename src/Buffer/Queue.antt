-- ===== src/Buffer/Queue.antt =====
-- Sequences of calls of a buffer, and the same calls on a queue of bytes.
use my_testserver.Prelude.{
  ℕ, ◌+◌, ◌^◌, ◌<◌, ◌≡◌, refl, ap, ◌∙◌, List, [], ◌∷◌, ◌++◌, arith, length, drop, Bytes,
}
use my_testserver.Buffer.{
  Buffer, readable, retrieve, retrieve_all_as_string, append, read_fd, moved,
}
use my_testserver.Buffer.Valid.{
  IsValid, HasPut, append-HasPut, read_fd-HasPut, retrieve-IsValid, length-retrieve,
}
use my_testserver.Buffer.Contents.{readable-retrieve, retrieve_all_as_string_lem}

-- What a connection does with its buffers.
pub data Op : Type 0 where
  appends : Bytes → Op
  receives : Bytes → Op
  retrieves : ℕ → Op
  takes_all : Op

-- The strings that the calls of `retrieveAllAsString` return, and the last buffer.
unfoldable pub run : Buffer → List Op → List Bytes × Buffer
unfolding append read_fd retrieve retrieve_all_as_string
run b [] = ([], b)
run b (appends d ∷ ops) = run (append b d) ops
run b (receives d ∷ ops) = run (read_fd b (moved d)) ops
run b (retrieves n ∷ ops) = run (retrieve b n) ops
run b (takes_all ∷ ops) =
    let (out, c) = retrieve_all_as_string b in let (outs, last) = run c ops in (out ∷ outs, last)

-- The same calls on a plain byte string.
unfoldable pub run_queue : Bytes → List Op → List Bytes × Bytes
run_queue q [] = ([], q)
run_queue q (appends d ∷ ops) = run_queue (q ++ d) ops
run_queue q (receives d ∷ ops) = run_queue (q ++ d) ops
run_queue q (retrieves n ∷ ops) = run_queue (drop n q) ops
run_queue q (takes_all ∷ ops) = let (outs, last) = run_queue [] ops in (q ∷ outs, last)

-- How many bytes the calls put in.
abbrev pub traffic : List Op → ℕ
traffic [] = 0
traffic (appends d ∷ ops) = length d + traffic ops
traffic (receives d ∷ ops) = length d + traffic ops
traffic (retrieves n ∷ ops) = traffic ops
traffic (takes_all ∷ ops) = traffic ops

-- Every sequence of append, readFd, retrieve and retrieveAllAsString on a valid buffer returns
-- the strings, and leaves the readable bytes, of the same calls on a plain queue of bytes, as
-- long as the vector cannot reach 2^63 bytes.
pub run_refines :
    (ops : List Op) {b : Buffer}
    → IsValid b
    → length b.store + traffic ops < 2 ^ 63
    → let (outs, last) = run b ops in (outs, readable last) ≡ run_queue (readable b) ops
unfolding run run_queue
run_refines [] v h = refl
run_refines (appends d ∷ ops) {b} v h =
    let p : HasPut b (append b d) d = append-HasPut d v (omega arith) in
    run_refines ops p.valid (omega (arith, p.grown)) ∙ ap (λ q. run_queue q ops) p.holds
run_refines (receives d ∷ ops) {b} v h =
    let p : HasPut b (read_fd b (moved d)) d = read_fd-HasPut d v (omega arith) in
    run_refines ops p.valid (omega (arith, p.grown)) ∙ ap (λ q. run_queue q ops) p.holds
run_refines (retrieves n ∷ ops) {b} v h =
    run_refines ops (retrieve-IsValid n v) (omega (arith, length-retrieve b n))
    ∙ ap (λ q. run_queue q ops) (readable-retrieve b n v)
run_refines (takes_all ∷ ops) {b} v h =
    let out = retrieve_all_as_string_lem b v in
    let rest = run_refines ops out.2 (omega (arith, out.3)) ∙ ap (λ q. run_queue q ops) out.1 in
    λ i. (out.0 i ∷ (rest i).0, (rest i).1)
