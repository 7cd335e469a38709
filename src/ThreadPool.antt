-- ===== src/ThreadPool.antt =====
-- mymuduo/EventLoopThreadPool.cpp: which loop the next connection gets. A loop is named by a
-- number; the threads themselves are left out.
pub mod Turns
use my_testserver.Prelude.{
  ℕ, zero, suc, ◌+◌, Bool, true, false, Option, none, some, List, [], ◌∷◌, ◌++◌, map, length,
  get_or, leb, ◌==◌, if◌then◌else◌,
}

pub record EventLoopThreadPool : Type 0 where
  pub base_loop : ℕ
  pub started : Bool
  pub num_threads : ℕ
  pub next : ℕ
  pub loops : List ℕ
  -- The calls of the callback for new threads, each on its loop.
  pub inits : List (ℕ × ℕ)

unfoldable pub create_pool : ℕ → EventLoopThreadPool
create_pool base = record {
  base_loop = base;
  started = false;
  num_threads = 0;
  next = 0;
  loops = [];
  inits = [];
}

unfoldable pub set_thread_num : EventLoopThreadPool → ℕ → EventLoopThreadPool
set_thread_num pool n = record pool { num_threads = n }

-- What `startLoop` of the threads from number `i` on returns, `n` of them.
unfoldable pub start_loops : (ℕ → ℕ) → ℕ → ℕ → List ℕ
start_loops start_loop zero i = []
start_loops start_loop (suc n) i = start_loop i ∷ start_loops start_loop n (i + 1)

-- The callback, which may be empty, is called in each new thread, and on the base loop if there is
-- none.
abbrev pub init_calls : Option ℕ → List ℕ → List (ℕ × ℕ)
init_calls none loops = []
init_calls (some init) loops = map (λ loop. (init, loop)) loops

unfoldable pub start_pool : EventLoopThreadPool → Option ℕ → (ℕ → ℕ) → EventLoopThreadPool
unfolding start_loops
start_pool pool init start_loop =
    let new_loops = start_loops start_loop pool.num_threads 0 in
    record pool {
      started = true;
      loops = pool.loops ++ new_loops;
      inits =
          pool.inits
          ++ init_calls init (if pool.num_threads == 0 then pool.base_loop ∷ [] else new_loops);
    }

unfoldable pub get_next_loop : EventLoopThreadPool → ℕ × EventLoopThreadPool
get_next_loop pool = elim pool.loops [
  | [] ↦ (pool.base_loop, pool)
  | first ∷ rest ↦ (
    get_or pool.loops pool.next pool.base_loop,
    record pool { next = if leb (length pool.loops) (pool.next + 1) then 0 else pool.next + 1 },
  )
]

unfoldable pub get_all_loops : EventLoopThreadPool → List ℕ
get_all_loops pool = elim pool.loops [ [] ↦ pool.base_loop ∷ [] | first ∷ rest ↦ pool.loops ]
