-- ===== src/ThreadPool/Turns.antt =====
-- EventLoopThreadPool::getNextLoop, called again and again.
use native.Mathlib.Nat.{mod-lt, suc-mod, mod-eq_of_lt, mod_self}
use my_testserver.Prelude.{
  ℕ, zero, suc, ◌+◌, ◌%◌, ◌<◌, ◌≡◌, Option, refl, sym, ap, ap₂, subst, ◌∙◌, inl, inr, length,
  get_or, leb, if◌then◌else◌, arith, Bool-cases,
}
use my_testserver.ThreadPool.{
  EventLoopThreadPool, create_pool, set_thread_num, start_loops, start_pool, get_next_loop,
}

-- The pool after `n` calls of `getNextLoop`.
unfoldable pub advance : EventLoopThreadPool → ℕ → EventLoopThreadPool
advance pool zero = pool
advance pool (suc n) = (get_next_loop (advance pool n)).1

-- The loops as `start` gets them from the threads.
abbrev pub running : ℕ → ℕ → Option ℕ → (ℕ → ℕ) → EventLoopThreadPool
running base n init start_loop = start_pool (set_thread_num (create_pool base) n) init start_loop

length-start_loops : (start_loop : ℕ → ℕ) (n i : ℕ) → length (start_loops start_loop n i) ≡ n
unfolding start_loops
length-start_loops start_loop zero i = refl
length-start_loops start_loop (suc n) i = omega (arith, length-start_loops start_loop n (i + 1))

get_or-start_loops :
    (start_loop : ℕ → ℕ) (n i k base : ℕ)
    → k < n
    → get_or (start_loops start_loop n i) k base ≡ start_loop (i + k)
unfolding start_loops
get_or-start_loops start_loop zero i k base h = absurd (omega arith)
get_or-start_loops start_loop (suc n) i zero base h = ap start_loop (omega arith)
get_or-start_loops start_loop (suc n) i (suc k) base h =
    get_or-start_loops start_loop n (i + 1) k base (omega arith) ∙ ap start_loop (omega arith)

-- A turn: the next index, round and round.
next_turn : (m k : ℕ) → 0 < m → (if leb m (k % m + 1) then 0 else k % m + 1) ≡ suc k % m
next_turn m k p = elim (Bool-cases (leb m (k % m + 1))) [
  | inl e ↦ rw e (
      sym (
        suc-mod k m
        ∙ ap (λ x. x % m) {x = suc (k % m)} {y = m} (ground (arith, mod-lt k p))
        ∙ mod_self m))
  | inr e ↦ rw e (sym (suc-mod k m ∙ mod-eq_of_lt (ground (arith, mod-lt k p)) ∙ same))
]
  where
    same : suc (k % m) ≡ k % m + 1
    same = omega arith

taking :
    (pool : EventLoopThreadPool)
    → 0 < length pool.loops
    → get_next_loop pool ≡ (
      get_or pool.loops pool.next pool.base_loop,
      record pool { next = if leb (length pool.loops) (pool.next + 1) then 0 else pool.next + 1 },
    )
unfolding get_next_loop
taking pool h = ground arith

advance-fields :
    (pool : EventLoopThreadPool) (k : ℕ)
    → 0 < length pool.loops
    → pool.next ≡ 0
    → ((advance pool k).loops ≡ pool.loops)
      × ((advance pool k).base_loop ≡ pool.base_loop)
      × ((advance pool k).next ≡ k % length pool.loops)
unfolding advance
advance-fields pool zero h z = (refl, refl, z ∙ sym (mod-eq_of_lt h))
advance-fields pool (suc k) h z =
    let (same, base, at) = advance-fields pool k h z in
    let step = taking (advance pool k) (subst (λ loops. 0 < length loops) (sym same) h) in
    (
      ap (λ r. r.1.loops) step ∙ same,
      ap (λ r. r.1.base_loop) step ∙ base,
      ap (λ r. r.1.next) step
          ∙ ap₂ (λ loops i. if leb (length loops) (i + 1) then 0 else i + 1) same at
          ∙ next_turn (length pool.loops) k h,
    )

-- With n threads, n above 0, the call number k of getNextLoop, counted from 0, returns the loop
-- of thread k modulo n.
pub get_next_loop_turns :
    (base n k : ℕ) (init : Option ℕ) (start_loop : ℕ → ℕ)
    → 0 < n
    → (get_next_loop (advance (running base n init start_loop) k)).0 ≡ start_loop (k % n)
unfolding start_pool set_thread_num create_pool
get_next_loop_turns base n k init start_loop p =
    let pool = running base n init start_loop in
    let size = length-start_loops start_loop n 0 in
    let some_loops : 0 < length pool.loops = omega (arith, size) in
    let (same, base_same, at) = advance-fields pool k some_loops refl in
    ap (λ r. r.0)
      (taking (advance pool k) (subst (λ loops. 0 < length loops) (sym same) some_loops))
    ∙ ap₂ (λ loops i. get_or loops i (advance pool k).base_loop) same (at ∙ ap (λ m. k % m) size)
    ∙ get_or-start_loops start_loop n 0 (k % n) (advance pool k).base_loop (mod-lt k p)
    ∙ ap start_loop (omega arith)
