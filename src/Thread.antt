-- ===== src/Thread.antt =====
-- mymuduo/Thread.cpp: the life of a thread object, and the names of threads. `created` is the static
-- counter `numCreated_`; the semaphore makes `start` return behind the assignment of `tid_`, which the
-- new thread makes.
use my_testserver.Prelude.{
  ℕ, ◌+◌, ◌^◌, ◌<◌, ◌≡◌, sym, ap, ◌∙◌, Bool, true, false, not, ◌&&◌, ◌++◌, take, drop, Bytes, codes,
  is_empty, if◌then◌else◌, arith, take_of_le, drop-append_self, length-append,
}
use my_testserver.Prelude.Int.{pos, to_string, to_string_injective, length-to_string_le}

pub record Thread : Type 0 where
  pub started : Bool
  pub joined : Bool
  pub detached : Bool
  pub tid : ℕ
  pub name : Bytes

-- `buf`, of 32 bytes with the closing zero.
unfoldable pub default_name : ℕ → Bytes
default_name num = take 31 (codes "Thread" ++ to_string (pos num))

-- `setDefaultName`, with the counter.
unfoldable pub set_default_name : ℕ → Thread → ℕ × Thread
unfolding default_name
set_default_name created t =
    (created + 1, if is_empty t.name then record t { name = default_name created } else t)

-- The constructor.
unfoldable pub create_thread : ℕ → Bytes → ℕ × Thread
unfolding set_default_name
create_thread created name =
    set_default_name created
      (record { started = false; joined = false; detached = false; tid = 0; name = name })

-- `start`, with the identifier that the new thread has.
unfoldable pub start : Thread → ℕ → Thread
start t tid = record t { started = true; tid = tid }

unfoldable pub join : Thread → Thread
join t = record t { joined = true }

-- The destructor.
unfoldable pub destroy : Thread → Thread
destroy t = if t.started && not t.joined then record t { detached = true } else t

-- The name is not cut.
whole_name : (num : ℕ) → num < 2 ^ 31 → default_name num ≡ codes "Thread" ++ to_string (pos num)
unfolding default_name
whole_name num small = take_of_le 31 (codes "Thread" ++ to_string (pos num)) (
    omega (
      arith,
      length-append (codes "Thread") (to_string (pos num)),
      length-to_string_le 9 num (omega arith),
    ))

-- Two threads that are created without a name do not get the same one.
pub default_name_injective :
    (i j : ℕ) → i < 2 ^ 31 → j < 2 ^ 31 → default_name i ≡ default_name j → i ≡ j
default_name_injective i j hi hj e =
    let whole = sym (whole_name i hi) ∙ e ∙ whole_name j hj in
    to_string_injective i j (
      sym (drop-append_self (codes "Thread") (to_string (pos i)))
      ∙ ap (drop 6) whole
      ∙ drop-append_self (codes "Thread") (to_string (pos j)))
