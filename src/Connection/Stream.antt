-- ===== src/Connection/Stream.antt =====
-- TcpConnection::sendInLoop and handleWrite: what they do to the bytes of the connection.
use my_testserver.Prelude.{
  ℕ, ◌+◌, ◌-◌, ◌^◌, ◌<◌, ◌≤◌, ◌≡◌, refl, sym, ap, subst, ◌∙◌, inl, inr, Bool, true, false, not,
  ◌&&◌, [], ◌∷◌, ◌++◌, length, take, drop, Bytes, ltb, ◌==◌, if◌then◌else◌, arith, append_assoc,
  append-nil, Bool-cases, length-drop, length-append, ap₂, take-append-drop,
}
use my_testserver.Buffer.{Buffer, readable, readable_bytes, append}
use my_testserver.Buffer.Valid.{IsValid, HasPut, append-HasPut, no_wrap, length-readable}
use my_testserver.Net.{StateE, is_connected, connected, connecting, disconnecting, disconnected}
use my_testserver.Connection.{
  Connection, Write, wrote, succeeds, is_fault, complete, mark, wait_for_room, keep_rest, write_now,
  send_connected, send_in_loop, send, send_here,
}

abbrev pub is_down : StateE → Bool
is_down disconnected = true
is_down disconnecting = false
is_down connected = false
is_down connecting = false

-- The channel waits for room exactly while bytes wait, and no byte waits behind a shutdown.
pub record IsSound (c : Connection) : Type 0 where
  pub valid : IsValid c.output
  pub interest : is_down c.state ≡ false → c.writing ≡ not (readable_bytes c.output == 0)
  pub drained : c.shut ≡ true → (readable_bytes c.output ≡ 0) × (is_connected c.state ≡ false)

-- All bytes given so far.
abbrev pub given : Connection → Bytes
given c = c.wire ++ readable c.output

-- `d` takes `bytes` more than `c`.
pub record Takes (c d : Connection) (bytes : Bytes) : Type 0 where
  pub valid : IsValid d.output
  pub holds : given d ≡ given c ++ bytes
  pub grown : length d.output.store ≤ length c.output.store + length bytes
  pub same_state : d.state ≡ c.state
  pub same_shut : d.shut ≡ c.shut

mark-fields :
    (c : Connection) (n : ℕ)
    → ((mark c n).wire ≡ c.wire) × ((mark c n).state ≡ c.state) × ((mark c n).shut ≡ c.shut)
unfolding mark
mark-fields c n = ground arith

pub wait_for_room-fields :
    (c : Connection)
    → ((wait_for_room c).wire ≡ c.wire)
      × ((wait_for_room c).output ≡ c.output)
      × ((wait_for_room c).state ≡ c.state)
      × ((wait_for_room c).shut ≡ c.shut)
      × ((wait_for_room c).writing ≡ true)
unfolding wait_for_room
wait_for_room-fields c = ground arith

keep_some-Takes :
    (c : Connection) (rest : Bytes)
    → IsValid c.output
    → length c.output.store + length rest < 2 ^ 63
    → ltb 0 (length rest) ≡ true
    → Takes c (keep_rest c rest) rest
unfolding keep_rest
keep_some-Takes c rest v h e =
    let p : HasPut c.output (append c.output rest) rest = append-HasPut rest v h in
    let m = mark-fields c (length rest) in
    let f =
      wait_for_room-fields (record (mark c (length rest)) { output = append c.output rest }) in
    rw e (record {
      valid = subst IsValid (sym f.1) p.valid;
      holds =
          ap₂ (λ w b. w ++ readable b) (f.0 ∙ m.0) f.1
          ∙ ap (λ r. c.wire ++ r) p.holds
          ∙ sym (append_assoc c.wire (readable c.output) rest);
      grown = omega (arith, ap (λ b. length b.store) f.1, p.grown);
      same_state = f.2 ∙ m.1;
      same_shut = f.3 ∙ m.2;
    })

nothing-Takes : (c : Connection) → IsValid c.output → Takes c c []
nothing-Takes c v = record {
  valid = v;
  holds = sym (append-nil (given c));
  grown = omega arith;
  same_state = refl;
  same_shut = refl;
}

pub keep_rest-Takes :
    (c : Connection) (rest : Bytes)
    → IsValid c.output
    → length c.output.store + length rest < 2 ^ 63
    → Takes c (keep_rest c rest) rest
unfolding keep_rest
keep_rest-Takes c [] v h = nothing-Takes c v
keep_rest-Takes c (x ∷ rest) v h = keep_some-Takes c (x ∷ rest) v h (ground arith)

-- A first part, and the rest.
Takes-append :
    {c d e : Connection} {first rest : Bytes}
    → Takes c d first
    → Takes d e rest
    → Takes c e (first ++ rest)
Takes-append {c} {d} {e} {first} {rest} p q = record {
  valid = q.valid;
  holds = q.holds ∙ ap (λ g. g ++ rest) p.holds ∙ append_assoc (given c) first rest;
  grown = omega (arith, p.grown, q.grown, length-append first rest);
  same_state = q.same_state ∙ p.same_state;
  same_shut = q.same_shut ∙ p.same_shut;
}

pub nothing_readable : (b : Buffer) → IsValid b → readable_bytes b ≡ 0 → readable b ≡ []
nothing_readable b v h = empty_of (readable b) (omega (arith, length-readable b v, no_wrap v))
  where
    empty_of : (bytes : Bytes) → length bytes ≡ 0 → bytes ≡ []
    empty_of [] e = refl
    empty_of (x ∷ bytes) e = absurd (omega arith)

complete-fields :
    (c : Connection)
    → ((complete c).wire ≡ c.wire)
      × ((complete c).output ≡ c.output)
      × ((complete c).state ≡ c.state)
      × ((complete c).shut ≡ c.shut)
      × ((complete c).writing ≡ c.writing)
unfolding complete
complete-fields c = ground arith

write_now-fields :
    (c : Connection) (bytes : Bytes) (w : Write)
    → ((write_now c bytes w).wire ≡ c.wire ++ take (wrote w (length bytes)) bytes)
      × ((write_now c bytes w).output ≡ c.output)
      × ((write_now c bytes w).state ≡ c.state)
      × ((write_now c bytes w).shut ≡ c.shut)
      × ((write_now c bytes w).writing ≡ c.writing)
unfolding write_now
write_now-fields c bytes w =
    elim (Bool-cases (succeeds w && length bytes - wrote w (length bytes) == 0)) [
      | inl e ↦ rw e (complete-fields _)
      | inr e ↦ rw e (refl, refl, refl, refl, refl)
    ]

pub write_now-Takes :
    (c : Connection) (bytes : Bytes) (w : Write)
    → IsValid c.output
    → readable_bytes c.output ≡ 0
    → Takes c (write_now c bytes w) (take (wrote w (length bytes)) bytes)
write_now-Takes c bytes w v z =
    let f = write_now-fields c bytes w in
    let none_left = nothing_readable c.output v z in
    record {
      valid = subst IsValid (sym f.1) v;
      holds =
          ap₂ (λ a b. a ++ readable b) f.0 f.1
          ∙ ap (λ r. (c.wire ++ take (wrote w (length bytes)) bytes) ++ r) none_left
          ∙ append-nil (c.wire ++ take (wrote w (length bytes)) bytes)
          ∙ ap (λ g. g ++ take (wrote w (length bytes)) bytes)
              (sym (append-nil c.wire) ∙ ap (λ r. c.wire ++ r) (sym none_left));
      grown = omega (arith, ap (λ b. length b.store) f.1);
      same_state = f.2;
      same_shut = f.3;
    }

pub send_connected-Takes :
    (c : Connection) (bytes : Bytes) (w : Write)
    → IsValid c.output
    → length c.output.store + length bytes < 2 ^ 63
    → is_fault w ≡ false
    → Takes c (send_connected c bytes w) bytes
unfolding send_connected
send_connected-Takes c bytes w v h ok =
    elim (Bool-cases (not c.writing && readable_bytes c.output == 0)) [
      | inl e ↦
          let n = wrote w (length bytes) in
          let first = write_now-Takes c bytes w v (ground arith) in
          let rest = keep_rest-Takes (write_now c bytes w) (drop n bytes) first.valid (
            omega (
              arith,
              ap (λ b. length b.store) (write_now-fields c bytes w).1,
              length-drop n bytes,
            )) in
          rw (e, ok) (subst (Takes c _) (take-append-drop n bytes) (Takes-append first rest))
      | inr e ↦ rw e (keep_rest-Takes c bytes v h)
    ]

-- The interest of the channel after what a `send` does.
abbrev pub Interested : Connection → Type 0
Interested c = c.writing ≡ not (readable_bytes c.output == 0)

some_readable : (b : Buffer) → IsValid b → 0 < length (readable b) → (readable_bytes b == 0) ≡ false
some_readable b v h = ground (arith, length-readable b v, no_wrap v)

pub keep_rest-Interested :
    (c : Connection) (rest : Bytes)
    → IsValid c.output
    → length c.output.store + length rest < 2 ^ 63
    → Interested c
    → Interested (keep_rest c rest)
unfolding keep_rest
keep_rest-Interested c rest v h i = elim (Bool-cases (ltb 0 (length rest))) [
  | inl e ↦
      let p : HasPut c.output (append c.output rest) rest = append-HasPut rest v h in
      let f =
        wait_for_room-fields (record (mark c (length rest)) { output = append c.output rest }) in
      rw e (
        f.4
        ∙ sym (
            ap (λ b. not (readable_bytes b == 0)) f.1
            ∙ ap not (
                some_readable (append c.output rest) p.valid
                  (ground (arith, ap length p.holds, length-append (readable c.output) rest)))))
  | inr e ↦ rw e i
]

pub write_now-Interested :
    (c : Connection) (bytes : Bytes) (w : Write) → Interested c → Interested (write_now c bytes w)
write_now-Interested c bytes w i =
    let f = write_now-fields c bytes w in f.4 ∙ i ∙ ap (λ b. not (readable_bytes b == 0)) (sym f.1)

pub send_connected-Interested :
    (c : Connection) (bytes : Bytes) (w : Write)
    → IsValid c.output
    → length c.output.store + length bytes < 2 ^ 63
    → Interested c
    → Interested (send_connected c bytes w)
unfolding send_connected
send_connected-Interested c bytes w v h i =
    elim (Bool-cases (not c.writing && readable_bytes c.output == 0)) [
      | inl e ↦
          let n = wrote w (length bytes) in
          let first = write_now-Takes c bytes w v (ground arith) in
          let now = write_now-Interested c bytes w i in
          elim (Bool-cases (is_fault w)) [
            | inl f ↦ rw (e, f) now
            | inr f ↦
                rw (e, f)
                  (keep_rest-Interested (write_now c bytes w) (drop n bytes) first.valid
                    (omega (
                      arith,
                      ap (λ b. length b.store) (write_now-fields c bytes w).1,
                      length-drop n bytes,
                    ))
                    now)
          ]
      | inr e ↦ rw e (keep_rest-Interested c bytes v h i)
    ]

pub send_in_loop-up :
    (c : Connection) (bytes : Bytes) (w : Write)
    → is_connected c.state ≡ true
    → (send_in_loop c bytes w ≡ send_connected c bytes w) × (is_down c.state ≡ false)
unfolding send_in_loop
send_in_loop-up c bytes w h = ground arith

pub send-Takes :
    (c : Connection) (bytes : Bytes) (w : Write)
    → IsSound c
    → length c.output.store + length bytes < 2 ^ 63
    → is_fault w ≡ false
    → IsSound (send_here c bytes w)
      × Takes c (send_here c bytes w) (if is_connected c.state then bytes else [])
unfolding send
send-Takes c bytes w s h ok = elim (Bool-cases (is_connected c.state)) [
  | inl up ↦
      let (same, not_down) = send_in_loop-up c bytes w up in
      let t = send_connected-Takes c bytes w s.valid h ok in
      let sound : IsSound (send_connected c bytes w) = record {
        valid = t.valid;
        interest = λ d. send_connected-Interested c bytes w s.valid h (s.interest not_down);
        drained = λ shut. absurd (ground (arith, s.drained (sym t.same_shut ∙ shut)));
      } in
      rw (up, same) (sound, t)
  | inr down ↦ rw down (s, nothing-Takes c s.valid)
]
