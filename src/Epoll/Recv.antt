-- ===== src/Epoll/Recv.antt =====
-- What `handle_recv` of socket_test/tcp_epoll_server_v1.c does with the bytes of a recv(); the text of
-- socket_test/tcp_epoll_server_v2.c is the same.
use linux_system_programing.Prelude.{
  ℕ, zero, suc, ◌+◌, ◌≡◌, refl, ap, List, ◌∷◌, length, get_or, Option, none, some, ltb, lt→ltb,
  ◌==◌, if◌then◌else◌, add_u64, sub_u64, Bool-cases, inl, inr, arith, Option-cases,
}
use linux_system_programing.Bytes.{blit, slice, shift_down}
use linux_system_programing.Lines.{newline}
use linux_system_programing.Kernel.{bytes}
use linux_system_programing.Echo.Client.{
  Client, Ret, ok, failed, scan, move_line, echo_lines, append_received, fill, take_in, handle_recv,
}

-- sizeof(recv_message) and sizeof(send_buf)
abbrev pub buf_size : ℕ
buf_size = 4096

-- `msg_len`, searched for from index `i` on in the `n` bytes that are left.
unfoldable pub find_message : List ℕ → ℕ → ℕ → Option ℕ
find_message recv_message zero i = none
find_message recv_message (suc n) i =
    let rest = find_message recv_message n (i + 1) in
    if get_or recv_message i 0 == newline then some (i + 1) else rest

-- memcpy() of a message to `send_buf`, and memmove() of what follows it to the start.
unfoldable pub queue_message : ℕ → Client → Client
queue_message msg_len c =
    let queued : Client = record c {
      send_buf = blit c.send_buf c.send_len (slice c.recv_message 0 msg_len);
      send_len = add_u64 c.send_len msg_len;
    } in
    record queued {
      recv_message = shift_down queued.recv_message msg_len (sub_u64 queued.used msg_len);
      used = sub_u64 queued.used msg_len;
    }

-- The loop over the messages; each takes a byte at least from `used`.
unfoldable pub queue_messages : ℕ → Client → Client × Ret
queue_messages zero c = (c, ok)
queue_messages (suc fuel) c = elim (find_message c.recv_message c.used 0) [
  | none ↦ (c, ok)
  | some msg_len ↦
      let rest = queue_messages fuel (queue_message msg_len c) in
      if ltb buf_size (add_u64 c.send_len msg_len) then (c, failed) else rest
]

-- recv() has written `xs`, of `n > 0` bytes, to `recv_buf`.
unfoldable pub recv_bytes : List ℕ → Client → Client × Ret
recv_bytes xs c =
    let n = length xs in
    let filled : Client = record c { recv_buf = blit c.recv_buf 0 xs } in
    let stored : Client = record filled {
      recv_message = blit filled.recv_message filled.used (slice filled.recv_buf 0 n);
      used = add_u64 filled.used n;
    } in
    if ltb buf_size (add_u64 c.used n)
    then (filled, failed)
    else queue_messages (suc stored.used) stored

find_message-eq : (buf : List ℕ) (n i : ℕ) → find_message buf n i ≡ scan buf n i
unfolding find_message scan
find_message-eq buf zero i = refl
find_message-eq buf (suc n) i =
    ap (λ r. if get_or buf i 0 == newline then some (i + 1) else r) (find_message-eq buf n (i + 1))

queue_messages-eq : (fuel : ℕ) (c : Client) → queue_messages fuel c ≡ echo_lines fuel c
unfolding queue_messages echo_lines queue_message move_line
queue_messages-eq zero c = refl
queue_messages-eq (suc fuel) c = elim (Option-cases (scan c.recv_message c.used 0)) [
  | inl e ↦ rw (find_message-eq c.recv_message c.used 0, e, queue_messages, echo_lines) refl
  | inr (m, e) ↦ elim (Bool-cases (ltb buf_size (add_u64 c.send_len m))) [
    | inl over ↦
        rw (find_message-eq c.recv_message c.used 0, e, over, queue_messages, echo_lines) refl
    | inr room ↦
        rw (find_message-eq c.recv_message c.used 0, e, room, queue_messages, echo_lines)
          (queue_messages-eq fuel (move_line m c))
  ]
]

-- The two servers treat received bytes alike.
pub recv_bytes-eq :
    (x : ℕ) (xs : List ℕ) (c : Client) → recv_bytes (x ∷ xs) c ≡ handle_recv (bytes (x ∷ xs)) c
unfolding recv_bytes handle_recv fill take_in append_received
recv_bytes-eq x xs c =
    let some_bytes = lt→ltb 0 (length (x ∷ xs)) (omega arith) in
    elim (Bool-cases (ltb buf_size (add_u64 c.used (length (x ∷ xs))))) [
      | inl over ↦ rw (over, some_bytes) refl
      | inr room ↦
          rw (room, some_bytes)
            (queue_messages-eq (suc (add_u64 c.used (length (x ∷ xs))))
              (append_received (length (x ∷ xs)) (fill (x ∷ xs) c)))
    ]
