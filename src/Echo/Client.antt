-- ===== src/Echo/Client.antt =====
-- `struct Client`, `handle_recv` and `handle_send` of socket_test/tcp_select_server_v2.c.
use linux_system_programing.Prelude.{
  ℕ, zero, suc, ◌+◌, List, length, get_or, replicate, Option, none, some, true, false, ◌==◌, ltb,
  if◌then◌else◌, add_u64, sub_u64,
}
use linux_system_programing.Bytes.{blit, slice, shift_down}
use linux_system_programing.Lines.{newline}
use linux_system_programing.Kernel.{
  Fd, Received, bytes, recv_error, Sent, took, send_error, eintr, would_block,
}

-- sizeof(recv_buf), and sizeof(recv_message) = sizeof(send_buf)
abbrev pub recv_size : ℕ
recv_size = 1024

abbrev pub buf_size : ℕ
buf_size = 4096

pub record Client : Type 0 where
  pub client_fd : Fd
  pub recv_buf : List ℕ
  pub recv_message : List ℕ
  pub used : ℕ
  pub send_buf : List ℕ
  pub send_len : ℕ
  pub send_offset : ℕ

-- An `int` that a handler returns: -1, 0 or 1.
pub data Ret : Type 0 where
  failed ok done : Ret

-- one element of `_init_client`
unfoldable pub init_client : Client
init_client = record {
  client_fd = none;
  recv_buf = replicate recv_size 0;
  recv_message = replicate buf_size 0;
  used = 0;
  send_buf = replicate buf_size 0;
  send_len = 0;
  send_offset = 0;
}

-- The search for a newline from index `i` on, with `k` bytes to go; the result counts the newline.
unfoldable pub scan : List ℕ → ℕ → ℕ → Option ℕ
scan buf zero i = none
scan buf (suc k) i =
    let rest = scan buf k (i + 1) in if get_or buf i 0 == newline then some (i + 1) else rest

-- One message of `m` bytes goes to the end of `send_buf`, and out of `recv_message`.
unfoldable pub move_line : ℕ → Client → Client
move_line m c = record c {
  send_buf = blit c.send_buf c.send_len (slice c.recv_message 0 m);
  send_len = add_u64 c.send_len m;
  recv_message = shift_down c.recv_message m (sub_u64 c.used m);
  used = sub_u64 c.used m;
}

-- The loop over the messages. Each round takes a byte at least from `used`, so `used + 1` rounds are
-- enough (`Copy.echo_lines-Copied`).
unfoldable pub echo_lines : ℕ → Client → Client × Ret
echo_lines zero c = (c, ok)
echo_lines (suc fuel) c = elim (scan c.recv_message c.used 0) [
  | none ↦ (c, ok)
  | some m ↦ elim (ltb buf_size (add_u64 c.send_len m)) [
    | true ↦ (c, failed)
    | false ↦ echo_lines fuel (move_line m c)
  ]
]

-- recv() writes to `recv_buf`.
unfoldable pub fill : List ℕ → Client → Client
fill xs c = record c { recv_buf = blit c.recv_buf 0 xs }

-- `n` received bytes go to the end of `recv_message`.
unfoldable pub append_received : ℕ → Client → Client
append_received n c = record c {
  recv_message = blit c.recv_message c.used (slice c.recv_buf 0 n);
  used = add_u64 c.used n;
}

-- What follows a recv() of `n > 0` bytes, up to the end of the message loop.
unfoldable pub take_in : ℕ → Client → Client × Ret
take_in n c =
    if ltb buf_size (add_u64 c.used n)
    then (c, failed)
    else let c' = append_received n c in echo_lines (suc c'.used) c'

unfoldable pub handle_recv : Received → Client → Client × Ret
handle_recv (bytes xs) c =
    if ltb 0 (length xs) then take_in (length xs) (fill xs c) else (fill xs c, failed)
handle_recv (recv_error e) c = if would_block e then (c, ok) else (c, failed)

-- The bytes that send() is offered.
abbrev pub offered : Client → List ℕ
offered c = slice c.send_buf c.send_offset (sub_u64 c.send_len c.send_offset)

-- `n` more bytes are sent; once all are, both counters start again.
unfoldable pub advance : ℕ → Client → Client
advance n c =
    if c.send_len == add_u64 c.send_offset n
    then record c { send_len = 0; send_offset = 0 }
    else record c { send_offset = add_u64 c.send_offset n }

unfoldable pub handle_send : Sent → Client → Client × Ret
handle_send (took n) c =
    if c.send_len == c.send_offset
    then (c, ok)
    else if ltb 0 n
    then (advance n c, ok)
    else (c, failed)
handle_send (send_error e) c =
    if c.send_len == c.send_offset
    then (c, ok)
    else if would_block e
    then (c, ok)
    else if e == eintr
    then (c, ok)
    else (c, failed)
