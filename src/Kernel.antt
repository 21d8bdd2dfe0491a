-- ===== src/Kernel.antt =====
-- What the programs see of the kernel: the results of system calls, which every handler takes as
-- arguments, and the `errno` values that they tell apart (those of Linux).
use linux_system_programing.Prelude.{ℕ, Option, List, Bool, ◌==◌, ◌||◌}

-- A descriptor; -1 is `none`.
abbrev pub Fd : Type 0
Fd = Option ℕ

-- A result of recv(): the bytes that it wrote to the buffer, in the place of their number (0 bytes
-- are the end of the stream), or -1 with `errno`.
pub data Received : Type 0 where
  bytes : List ℕ → Received
  recv_error : ℕ → Received

-- A result of send(): how many bytes it took, or -1 with `errno`.
pub data Sent : Type 0 where
  took : ℕ → Sent
  send_error : ℕ → Sent

abbrev pub eintr : ℕ
eintr = 4

abbrev pub eagain : ℕ
eagain = 11

-- EWOULDBLOCK is EAGAIN on Linux.
abbrev pub ewouldblock : ℕ
ewouldblock = eagain

abbrev pub would_block : ℕ → Bool
would_block e = e == eagain || e == ewouldblock
