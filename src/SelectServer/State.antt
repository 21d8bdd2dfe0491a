-- ===== src/SelectServer/State.antt =====
-- The variables of `main` in socket_test/tcp_select_server_v2.c, and what the kernel answers in one
-- round of its loop.
use linux_system_programing.Prelude.{
  ℕ, ◌≤◌, ◌≡◌, List, length, Bool, true, false, ◌==◌, if◌then◌else◌,
}
use linux_system_programing.Kernel.{Received, Sent}
use linux_system_programing.Echo.Client.{Client, init_client}
use linux_system_programing.Echo.Recv.{Fits, payload}
use linux_system_programing.Echo.Send.{count}

abbrev pub max_connections : ℕ
max_connections = 256

-- an `fd_set`, by its FD_ISSET
abbrev pub FdSet : Type 0
FdSet = ℕ → Bool

-- FD_ZERO
abbrev pub fd_zero : FdSet
fd_zero _ = false

-- FD_SET and FD_CLR: bit `fd` becomes `b`.
abbrev pub put_bit : FdSet → ℕ → Bool → FdSet
put_bit set fd b j = if j == fd then b else set j

-- one element of an array of clients
abbrev pub put_client : (ℕ → Client) → ℕ → Client → ℕ → Client
put_client table i c j = if j == i then c else table j

-- `is_open` is the kernel's side: the descriptors of the listening socket and of the connections
-- that have been accepted and not closed.
pub record Server : Type 0 where
  pub server_fd : ℕ
  pub client : ℕ → Client
  pub readfds : FdSet
  pub writefds : FdSet
  pub master_read : FdSet
  pub master_write : FdSet
  pub max_fd : ℕ
  pub is_open : FdSet

-- `main` before its loop
unfoldable pub boot : ℕ → Server
boot fd = record {
  server_fd = fd;
  client = λ _. init_client;
  readfds = put_bit fd_zero fd true;
  writefds = fd_zero;
  master_read = put_bit fd_zero fd true;
  master_write = fd_zero;
  max_fd = fd;
  is_open = put_bit fd_zero fd true;
}

-- select(): the sets that it leaves, or -1 with `errno`
pub data Selected : Type 0 where
  ready : FdSet → FdSet → Selected
  select_error : ℕ → Selected

-- accept(): a descriptor, or -1 with `errno`
pub data Accepted : Type 0 where
  accepted : ℕ → Accepted
  accept_error : ℕ → Accepted

-- What the calls of one round return; recv() and send() are asked for each slot, send() with the
-- bytes that it is offered.
pub record Round : Type 0 where
  pub selected : Selected
  pub incoming : Accepted
  pub set_nonblock_fails : Bool
  pub recv : ℕ → Received
  pub send : ℕ → List ℕ → Sent

-- What the handlers rely on: accept() returns a descriptor that is not open, recv() stays inside
-- its buffer and send() takes no more than it is offered.
pub record IsKernel (s : Server) (k : Round) : Type 0 where
  pub fresh : (fd : ℕ) → k.incoming ≡ accepted fd → s.is_open fd ≡ false
  pub recv_fits : (i : ℕ) → Fits (payload (k.recv i))
  pub send_takes : (i : ℕ) (xs : List ℕ) → count (k.send i xs) ≤ length xs
