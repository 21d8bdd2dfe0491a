-- ===== src/SelectServer/Steps.antt =====
-- The body of the loop of `main` in socket_test/tcp_select_server_v2.c.
use linux_system_programing.Prelude.{
  ℕ, zero, suc, ◌+◌, Option, none, some, Bool, true, false, ◌==◌, if◌then◌else◌, ltb,
}
use linux_system_programing.Kernel.{eintr}
use linux_system_programing.Echo.Client.{Client, handle_recv, handle_send, offered, Ret, failed}
use linux_system_programing.SelectServer.State.{
  Server, Round, ready, select_error, accepted, accept_error, FdSet, put_bit, put_client,
  max_connections,
}

-- The search of `alloc_client` from `slot` on, with `k` slots to go.
unfoldable pub find_slot : (ℕ → Client) → ℕ → ℕ → Option ℕ
find_slot table zero slot = none
find_slot table (suc k) slot = elim (table slot).client_fd [
  | none ↦ some slot
  | some _ ↦ find_slot table k (slot + 1)
]

-- The slot that `alloc_client` takes for `fd`, and the table with it.
unfoldable pub alloc_client : (ℕ → Client) → ℕ → Option (ℕ × (ℕ → Client))
alloc_client table fd = elim (find_slot table max_connections 0) [
  | none ↦ none
  | some slot ↦ some (slot, put_client table slot (record (table slot) { client_fd = some fd }))
]

-- close(fd)
abbrev pub close : ℕ → Server → Server
close fd s = record s { is_open = put_bit s.is_open fd false }

-- A descriptor that accept() has returned.
unfoldable pub welcome : Bool → ℕ → Server → Server
welcome set_nonblock_fails fd s =
    let opened : Server = record s { is_open = put_bit s.is_open fd true } in
    if set_nonblock_fails then close fd opened else elim (alloc_client s.client fd) [
      | none ↦ close fd opened
      | some (slot, table) ↦ record opened {
        client = table;
        max_fd = if ltb s.max_fd fd then fd else s.max_fd;
        master_read = put_bit s.master_read fd true;
      }
    ]

unfoldable pub accept_step : Round → Server → Server
accept_step k s =
    if s.readfds s.server_fd
    then elim k.incoming [ accepted fd ↦ welcome k.set_nonblock_fails fd s | accept_error _ ↦ s ]
    else s

-- A connection ends: its bits, its descriptor and its slot are cleared.
unfoldable pub drop_slot : ℕ → ℕ → Server → Server
drop_slot i fd s = record s {
  master_read = put_bit s.master_read fd false;
  master_write = put_bit s.master_write fd false;
  is_open = put_bit s.is_open fd false;
  client =
      put_client s.client i
        (record (s.client i) { client_fd = none; used = 0; send_len = 0; send_offset = 0 });
}

-- The readable half of a slot's turn, with the result of `handle_recv`; `true` is `continue`.
unfoldable pub after_recv : ℕ → ℕ → Client × Ret → Server → Server × Bool
after_recv i fd (c, flag) s =
    let stored : Server = record s { client = put_client s.client i c } in
    let watched : Server =
      if ltb c.send_offset c.send_len
      then record stored { master_write = put_bit s.master_write fd true }
      else stored in
    elim flag [ failed ↦ (drop_slot i fd watched, true) | _ ↦ (watched, false) ]

unfoldable pub recv_slot : Round → ℕ → ℕ → Server → Server × Bool
recv_slot k i fd s =
    if s.readfds fd then after_recv i fd (handle_recv (k.recv i) (s.client i)) s else (s, false)

-- The writable half, with the result of `handle_send`.
unfoldable pub after_send : ℕ → ℕ → Client × Ret → Server → Server
after_send i fd (c, tag) s =
    let stored : Server = record s { client = put_client s.client i c } in
    elim tag [
      | failed ↦ drop_slot i fd stored
      | _ ↦
          if c.send_len == c.send_offset
          then record stored { master_write = put_bit s.master_write fd false }
          else stored
    ]

unfoldable pub send_slot : Round → ℕ → ℕ → Server → Server
send_slot k i fd s =
    if s.writefds fd
    then after_send i fd (handle_send (k.send i (offered (s.client i))) (s.client i)) s
    else s

-- One turn of the loop over the slots.
unfoldable pub serve_slot : Round → ℕ → Server → Server
serve_slot k i s = elim (s.client i).client_fd [
  | none ↦ s
  | some fd ↦ let (t, skip) = recv_slot k i fd s in if skip then t else send_slot k i fd t
]

-- The slots from `i` on, with `n` to go.
unfoldable pub serve_slots : Round → ℕ → ℕ → Server → Server
serve_slots k zero i s = s
serve_slots k (suc n) i s = serve_slots k n (i + 1) (serve_slot k i s)

-- A round after select() has left the sets `r` and `w`.
unfoldable pub serve : Round → FdSet → FdSet → Server → Server
serve k r w s =
    let asked : Server = record s { readfds = r; writefds = w } in
    let t = serve_slots k max_connections 0 (accept_step k asked) in
    record t { readfds = t.master_read; writefds = t.master_write }

-- One round of `while(1)`: `none` is the `break`. A select() that fails leaves the sets as they were.
unfoldable pub round : Round → Server → Option Server
round k s = elim k.selected [
  | select_error e ↦ if e == eintr then some s else none
  | ready r w ↦ some (serve k r w s)
]
