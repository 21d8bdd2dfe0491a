-- ===== src/FirstSelect/Steps.antt =====
-- The code of socket_test/tcp_select_server_v1.c. The clients, `handle_recv` and the variables of `main`
-- are those of the second version.
use linux_system_programing.Prelude.{
  ℕ, zero, suc, ◌+◌, Option, none, some, Bool, true, false, ◌==◌, ◌||◌, if◌then◌else◌, ltb, leb,
}
use linux_system_programing.Kernel.{Fd, Received, Sent, took, send_error, eintr, would_block}
use linux_system_programing.Echo.Client.{Client, advance, offered, Ret, ok, failed}
use linux_system_programing.Echo.Client
use linux_system_programing.SelectServer.State.{
  Server, boot, Round, ready, select_error, accepted, accept_error, FdSet, put_bit, put_client,
}
use linux_system_programing.SelectServer.Steps.{close, drop_slot}

-- MAX_CONNECTIONS, the size of `client`
abbrev pub table_size : ℕ
table_size = 10

-- `strayed` is set once `main` has used an index outside `client`, or the descriptor -1.
pub record State : Type 0 where
  pub srv : Server
  pub strayed : Bool

-- `main` before its loop
abbrev pub start : ℕ → State
start fd = record { srv = boot fd; strayed = false }

-- `_init_client` and `handle_recv` are those of the second version, to the letter.
abbrev pub init_client : Client
init_client = Client.init_client

abbrev pub handle_recv : Received → Client → Client × Ret
handle_recv = Client.handle_recv

-- A send() of 0 bytes is no failure here.
unfoldable pub handle_send : Sent → Client → Client × Ret
handle_send (took n) c =
    if c.send_len == c.send_offset then (c, ok) else if ltb 0 n then (advance n c, ok) else (c, ok)
handle_send (send_error e) c =
    if c.send_len == c.send_offset
    then (c, ok)
    else if would_block e
    then (c, ok)
    else if e == eintr
    then (c, ok)
    else (c, failed)

-- A descriptor that accept() has returned.
unfoldable pub admit : ℕ → Server → Server
admit fd s =
    let opened : Server = record s { is_open = put_bit s.is_open fd true } in
    if leb table_size fd then close fd opened else record opened {
      client = put_client s.client fd (record (s.client fd) { client_fd = some fd; used = 0 });
      max_fd = if ltb s.max_fd fd then fd else s.max_fd;
      master_read = put_bit s.master_read fd true;
    }

unfoldable pub accept_at : Round → State → State
accept_at k s = elim k.incoming [
  | accepted fd ↦ record s { srv = admit fd s.srv }
  | accept_error e ↦ s
]

-- `client[i]` becomes `c`.
abbrev pub store_client : ℕ → Client → State → State
store_client i c s = record {
  srv = record s.srv { client = put_client s.srv.client i c };
  strayed = s.strayed || leb table_size i;
}

-- FD_SET(client[i].client_fd, &master_write)
unfoldable pub watch_write : Fd → State → State
watch_write none s = record s { strayed = true }
watch_write (some fd) s = record s {
  srv = record s.srv { master_write = put_bit s.srv.master_write fd true };
}

-- The end of connection `i`.
abbrev pub drop_at : ℕ → State → State
drop_at i s = record s { srv = drop_slot i i s.srv }

-- What follows handle_recv(); `true` is `continue`.
unfoldable pub received : ℕ → Client × Ret → State → State × Bool
received i (c, flag) s =
    let stored : State = store_client i c s in
    let watched : State =
      if ltb c.send_offset c.send_len then watch_write c.client_fd stored else stored in
    elim flag [ failed ↦ (drop_at i watched, true) | _ ↦ (watched, false) ]

-- What follows handle_send().
unfoldable pub sent : ℕ → Client × Ret → State → State
sent i (c, tag) s =
    let stored : State = store_client i c s in
    elim tag [
      | failed ↦ drop_at i stored
      | _ ↦
          if c.send_len == c.send_offset
          then record stored {
            srv = record stored.srv { master_write = put_bit s.srv.master_write i false };
          }
          else stored
    ]

unfoldable pub write_half : Round → ℕ → State → State
write_half k i s =
    if s.srv.writefds i
    then sent i (handle_send (k.send i (offered (s.srv.client i))) (s.srv.client i)) s
    else s

unfoldable pub read_half : Round → ℕ → State → State
read_half k i s =
    let (t, skip) = received i (handle_recv (k.recv i) (s.srv.client i)) s in
    if skip then t else write_half k i t

-- One turn of the loop over the descriptors.
unfoldable pub visit : Round → ℕ → State → State
visit k i s =
    if s.srv.readfds i
    then if i == s.srv.server_fd then accept_at k s else read_half k i s
    else write_half k i s

-- The descriptors from `i` up to `max_fds`, which may grow on the way; `none` when the fuel is used up.
unfoldable pub visit_all : Round → ℕ → ℕ → State → Option State
visit_all k zero i s = none
visit_all k (suc fuel) i s =
    if leb i s.srv.max_fd then visit_all k fuel (i + 1) (visit k i s) else some s

-- `readfds` and `writefds` are the master sets again.
abbrev pub reset : State → State
reset s = record s {
  srv = record s.srv { readfds = s.srv.master_read; writefds = s.srv.master_write };
}

-- After select() has left the sets `r` and `w`. A descriptor above the table is closed at once, so that
-- `max_fds` stays below `server_fd + 10`.
unfoldable pub serve : Round → FdSet → FdSet → State → Option State
serve k r w s =
    let asked : State = record s { srv = record s.srv { readfds = r; writefds = w } } in
    elim (visit_all k (s.srv.server_fd + table_size + 1) 0 asked) [
      | none ↦ none
      | some t ↦ some (reset t)
    ]

-- One round of `while(1)`: `none` is the `break`.
unfoldable pub round : Round → State → Option State
round k s = elim k.selected [
  | select_error e ↦ if e == eintr then some s else none
  | ready r w ↦ serve k r w s
]
