-- ===== src/PoolServer/Client.antt =====
-- `send_all` and `handle_client` of socket_test/server_pthread_pool.c. The loops take fuel, and `none`
-- says that it is used up. `k` answers the calls of send(): its call number `i`, of so many bytes.
use linux_system_programing.Prelude.{
  ℕ, zero, suc, ◌+◌, List, [], ◌∷◌, ◌++◌, length, take, Option, none, some, Bool, true, false, ltb,
  if◌then◌else◌, add_u64, sub_u64,
}
use linux_system_programing.Bytes.{blit, slice, shift_down}
use linux_system_programing.Kernel.{
  Received, bytes, recv_error, Sent, took, send_error, would_block,
}
use linux_system_programing.Echo.Client.{scan}

-- How `send_all` ends: the bytes sent, the calls made, and whether it returns the number of bytes or -1.
pub record SendAll : Type 0 where
  pub sent : ℕ
  pub calls : ℕ
  pub succeeded : Bool

unfoldable pub send_all : (k : ℕ → ℕ → Sent) → ℕ → (i n len : ℕ) → Option SendAll
send_all k zero i n len = none
send_all k (suc fuel) i n len = elim (ltb n len) [
  | false ↦ some (record { sent = n; calls = i; succeeded = true })
  | true ↦ elim (k i (sub_u64 len n)) [
    | send_error e ↦ some (record { sent = n; calls = i + 1; succeeded = false })
    | took m ↦ send_all k fuel (i + 1) (add_u64 n m) len
  ]
]

-- sizeof(message)
abbrev pub message_size : ℕ
message_size = 4096

-- The variables of `handle_client`; `out` is what has gone to the socket, and `calls` counts the calls
-- of send().
pub record Conn : Type 0 where
  pub buf : List ℕ
  pub message : List ℕ
  pub used : ℕ
  pub out : List ℕ
  pub calls : ℕ

-- `handle_client` before its loop; the arrays hold what the memory held.
unfoldable pub begin_client : (buf message : List ℕ) → Conn
begin_client buf message = record { buf = buf; message = message; used = 0; out = []; calls = 0 }

-- One message of `m` bytes is handed to `send_all`, whose result is not looked at.
unfoldable pub echo_line : (k : ℕ → ℕ → Sent) → ℕ → ℕ → Conn → Option Conn
echo_line k tries m c = elim (send_all k tries c.calls 0 m) [
  | none ↦ none
  | some r ↦ some (record c {
    out = c.out ++ take r.sent (slice c.message 0 m);
    calls = r.calls;
    message = shift_down c.message m (sub_u64 c.used m);
    used = sub_u64 c.used m;
  })
]

unfoldable pub echo_messages : (k : ℕ → ℕ → Sent) → ℕ → ℕ → Conn → Option Conn
echo_messages k tries zero c = none
echo_messages k tries (suc fuel) c = elim (scan c.message c.used 0) [
  | none ↦ some c
  | some m ↦ elim (echo_line k tries m c) [ none ↦ none | some d ↦ echo_messages k tries fuel d ]
]

-- recv() has written `xs` to `buf`.
unfoldable pub store : List ℕ → Conn → Conn
store xs c =
    let filled = blit c.buf 0 xs in
    record c {
      buf = filled;
      message = blit c.message c.used (slice filled 0 (length xs));
      used = add_u64 c.used (length xs);
    }

-- The loop goes on with the messages, or has reached a `break` (`true`).
abbrev pub go_on : (k : ℕ → ℕ → Sent) → ℕ → Conn → Option (Conn × Bool)
go_on k tries c = elim (echo_messages k tries (suc c.used) c) [
  | none ↦ none
  | some d ↦ some (d, false)
]

-- One round of the loop of `handle_client`.
unfoldable pub serve_round : (k : ℕ → ℕ → Sent) → ℕ → Received → Conn → Option (Conn × Bool)
serve_round k tries (bytes []) c = some (c, true)
serve_round k tries (bytes (x ∷ xs)) c =
    elim (ltb message_size (add_u64 c.used (length (x ∷ xs)))) [
      | true ↦ some (record c { buf = blit c.buf 0 (x ∷ xs) }, true)
      | false ↦ go_on k tries (store (x ∷ xs) c)
    ]
serve_round k tries (recv_error e) c = if would_block e then go_on k tries c else some (c, true)

-- `handle_client` on the results of its calls of recv(); `true` says that it has closed the connection.
unfoldable pub handle_client : (k : ℕ → ℕ → Sent) → ℕ → List Received → Conn → Option (Conn × Bool)
handle_client k tries [] c = some (c, false)
handle_client k tries (r ∷ rs) c = elim (serve_round k tries r c) [
  | none ↦ none
  | some (d, true) ↦ some (d, true)
  | some (d, false) ↦ handle_client k tries rs d
]
