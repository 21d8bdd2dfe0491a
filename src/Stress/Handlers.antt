-- ===== src/Stress/Handlers.antt =====
-- `handle_connect`, `handle_send` and `handle_recv` of socket_test/stress_test_client.c. The loops
-- take fuel, and `none` says that it is used up: the loop is still running. A handler's system calls
-- are answered by `k`: its call number `i`, which asks for so many bytes.
use linux_system_programing.Prelude.{
  ℕ, zero, suc, ◌+◌, List, [], ◌∷◌, length, Option, none, some, Bool, true, false, ltb, leb, ◌==◌,
  ◌&&◌, ◌||◌, not, if◌then◌else◌, add_u64, sub_u64,
}
use linux_system_programing.Bytes.{blit, shift_down}
use linux_system_programing.Kernel.{
  Received, bytes, recv_error, Sent, took, send_error, eintr, would_block,
}
use linux_system_programing.Echo.Client.{Ret, ok, failed, scan}
use linux_system_programing.Stress.Client.{Client, ClientState, Stats, buf_size, record_latency}

abbrev pub emsgsize : ℕ
emsgsize = 90

abbrev pub eproto : ℕ
eproto = 71

abbrev pub econnreset : ℕ
econnreset = 104

-- A result of getsockopt(SO_ERROR): the pending error of the socket (0 for none), or -1 with `errno`.
pub data SockError : Type 0 where
  so_error : ℕ → SockError
  getsockopt_error : ℕ → SockError

-- `verify_connection`: `some e` is -1 with `errno` e.
unfoldable pub verify_connection : SockError → Option ℕ
verify_connection (so_error e) = if e == 0 then none else some e
verify_connection (getsockopt_error e) = some e

unfoldable pub handle_connect : SockError → Client → Client × Ret
unfolding verify_connection
handle_connect answer c = elim (verify_connection answer) [
  | some e ↦ (record c { last_errno = e }, failed)
  | none ↦ (record c { state = ClientState.writing }, ok)
]

pub record Outcome : Type 0 where
  pub client : Client
  pub stats : Stats
  pub ret : Ret

-- A handler returns -1 with `e` in `last_errno`.
abbrev pub fails : ℕ → Client → Stats → Option Outcome
fails e c s = some (record { client = record c { last_errno = e }; stats = s; ret = failed })

-- It returns 0.
abbrev pub returns : Client → Stats → Option Outcome
returns c s = some (record { client = c; stats = s; ret = ok })

-- how many bytes send() is asked to take
abbrev pub to_send : Client → ℕ
to_send c = sub_u64 c.send_len c.send_offset

-- A send() that took `n` bytes. One that took none leaves `errno` as it was, which is `stale`.
unfoldable pub handle_send :
    (k : ℕ → ℕ → Sent) (stale : ℕ) → ℕ → ℕ → Client → Stats → Option Outcome
handle_send k stale zero i c s = none
handle_send k stale (suc fuel) i c s = elim (ltb c.send_offset c.send_len) [
  | false ↦ returns (record c { state = ClientState.reading }) s
  | true ↦ elim (k i (to_send c)) [
    | took zero ↦ fails stale c s
    | took (suc n) ↦
        handle_send k stale fuel (i + 1) (record c { send_offset = add_u64 c.send_offset (suc n) })
          (record s { bytes_sent = add_u64 s.bytes_sent (suc n) })
    | send_error e ↦ elim (e == eintr) [
      | true ↦ handle_send k stale fuel (i + 1) c s
      | false ↦ if would_block e then returns c s else fails e c s
    ]
  ]
]

-- memcmp(a, b, n) == 0 of arrays that hold `n` bytes each
unfoldable pub same_bytes : ℕ → List ℕ → List ℕ → Bool
same_bytes zero a b = true
same_bytes (suc n) [] b = false
same_bytes (suc n) (x ∷ a) [] = false
same_bytes (suc n) (x ∷ a) (y ∷ b) = x == y && same_bytes n a b

-- A whole answer of `m` bytes has come, and is the request: the request is complete.
unfoldable pub finish_request : (now m : ℕ) → Client → Stats → Option Outcome
finish_request now m c s =
    let logged : Stats = record_latency (sub_u64 now c.current_request_start_ns) s in
    let counted : Client = record c {
      request_completed = add_u64 c.request_completed 1;
      state = ClientState.done;
    } in
    let stats : Stats = record logged { completed = add_u64 logged.completed 1 } in
    if ltb m c.recv_len
    then returns
        (record counted {
          recv_buf = shift_down c.recv_buf m (sub_u64 c.recv_len m);
          recv_len = sub_u64 c.recv_len m;
        })
        stats
    else returns (record counted { recv_len = 0 }) stats

-- The first line of the answer, which ends at `m`, against the request.
unfoldable pub check_answer : (now m : ℕ) → Client → Stats → Option Outcome
check_answer now m c s =
    if not (m == c.send_len) || not (same_bytes c.send_len c.recv_buf c.send_buf)
    then fails eproto c s
    else finish_request now m c s

-- recv() has written `xs`.
unfoldable pub store_answer : List ℕ → Client → Client
store_answer xs c = record c {
  recv_buf = blit c.recv_buf c.recv_len xs;
  recv_len = add_u64 c.recv_len (length xs);
}

unfoldable pub handle_recv :
    (k : ℕ → ℕ → Received) (now : ℕ) → ℕ → ℕ → Client → Stats → Option Outcome
handle_recv k now zero i c s = none
handle_recv k now (suc fuel) i c s = elim (leb buf_size c.recv_len) [
  | true ↦ fails emsgsize c s
  | false ↦ elim (k i (sub_u64 buf_size c.recv_len)) [
    | bytes [] ↦ fails econnreset c s
    | bytes (x ∷ xs) ↦
        let d = store_answer (x ∷ xs) c in
        let t : Stats = record s { bytes_received = add_u64 s.bytes_received (length (x ∷ xs)) } in
        elim (scan d.recv_buf d.recv_len 0) [
          | none ↦ handle_recv k now fuel (i + 1) d t
          | some m ↦ check_answer now m d t
        ]
    | recv_error e ↦ elim (e == eintr) [
      | true ↦ handle_recv k now fuel (i + 1) c s
      | false ↦ if would_block e then returns c s else fails e c s
    ]
  ]
]
