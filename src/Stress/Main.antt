-- ===== src/Stress/Main.antt =====
-- The clients of socket_test/stress_test_client.c together: connecting, and the rounds of `main`.
use linux_system_programing.Prelude.{
  ℕ, zero, suc, ◌+◌, Option, none, some, Bool, ltb, ◌==◌, if◌then◌else◌, add_u64, replicate,
}
use linux_system_programing.Kernel.{eintr}
use linux_system_programing.Echo.Client.{Ret, failed}
use linux_system_programing.Stress.Client.{
  Client, ClientState, Stats, Connected, reconnect_client, buf_size,
}
use linux_system_programing.Stress.Loop.{Slot, Answers, before_poll, after_poll}

-- `clients`, `next_sequence` and `stats`
pub record Load : Type 0 where
  pub client : ℕ → Client
  pub next_sequence : ℕ → ℕ
  pub stats : Stats

abbrev pub slot_at : ℕ → Load → Slot
slot_at i l = record { client = l.client i; next_sequence = l.next_sequence i; stats = l.stats }

abbrev pub put_at {ℓ} : {A : Type ℓ} → (ℕ → A) → ℕ → A → ℕ → A
put_at f i x j = if j == i then x else f j

abbrev pub put_slot : ℕ → Slot → Load → Load
put_slot i s l = record {
  client = put_at l.client i s.client;
  next_sequence = put_at l.next_sequence i s.next_sequence;
  stats = s.stats;
}

-- What follows reconnect_client().
unfoldable pub store_connected : ℕ → Client × Ret → Load → Load
store_connected i (c, failed) l =
    put_slot i
      (record {
        client = c;
        next_sequence = l.next_sequence i;
        stats = record l.stats { failed = add_u64 l.stats.failed 1 };
      })
      l
store_connected i (c, ret) l = put_slot i (record (slot_at i l) { client = c }) l

unfoldable pub connect_at : (ℕ → Connected) → ℕ → Load → Load
connect_at answers i l =
    store_connected i (reconnect_client (answers i) (record (l.client i) { fd = none; id = i })) l

-- An element of the array that calloc() returns.
unfoldable pub blank : Client
blank = record {
  fd = some 0;
  id = 0;
  state = ClientState.connecting;
  send_buf = replicate buf_size 0;
  send_len = 0;
  send_offset = 0;
  recv_buf = replicate buf_size 0;
  recv_len = 0;
  current_request_start_ns = 0;
  request_completed = 0;
  request_failed = 0;
  last_errno = 0;
}

-- `main` before it connects.
unfoldable pub fresh : Stats → Load
fresh s = record { client = λ _. blank; next_sequence = λ _. 0; stats = s }

-- The clients from `i` on, with `n` to go.
unfoldable pub connect_all : (ℕ → Connected) → ℕ → ℕ → Load → Load
connect_all answers zero i l = l
connect_all answers (suc n) i l = connect_all answers n (i + 1) (connect_at answers i l)

-- The turns before poll().
unfoldable pub before_all : (requests : ℕ) → (ℕ → ℕ) → ℕ → ℕ → Load → Load
before_all requests clock zero i l = l
before_all requests clock (suc n) i l =
    before_all requests clock n (i + 1)
      (put_slot i (before_poll requests (clock i) (slot_at i l)) l)

-- The turns after poll(); `none` is a handler whose fuel is used up.
unfoldable pub after_all : (requests : ℕ) → (ℕ → Answers) → ℕ → ℕ → Load → Option Load
after_all requests a zero i l = some l
after_all requests a (suc n) i l = elim (after_poll requests (a i) (slot_at i l)) [
  | none ↦ none
  | some s ↦ after_all requests a n (i + 1) (put_slot i s l)
]

-- poll(): what the clients' turns are then answered, or -1 with `errno`
pub data Polled : Type 0 where
  polled : (ℕ → Answers) → Polled
  poll_error : ℕ → Polled

-- One round of the loop over `n` clients: `none` is the `break`, or a round that has not ended.
unfoldable pub round_all : (requests n : ℕ) → (ℕ → ℕ) → Polled → Load → Option Load
round_all requests n clock p l =
    let asked = before_all requests clock n 0 l in
    elim p [
      | poll_error e ↦ if e == eintr then some asked else none
      | polled a ↦ after_all requests a n 0 asked
    ]

-- The condition of the loop, while no signal has come.
unfoldable pub goes_on : (total_requests : ℕ) → Stats → Bool
goes_on total_requests s = ltb (add_u64 s.completed s.failed) total_requests
