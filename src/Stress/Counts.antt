-- ===== src/Stress/Counts.antt =====
-- What a client of socket_test/stress_test_client.c counts, and how it moves the counters that the
-- clients share: given up, or with the next request begun.
use linux_system_programing.Prelude.{
  ℕ, suc, ◌+◌, ◌%◌, ◌^◌, ◌≤◌, ◌<◌, ◌≡◌, refl, ◌∙◌, ap₂, length, none, some, false, ltb, leb, arith,
  if◌then◌else◌,
}
use linux_system_programing.Bytes.{length-blit}
use linux_system_programing.Kernel.{Fd}
use linux_system_programing.Echo.Client.{ok}
use linux_system_programing.Stress.Client.{Client, ClientState, buf_size}
use linux_system_programing.Stress.Request.{
  prepare_request, request_text, length-request_text, snprintf,
}
use linux_system_programing.Stress.Sending.{Window}
use linux_system_programing.Stress.Receiving.{HasRoom}
use linux_system_programing.Stress.Loop.{Slot, fail_slot, next_request, begin_request}

-- How many requests a client has begun (`n`) and completed (`k`), by its descriptor and its state.
abbrev pub Counts : (requests : ℕ) → Fd → ClientState → (n k : ℕ) → Type 0
Counts r none st n k = (k ≤ r) × (n ≤ r)
Counts r (some fd) ClientState.connecting n k = (n ≡ 0) × (k ≡ 0)
Counts r (some fd) ClientState.writing n k = (n ≡ suc k) × (n ≤ r)
Counts r (some fd) ClientState.reading n k = (n ≡ suc k) × (n ≤ r)
Counts r (some fd) ClientState.done n k = (n ≡ k) × (n ≤ r)
Counts r (some fd) ClientState.broken n k = ⊥

pub record SlotSound (requests : ℕ) (s : Slot) : Type 0 where
  pub room : HasRoom s.client
  pub window : Window s.client
  pub counts : Counts requests s.client.fd s.client.state s.next_sequence s.client.request_completed

-- 1 for a client that has been given up before its requests were complete
abbrev pub lost : (requests : ℕ) → Client → ℕ
lost requests c = elim c.fd [
  | none ↦ if ltb c.request_completed requests then 1 else 0
  | some _ ↦ 0
]

-- The counters move by what the client completes and by whether it is given up, modulo 2 ^ 64.
pub record Turned (requests : ℕ) (s t : Slot) : Type 0 where
  pub sound : SlotSound requests t
  pub completions :
      (t.stats.completed + s.client.request_completed) % 2 ^ 64
      ≡ (s.stats.completed + t.client.request_completed) % 2 ^ 64
  pub failures :
      (t.stats.failed + lost requests s.client) % 2 ^ 64
      ≡ (s.stats.failed + lost requests t.client) % 2 ^ 64

pub Turned-refl : {r : ℕ} {s : Slot} → SlotSound r s → Turned r s s
Turned-refl v = record { sound = v; completions = refl; failures = refl }

pub Turned-trans : {r : ℕ} {s t u : Slot} → Turned r s t → Turned r t u → Turned r s u
Turned-trans {r} {s} {t} {u} p q = record {
  sound = q.sound;
  completions = omega (arith, p.completions, q.completions);
  failures = omega (arith, p.failures, q.failures);
}

-- A client that is open with requests left is given up.
pub fail_slot-Turned :
    {r : ℕ} {s : Slot} {fd : ℕ}
    → s.client.fd ≡ some fd
    → SlotSound r s
    → s.client.request_completed < r
    → s.next_sequence ≤ r
    → Turned r s (fail_slot s)
unfolding fail_slot
fail_slot-Turned {r} {s} here v left begun = record {
  sound = record {
    room = record {
      recv_room = v.room.recv_room;
      recv_in = v.room.recv_in;
      send_room = v.room.send_room;
      len_in = v.room.len_in;
    };
    window = record { offset_in = v.window.offset_in; len_in = v.window.len_in };
    counts = omega arith;
  };
  completions = refl;
  failures = ground arith;
}

pub prepare_request-ok :
    (now seq : ℕ) (c : Client)
    → prepare_request now seq c ≡ (
      record c {
        send_buf = snprintf c.send_buf (request_text c.id seq);
        send_len = length (request_text c.id seq);
        send_offset = 0;
        recv_len = 0;
        current_request_start_ns = now;
        state = ClientState.writing;
      },
      ok,
    )
unfolding prepare_request
prepare_request-ok now seq c = rw ltb-len
  where
    ltb-len : leb buf_size (length (request_text c.id seq)) ≡ false
    ltb-len = ground (arith, length-request_text c.id seq)

-- A client that has completed all that it began, and not all requests, begins the next.
pub next_request-Turned :
    (now : ℕ) {r : ℕ} {s : Slot} {fd : ℕ}
    → s.client.fd ≡ some fd
    → HasRoom s.client
    → r < 2 ^ 64
    → s.next_sequence ≡ s.client.request_completed
    → s.next_sequence < r
    → Turned r s (next_request now s)
unfolding next_request begin_request
next_request-Turned now {r} {s} {fd} here v small even below =
    rw (prepare_request-ok now s.next_sequence s.client, next_request)
      (record {
        sound = record {
          room = record {
            recv_room = v.recv_room;
            recv_in = omega arith;
            send_room = length-blit _ _ _ ∙ v.send_room;
            len_in = short;
          };
          window = record { offset_in = omega arith; len_in = short };
          counts = rw here (omega (arith, small));
        };
        completions = refl;
        failures = refl;
      })
  where
    short : length (request_text s.client.id s.next_sequence) ≤ buf_size
    short = omega (arith, length-request_text s.client.id s.next_sequence)

-- The same turn, seen from a slot whose client differs in other fields only.
pub seen_from :
    {r : ℕ} {s t : Slot} (c : Client)
    → c.request_completed ≡ s.client.request_completed
    → c.fd ≡ s.client.fd
    → Turned r (record s { client = c }) t
    → Turned r s t
seen_from {r} {s} {t} c same_tally same_fd p = record {
  sound = p.sound;
  completions = rw same_tally at p.completions;
  failures = rw (ap₂ lost_of same_fd same_tally) at p.failures;
}
  where
    lost_of : Fd → ℕ → ℕ
    lost_of fd k = elim fd [ none ↦ if ltb k r then 1 else 0 | some _ ↦ 0 ]

pub errno-SlotSound :
    {r : ℕ} {s : Slot} (e : ℕ)
    → SlotSound r s
    → SlotSound r (record s { client = record s.client { last_errno = e } })
errno-SlotSound e v = record {
  room = record {
    recv_room = v.room.recv_room;
    recv_in = v.room.recv_in;
    send_room = v.room.send_room;
    len_in = v.room.len_in;
  };
  window = record { offset_in = v.window.offset_in; len_in = v.window.len_in };
  counts = v.counts;
}
