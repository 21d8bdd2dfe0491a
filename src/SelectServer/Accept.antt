-- ===== src/SelectServer/Accept.antt =====
-- `alloc_client` and the accepting half of a round of socket_test/tcp_select_server_v2.c.
use linux_system_programing.Prelude.{
  ℕ, zero, suc, ◌+◌, ◌<◌, ◌≤◌, ◌≡◌, ◌≢◌, ◌⊎◌, inl, inr, refl, none, some, Bool, true, false, ltb,
  arith, ◌==◌, if◌then◌else◌, Option, Option-cases, Bool-cases,
}
use linux_system_programing.Echo.Client.{Client}
use linux_system_programing.Echo.Views.{IsValid}
use linux_system_programing.SelectServer.State.{
  Server, Round, Accepted, FdSet, accepted, accept_error, put_bit, put_client, max_connections,
}
use linux_system_programing.SelectServer.Steps.{
  find_slot, alloc_client, close, welcome, accept_step,
}
use linux_system_programing.SelectServer.Valid.{IsSound}

-- `find_slot` returns the first free slot of its range.
record First (table : ℕ → Client) (slot m : ℕ) : Type 0 where
  free : (table m).client_fd ≡ none
  from : slot ≤ m
  busy : (j : ℕ) → slot ≤ j → j < m → (table j).client_fd ≢ none

find_slot-First :
    (table : ℕ → Client) (k slot m : ℕ)
    → find_slot table k slot ≡ some m
    → First table slot m × (m < slot + k)
unfolding find_slot
find_slot-First table zero slot m h = ground arith
find_slot-First table (suc k) slot m h = elim (Option-cases (table slot).client_fd) [
  | inl free ↦
      let e : slot ≡ m = cc (rw (free, find_slot) at h) in
      (
        record { free = rw e at free; from = omega arith; busy = λ j p q. absurd (omega arith) },
        omega arith,
      )
  | inr (fd, busy) ↦
      let (ih, below) = find_slot-First table k (slot + 1) m (rw (busy, find_slot) at h) in
      (
        record {
          free = ih.free;
          from = omega (arith, ih.from);
          busy = λ j p q. elim (Bool-cases (j == slot)) [
            | inl e ↦ ground arith
            | inr e ↦ ih.busy j (ground arith) q
          ];
        },
        omega arith,
      )
]

find_slot-full :
    (table : ℕ → Client) (k slot j : ℕ)
    → find_slot table k slot ≡ none
    → slot ≤ j
    → j < slot + k
    → (table j).client_fd ≢ none
unfolding find_slot
find_slot-full table zero slot j h p q = absurd (omega arith)
find_slot-full table (suc k) slot j h p q = elim (Option-cases (table slot).client_fd) [
  | inl free ↦ absurd (cc (rw (free, find_slot) at h))
  | inr (fd, busy) ↦ elim (Bool-cases (j == slot)) [
    | inl e ↦ ground arith
    | inr e ↦
        find_slot-full table k (slot + 1) j (rw (busy, find_slot) at h) (ground arith) (omega arith)
  ]
]

-- What a result of `alloc_client` says of the table.
abbrev pub IsFirstFree : (table : ℕ → Client) (fd : ℕ) → Option (ℕ × (ℕ → Client)) → Type 0
IsFirstFree table fd none = (j : ℕ) → j < max_connections → (table j).client_fd ≢ none
IsFirstFree table fd (some (m, table')) =
    (m < max_connections)
    × ((table m).client_fd ≡ none)
    × ((j : ℕ) → j < m → (table j).client_fd ≢ none)
    × (table' ≡ put_client table m (record (table m) { client_fd = some fd }))

-- `alloc_client` puts the descriptor in the first free slot and touches no other, and finds none
-- exactly when all 256 slots are taken.
pub alloc_client-first :
    (table : ℕ → Client) (fd : ℕ) → IsFirstFree table fd (alloc_client table fd)
unfolding alloc_client
alloc_client-first table fd = elim (Option-cases (find_slot table max_connections 0)) [
  | inl e ↦
      rw (e, alloc_client)
        (λ j p. find_slot-full table max_connections 0 j e (omega arith) (omega arith))
  | inr (m, e) ↦
      let (f, below) = find_slot-First table max_connections 0 m e in
      rw (e, alloc_client) (omega arith, f.free, λ j p. f.busy j (omega arith) p, refl)
]

module _ {s : Server} (v : IsSound s) (m fd : ℕ) where
  -- A new descriptor goes into a free slot.
  pub admit-IsSound :
      (s.client m).client_fd ≡ none
      → m < max_connections
      → s.is_open fd ≡ false
      → IsSound (record s {
        is_open = put_bit s.is_open fd true;
        client = put_client s.client m (record (s.client m) { client_fd = some fd });
        max_fd = if ltb s.max_fd fd then fd else s.max_fd;
        master_read = put_bit s.master_read fd true;
      })
  admit-IsSound free below fresh = record {
    listens = ground (arith, v.listens);
    hears = ground (arith, v.hears);
    server_below = ground (arith, v.server_below);
    valid = λ j. ground (arith, v.valid j, named);
    empty = λ j h. ground (arith, v.empty j);
    owner = λ j d h. ground (arith, v.owner j d, v.unwatched fd, v.empty m, v.listens, below);
    distinct = λ i j d p q. ground (arith, v.distinct i j d, v.owner i d, v.owner j d);
    no_leak = λ d h. elim (Bool-cases (d == fd)) [
      | inl e ↦ inr (m, ground arith)
      | inr e ↦ elim (v.no_leak d (ground arith)) [
        | inl q ↦ inl q
        | inr (j, q) ↦ inr (j, ground arith)
      ]
    ];
    unwatched = λ d h. ground (arith, v.unwatched d);
  }
    where
      named : IsValid (record (s.client m) { client_fd = some fd })
      named =
          let w : IsValid (s.client m) = v.valid m in
          record {
            recv_room = w.recv_room;
            message_room = w.message_room;
            used_in = w.used_in;
            send_room = w.send_room;
            len_in = w.len_in;
            offset_in = w.offset_in;
            restarted = w.restarted;
          }

  -- A descriptor that is opened and closed again leaves the server sound.
  pub refuse-IsSound :
      s.is_open fd ≡ false → IsSound (close fd (record s { is_open = put_bit s.is_open fd true }))
  refuse-IsSound fresh = record {
    listens = ground (arith, v.listens);
    hears = v.hears;
    server_below = v.server_below;
    valid = v.valid;
    empty = v.empty;
    owner = λ j d h. ground (arith, v.owner j d);
    distinct = v.distinct;
    no_leak = λ d h. v.no_leak d (ground arith);
    unwatched = λ d h. v.unwatched d (ground arith);
  }

pub welcome-IsSound :
    {s : Server} (fails : Bool) (fd : ℕ)
    → IsSound s
    → s.is_open fd ≡ false
    → IsSound (welcome fails fd s)
unfolding welcome alloc_client
welcome-IsSound true fd v fresh = refuse-IsSound v 0 fd fresh
welcome-IsSound {s} false fd v fresh = elim (Option-cases (find_slot s.client max_connections 0)) [
  | inl e ↦ rw (e, welcome, alloc_client) (refuse-IsSound v 0 fd fresh)
  | inr (m, e) ↦
      let (f, below) = find_slot-First s.client max_connections 0 m e in
      rw (e, welcome, alloc_client) (admit-IsSound v m fd f.free (omega arith) fresh)
]

-- the same server with other sets for select()
pub resets-IsSound :
    {s : Server} (r w : FdSet) → IsSound s → IsSound (record s { readfds = r; writefds = w })
resets-IsSound r w v = record {
  listens = v.listens;
  hears = v.hears;
  server_below = v.server_below;
  valid = v.valid;
  empty = v.empty;
  owner = λ j d h. ground (arith, v.owner j d);
  distinct = v.distinct;
  no_leak = v.no_leak;
  unwatched = v.unwatched;
}

Accepted-cases : (a : Accepted) → ((fd : ℕ) × (a ≡ accepted fd)) ⊎ ((e : ℕ) × (a ≡ accept_error e))
Accepted-cases (accepted fd) = inl (fd, refl)
Accepted-cases (accept_error e) = inr (e, refl)

pub accept_step-IsSound :
    {s : Server} (k : Round)
    → ((fd : ℕ) → k.incoming ≡ accepted fd → s.is_open fd ≡ false)
    → IsSound s
    → IsSound (accept_step k s)
unfolding accept_step
accept_step-IsSound {s} k fresh v = elim (Bool-cases (s.readfds s.server_fd)) [
  | inl called ↦ elim (Accepted-cases k.incoming) [
    | inl (fd, e) ↦
        rw (called, e, accept_step) (welcome-IsSound k.set_nonblock_fails fd v (fresh fd e))
    | inr (x, e) ↦ rw (called, e, accept_step) v
  ]
  | inr quiet ↦ rw quiet v
]
