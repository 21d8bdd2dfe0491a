-- ===== src/SelectServer/Valid.antt =====
-- The invariant of the server's tables: slots, descriptor sets and open descriptors agree.
use linux_system_programing.Prelude.{
  ℕ, ◌<◌, ◌≤◌, ◌≡◌, ◌≢◌, ◌⊎◌, inl, inr, refl, none, some, true, false, ltb, arith,
}
use linux_system_programing.Echo.Client.{Client, init_client}
use linux_system_programing.Echo.Views.{IsValid, init_client-IsValid}
use linux_system_programing.SelectServer.Steps.{drop_slot}
use linux_system_programing.SelectServer.State.{Server, boot, put_client, max_connections, FdSet}

-- a slot that holds no connection has no bytes
pub record IsEmpty (c : Client) : Type 0 where
  pub no_pending : c.used ≡ 0
  pub no_queue : c.send_len ≡ 0
  pub no_offset : c.send_offset ≡ 0

-- the descriptor of slot `i`, and the bits of the sets at it
pub record IsOwner (s : Server) (i fd : ℕ) : Type 0 where
  pub opened : s.is_open fd ≡ true
  pub reads : s.master_read fd ≡ true
  pub writes : s.master_write fd ≡ ltb (s.client i).send_offset (s.client i).send_len
  pub below : fd ≤ s.max_fd
  pub not_server : fd ≢ s.server_fd
  pub in_table : i < max_connections

pub record IsSound (s : Server) : Type 0 where
  pub listens : s.is_open s.server_fd ≡ true
  pub hears : s.master_read s.server_fd ≡ true
  pub server_below : s.server_fd ≤ s.max_fd
  pub valid : (i : ℕ) → IsValid (s.client i)
  pub empty : (i : ℕ) → (s.client i).client_fd ≡ none → IsEmpty (s.client i)
  pub owner : (i fd : ℕ) → (s.client i).client_fd ≡ some fd → IsOwner s i fd
  pub distinct :
      (i j fd : ℕ) → (s.client i).client_fd ≡ some fd → (s.client j).client_fd ≡ some fd → i ≡ j
  pub no_leak :
      (fd : ℕ)
      → s.is_open fd ≡ true
      → (fd ≡ s.server_fd) ⊎ ((i : ℕ) × ((s.client i).client_fd ≡ some fd))
  pub unwatched :
      (fd : ℕ) → s.is_open fd ≡ false → (s.master_read fd ≡ false) × (s.master_write fd ≡ false)

-- The server starts sound.
pub boot-IsSound : (fd : ℕ) → IsSound (boot fd)
unfolding boot init_client
boot-IsSound fd = record {
  listens = ground arith;
  hears = ground arith;
  server_below = omega arith;
  valid = λ _. init_client-IsValid;
  empty = λ i h. record { no_pending = refl; no_queue = refl; no_offset = refl };
  owner = λ i d h. cc;
  distinct = λ i j d h. cc;
  no_leak = λ d h. ground arith;
  unwatched = λ d h. ground arith;
}

-- what `drop_slot` leaves in the slot
abbrev cleared : Client → Client
cleared c = record c { client_fd = none; used = 0; send_len = 0; send_offset = 0 }

cleared-IsValid : {c : Client} → IsValid c → IsValid (cleared c)
cleared-IsValid v = record {
  recv_room = v.recv_room;
  message_room = v.message_room;
  used_in = omega arith;
  send_room = v.send_room;
  len_in = omega arith;
  offset_in = omega arith;
  restarted = λ _. refl;
}

module _ {s : Server} (v : IsSound s) (i fd : ℕ) (here : (s.client i).client_fd ≡ some fd) where
  own : IsOwner s i fd
  own = v.owner i fd here

  -- Slot `i` gets a valid client on the same descriptor, and its write bit says whether bytes wait.
  pub refresh-IsSound :
      (c : Client) (w : FdSet)
      → IsValid c
      → c.client_fd ≡ some fd
      → w fd ≡ ltb c.send_offset c.send_len
      → ((d : ℕ) → d ≢ fd → w d ≡ s.master_write d)
      → IsSound (record s { client = put_client s.client i c; master_write = w })
  refresh-IsSound c w good same bit others = record {
    listens = v.listens;
    hears = v.hears;
    server_below = v.server_below;
    valid = λ j. ground (arith, good, v.valid j);
    empty = λ j h. ground (arith, v.empty j);
    owner = λ j d h. ground (arith, own, v.owner j d, v.distinct i j d, others d);
    distinct = λ j k d p q. ground (arith, v.distinct j k d, v.distinct i k d, v.distinct j i d);
    no_leak = λ d h. elim (v.no_leak d h) [ inl e ↦ inl e | inr (j, q) ↦ inr (j, ground arith) ];
    unwatched = λ d h. ground (arith, own, v.unwatched d, others d);
  }

  -- Slot `i` is given up, whatever its client and its write bit have become in the meantime.
  pub drop_slot-IsSound :
      (c : Client) (w : FdSet)
      → IsValid c
      → ((d : ℕ) → d ≢ fd → w d ≡ s.master_write d)
      → IsSound (drop_slot i fd (record s { client = put_client s.client i c; master_write = w }))
  unfolding drop_slot
  drop_slot-IsSound c w good others = record {
    listens = ground (arith, own, v.listens);
    hears = ground (arith, own, v.hears);
    server_below = v.server_below;
    valid = λ j. ground (arith, cleared-IsValid good, v.valid j);
    empty = λ j h. ground (arith, v.empty j);
    owner = λ j d h. ground (arith, own, v.owner j d, v.distinct i j d, others d);
    distinct = λ j k d p q. ground (arith, v.distinct j k d);
    no_leak = λ d h. elim (v.no_leak d (ground arith)) [
      | inl e ↦ inl e
      | inr (j, q) ↦ inr (j, ground arith)
    ];
    unwatched = λ d h. ground (arith, v.unwatched d, others d);
  }
