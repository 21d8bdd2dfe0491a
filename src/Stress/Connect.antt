-- ===== src/Stress/Connect.antt =====
-- `set_nonblock` and `connect_nonblock` of socket_test/stress_test_client.c, and the descriptors that they
-- leave open.
use linux_system_programing.Prelude.{
  ℕ, ◌≡◌, ◌↔◌, ◌⊎◌, Option, none, some, Bool, true, false, ◌==◌, ◌||◌, Option-cases, inl, inr, not,
  if◌then◌else◌, arith,
}
use linux_system_programing.Kernel.{Fd}
use linux_system_programing.SelectServer.State.{FdSet, put_bit}

abbrev pub einprogress : ℕ
einprogress = 115

-- What the calls return: socket() a descriptor, the two calls of fcntl() and inet_pton() whether they fail,
-- and connect() `none` for 0 or `errno`.
pub record Calls : Type 0 where
  pub socket : Fd
  pub getfl_fails : Bool
  pub setfl_fails : Bool
  pub inet_pton_fails : Bool
  pub connect : Option ℕ

-- `set_nonblock` returns 0.
unfoldable pub set_nonblock : Calls → Bool
set_nonblock k = if k.getfl_fails then false else if k.setfl_fails then false else true

-- connect() has begun, or is through.
unfoldable pub under_way : Option ℕ → Bool
under_way none = true
under_way (some e) = e == einprogress

-- `connect_nonblock` after socket() has returned `fd`; the descriptors are those open then.
unfoldable pub connect_fd : Calls → ℕ → FdSet → Fd × FdSet
connect_fd k fd is_open =
    if not (set_nonblock k)
    then (none, put_bit is_open fd false)
    else if k.inet_pton_fails
    then (none, put_bit is_open fd false)
    else if under_way k.connect
    then (some fd, is_open)
    else (none, put_bit is_open fd false)

unfoldable pub connect_nonblock : Calls → FdSet → Fd × FdSet
connect_nonblock k is_open = elim k.socket [
  | none ↦ (none, is_open)
  | some fd ↦ connect_fd k fd (put_bit is_open fd true)
]

-- Whether a descriptor is one that was returned.
abbrev pub is_fd : Fd → ℕ → Bool
is_fd none d = false
is_fd (some fd) d = d == fd

-- For a socket() that returns a descriptor which is not open: `connect_nonblock` returns it exactly when both
-- calls of fcntl() and inet_pton() succeed and connect() succeeds or fails with EINPROGRESS; and the open descriptors are
-- afterwards those from before and the one that is returned, so that no failure leaves one open.
pub connect_nonblock-is_fd :
    (k : Calls) (is_open : FdSet) (fd : ℕ)
    → k.socket ≡ some fd
    → is_open fd ≡ false
    → let r = connect_nonblock k is_open in
      ((r.0 ≡ some fd) ↔ (
        (k.getfl_fails ≡ false)
        × (k.setfl_fails ≡ false)
        × (k.inet_pton_fails ≡ false)
        × ((k.connect ≡ none) ⊎ (k.connect ≡ some einprogress))))
      × ((r.0 ≡ none) ⊎ (r.0 ≡ some fd))
      × ((d : ℕ) → r.1 d ≡ is_open d || is_fd r.0 d)
unfolding connect_nonblock connect_fd set_nonblock under_way
connect_nonblock-is_fd k is_open fd e fresh = elim (Option-cases k.connect) [
  | inl begun ↦ rw (e, begun, connect_nonblock) (ground arith, ground arith, λ d. ground arith)
  | inr (code, refused) ↦
      rw (e, refused, connect_nonblock) (ground arith, ground arith, λ d. ground arith)
]
