-- ===== src/SharedMemory/Setup.antt =====
-- `main` of process_test/shared_memory.c up to fork(), and what each failure leaves behind.
use linux_system_programing.Prelude.{
  ℕ, ◌+◌, ◌-◌, ◌≡◌, Option, none, some, Bool, true, false, not, ◌&&◌, ◌||◌, if◌then◌else◌, arith,
}

-- What the process holds: whether SHM_NAME names an object, how many descriptors of it are open, and
-- whether it is mapped.
pub record Held : Type 0 where
  pub named : Bool
  pub open_fds : ℕ
  pub mapped : Bool

-- Which calls fail. shm_open() may fail for a reason of its own, beside EEXIST; `first_unlink` is the
-- shm_unlink() before the second try, and `last_unlink` the one after a later failure. No result of close(),
-- munmap() and shm_unlink() is looked at.
pub record Failures : Type 0 where
  pub first_open : Bool
  pub first_unlink : Bool
  pub second_open : Bool
  pub ftruncate : Bool
  pub mmap : Bool
  pub fork : Bool
  pub close : Bool
  pub munmap : Bool
  pub last_unlink : Bool

-- shm_unlink(), close() and munmap(), which change nothing where they fail
abbrev pub unlink : Bool → Held → Held
unlink fails s = if fails then s else record s { named = false }

abbrev pub close_fd : Bool → Held → Held
close_fd fails s = if fails then s else record s { open_fds = s.open_fds - 1 }

abbrev pub unmap : Bool → Held → Held
unmap fails s = if fails then s else record s { mapped = false }

-- A descriptor, -1 with EEXIST, and -1 with another errno.
pub data Opened : Type 0 where
  opened : Held → Opened
  in_use other_error : Opened

-- shm_open() with O_CREAT and O_EXCL
unfoldable pub shm_open : Bool → Held → Opened
shm_open fails s =
    if fails
    then other_error
    else if s.named
    then in_use
    else opened (record s { named = true; open_fds = s.open_fds + 1 })

-- The object is made; where the name is in use, it is removed and made again. The first component is what
-- the process holds when it gives up.
unfoldable pub create : Failures → Held → Held × Option Held
create k s = elim (shm_open k.first_open s) [
  | opened t ↦ (s, some t)
  | other_error ↦ (s, none)
  | in_use ↦
      let removed = unlink k.first_unlink s in
      elim (shm_open k.second_open removed) [
        | opened t ↦ (removed, some t)
        | in_use ↦ (removed, none)
        | other_error ↦ (removed, none)
      ]
]

-- ftruncate(), mmap(), close() and fork(); `true` when there are two processes.
unfoldable pub map_and_fork : Failures → Held → Held × Bool
map_and_fork k s =
    if k.ftruncate
    then (unlink k.last_unlink (close_fd k.close s), false)
    else if k.mmap
    then (unlink k.last_unlink (close_fd k.close s), false)
    else let closed = close_fd k.close (record s { mapped = true }) in
      if k.fork then (unlink k.last_unlink (unmap k.munmap closed), false) else (closed, true)

unfoldable pub set_up : Failures → Held → Held × Bool
set_up k s =
    let (left, fd) = create k s in elim fd [ none ↦ (left, false) | some t ↦ map_and_fork k t ]

-- Whether or not the name was in use, nothing being mapped, and where close(), munmap() and the shm_unlink()
-- after a later failure succeed: `main` goes on to two processes exactly when shm_open() makes the object, be it at
-- the second try after EEXIST and a shm_unlink() that succeeds, and ftruncate(), mmap() and fork() succeed; the
-- object is then named and mapped and its descriptor closed. When it gives up instead, no descriptor is left open,
-- nothing is mapped, and the name is free unless it was in use before and could not be removed.
pub set_up-clean :
    (k : Failures) (s : Held)
    → s.mapped ≡ false
    → k.close ≡ false
    → k.munmap ≡ false
    → k.last_unlink ≡ false
    → let (t, goes_on) = set_up k s in
      let kept = s.named && (k.first_open || k.first_unlink) in
      (t.open_fds ≡ s.open_fds)
      × (t.named ≡ goes_on || kept)
      × (t.mapped ≡ goes_on)
      × (goes_on
          ≡ not k.first_open
            && not (s.named && (k.first_unlink || k.second_open))
            && not k.ftruncate
            && not k.mmap
            && not k.fork)
unfolding set_up create shm_open map_and_fork
set_up-clean k s h closes unmaps unlinks = ground arith
