-- ===== src/Epoll/Loop.antt =====
-- `main` of socket_test/tcp_epoll_server_v1.c and socket_test/tcp_epoll_server_v2.c: the connections
-- that epoll watches and the count that the program keeps of them.
use linux_system_programing.Prelude.{
  ℕ, zero, suc, ◌+◌, ◌-◌, List, [], ◌∷◌, ◌++◌, set, Option, none, some, Bool, ltb, if◌then◌else◌,
}
use linux_system_programing.Kernel.{Received, Sent}
use linux_system_programing.Epoll.Conn.{
  Conn, init_conn, Version, Revents, Verdict, kept, broken, closed, turn,
}

-- `conns`, and the connections in the interest set of epoll
pub record Server : Type 0 where
  pub conns : ℕ
  pub table : List Conn

-- `main` before its loop
abbrev pub boot : Server
boot = record { conns = 0; table = [] }

-- What the calls on a new connection return; `fd` is `none` when accept() fails.
pub record Arrival : Type 0 where
  pub fd : Option ℕ
  pub set_nonblock_fails : Bool
  pub malloc_fails : Bool
  pub epoll_ctl_fails : Bool

-- Past the limit, or where malloc() or epoll_ctl() fails, the count is taken back.
unfoldable pub register : Version → Arrival → ℕ → Server → Server
register v a fd s =
    let counted : Server = record s { conns = s.conns + 1 } in
    let refused : Server = record counted { conns = counted.conns - 1 } in
    if ltb v.max_connections counted.conns
    then refused
    else if a.malloc_fails
    then refused
    else if a.epoll_ctl_fails
    then refused
    else record counted { table = s.table ++ init_conn fd ∷ [] }

unfoldable pub arrive : Version → Arrival → Server → Server
arrive v a s = elim a.fd [
  | none ↦ s
  | some fd ↦ if a.set_nonblock_fails then s else register v a fd s
]

abbrev pub nth : List Conn → ℕ → Option Conn
nth [] i = none
nth (d ∷ ds) zero = some d
nth (d ∷ ds) (suc i) = nth ds i

-- EPOLL_CTL_DEL, close() and free()
abbrev pub remove : List Conn → ℕ → List Conn
remove [] i = []
remove (d ∷ ds) zero = ds
remove (d ∷ ds) (suc i) = d ∷ remove ds i

-- The end of an event of connection `i`. Only a connection that is closed on purpose is taken off the
-- count.
unfoldable pub settle : ℕ → Verdict → Server → Server
settle i (kept d) s = record s { table = set s.table i d }
settle i (broken d) s = record s { table = remove s.table i }
settle i (closed d) s = record s { conns = s.conns - 1; table = remove s.table i }

-- An event of connection `i`, which is `d`.
abbrev pub serve : Version → ℕ → Revents → Received → (List ℕ → Sent) → Conn → Server → Server
serve v i ev r s d srv = settle i (turn v ev r s d) srv
