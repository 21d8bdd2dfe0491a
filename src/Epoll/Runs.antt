-- ===== src/Epoll/Runs.antt =====
-- Every run of the epoll servers: the connections that are watched, and the count `conns` of them.
use linux_system_programing.Prelude.{
  ℕ, zero, suc, ◌+◌, ◌-◌, ◌≤◌, ◌≡◌, refl, ap, List, [], ◌∷◌, ◌++◌, length, set, length-set,
  length-append, arith, Option, none, some, true, ltb, if◌then◌else◌, Bool-cases, inl, inr, ltb→le,
  lt→ltb, if_holds,
}
use linux_system_programing.Kernel.{Received, Sent}
use linux_system_programing.Echo.Recv.{Fits, payload}
use linux_system_programing.Epoll.Conn.{
  Conn, init_conn, Version, Revents, Verdict, kept, broken, closed, turn,
}
use linux_system_programing.Epoll.Loop.{
  Server, boot, Arrival, register, arrive, nth, remove, settle, serve,
}
use linux_system_programing.Epoll.Turns.{
  IsConn, init_conn-IsConn, IsVerdict, TakesFrom, turn-IsVerdict,
}

-- 1 for a connection that is given up after a send() that failed
abbrev pub lost_by : Verdict → ℕ
lost_by (broken d) = 1
lost_by (kept d) = 0
lost_by (closed d) = 0

-- `Run v n s`: the server of version `v` reaches `s` with `n` connections given up that way.
pub data Run (v : Version) : ℕ → Server → Type 0 where
  booted : Run v 0 boot
  arrived : {n : ℕ} {s : Server} (a : Arrival) → Run v n s → Run v n (arrive v a s)
  served :
      {n : ℕ} {srv : Server} (i : ℕ) (ev : Revents) (r : Received) (s : List ℕ → Sent) (d : Conn)
      → Run v n srv
      → nth srv.table i ≡ some d
      → Fits (payload r)
      → TakesFrom s
      → Run v (n + lost_by (turn v ev r s d)) (serve v i ev r s d srv)

abbrev AllConn : List Conn → Type 0
AllConn [] = Unit {0}
AllConn (d ∷ ds) = IsConn d × AllConn ds

-- What is watched is sound, and the count is above it by the connections lost.
pub record IsServer (v : Version) (n : ℕ) (s : Server) : Type 0 where
  pub all : AllConn s.table
  pub counted : s.conns ≡ length s.table + n
  pub below : s.conns ≤ v.max_connections

nth-AllConn : (ds : List Conn) (i : ℕ) (d : Conn) → AllConn ds → nth ds i ≡ some d → IsConn d
nth-AllConn [] i d h e = absurd (cc e)
nth-AllConn (x ∷ ds) zero d h e = let same : x ≡ d = cc e in rw same at h.0
nth-AllConn (x ∷ ds) (suc i) d h e = nth-AllConn ds i d h.1 e

set-AllConn : (ds : List Conn) (i : ℕ) (d : Conn) → AllConn ds → IsConn d → AllConn (set ds i d)
set-AllConn [] i d h w = tt
set-AllConn (x ∷ ds) zero d h w = (w, h.1)
set-AllConn (x ∷ ds) (suc i) d h w = (h.0, set-AllConn ds i d h.1 w)

remove-AllConn : (ds : List Conn) (i : ℕ) → AllConn ds → AllConn (remove ds i)
remove-AllConn [] i h = tt
remove-AllConn (x ∷ ds) zero h = h.1
remove-AllConn (x ∷ ds) (suc i) h = (h.0, remove-AllConn ds i h.1)

append-AllConn : (ds : List Conn) (d : Conn) → AllConn ds → IsConn d → AllConn (ds ++ d ∷ [])
append-AllConn [] d h w = (w, tt)
append-AllConn (x ∷ ds) d h w = (h.0, append-AllConn ds d h.1 w)

length-remove :
    (ds : List Conn) (i : ℕ) (d : Conn) → nth ds i ≡ some d → length ds ≡ length (remove ds i) + 1
length-remove [] i d e = absurd (cc e)
length-remove (x ∷ ds) zero d e = omega arith
length-remove (x ∷ ds) (suc i) d e = omega (arith, length-remove ds i d e)

module _ (v : Version) {n : ℕ} {s : Server} (w : IsServer v n s) where
  register-IsServer : (a : Arrival) (fd : ℕ) → IsServer v n (register v a fd s)
  unfolding register
  register-IsServer a fd = elim (Bool-cases (ltb v.max_connections (s.conns + 1))) [
    | inl over ↦ rw over refused
    | inr under ↦ rw under (
        if_holds (IsServer v n) a.malloc_fails refused
          (if_holds (IsServer v n) a.epoll_ctl_fails refused (admitted (ltb→le _ _ under))))
  ]
    where
      refused : IsServer v n (record s { conns = s.conns + 1 - 1 })
      refused = record {
        all = w.all;
        counted = omega (arith, w.counted);
        below = omega (arith, w.below);
      }

      admitted :
          s.conns + 1 ≤ v.max_connections
          → IsServer v n (record { conns = s.conns + 1; table = s.table ++ init_conn fd ∷ [] })
      admitted h = record {
        all = append-AllConn s.table (init_conn fd) w.all (init_conn-IsConn fd);
        counted = omega (arith, w.counted, length-append s.table (init_conn fd ∷ []));
        below = h;
      }

  arrive-IsServer : (a : Arrival) → IsServer v n (arrive v a s)
  unfolding arrive
  arrive-IsServer a = by_fd a.fd
    where
      by_fd :
          (f : Option ℕ)
          → IsServer v n (elim f [
            | none ↦ s
            | some fd ↦ if a.set_nonblock_fails then s else register v a fd s
          ])
      by_fd none = w
      by_fd (some fd) = if_holds (IsServer v n) a.set_nonblock_fails w (register-IsServer a fd)

  settle-IsServer :
      (i : ℕ) (d : Conn) (u : Verdict)
      → nth s.table i ≡ some d
      → IsVerdict u
      → IsServer v (n + lost_by u) (settle i u s)
  unfolding settle
  settle-IsServer i d (kept x) e good = record {
    all = set-AllConn s.table i x w.all good;
    counted = omega (arith, w.counted, length-set s.table i x);
    below = w.below;
  }
  settle-IsServer i d (broken x) e good = record {
    all = remove-AllConn s.table i w.all;
    counted = omega (arith, w.counted, length-remove s.table i d e);
    below = w.below;
  }
  settle-IsServer i d (closed x) e good = record {
    all = remove-AllConn s.table i w.all;
    counted = omega (arith, w.counted, length-remove s.table i d e);
    below = omega (arith, w.below);
  }

-- In every run, with recv() inside its buffer and send() within what it is offered: each connection
-- fits its buffers and, unless it is to be closed, is watched for EPOLLOUT exactly when bytes wait to be
-- sent; and `conns` is the number of connections plus the number of those that were given up after a
-- send() that failed, and never above the limit.
pub Run-IsServer : {v : Version} {n : ℕ} {s : Server} → Run v n s → IsServer v n s
Run-IsServer booted = record { all = tt; counted = refl; below = omega arith }
Run-IsServer {v} (arrived a run) = arrive-IsServer v (Run-IsServer run) a
Run-IsServer {v} (served i ev r s d run e few takes) =
    let w = Run-IsServer run in
    settle-IsServer v w i d (turn v ev r s d) e
      (turn-IsVerdict v ev r s (nth-AllConn _ i d w.all e) few takes)

-- Once as many connections as the limit allows were given up after a send() that failed, the server is
-- empty and refuses every connection for good.
pub lost-refuses :
    {v : Version} {s : Server} (a : Arrival)
    → Run v v.max_connections s
    → (s.table ≡ []) × (arrive v a s ≡ s)
unfolding arrive register
lost-refuses {v} {s} a run = (nil_of_length s.table (omega (arith, w.counted, w.below)), same a.fd)
  where
    w : IsServer v v.max_connections s
    w = Run-IsServer run

    nil_of_length : (ds : List Conn) → length ds ≡ 0 → ds ≡ []
    nil_of_length [] h = refl
    nil_of_length (x ∷ ds) h = absurd (omega arith)

    over : ltb v.max_connections (s.conns + 1) ≡ true
    over = lt→ltb _ _ (omega (arith, w.counted))

    same :
        (f : Option ℕ)
        → elim f [ none ↦ s | some fd ↦ if a.set_nonblock_fails then s else register v a fd s ] ≡ s
    same none = refl
    same (some fd) = if_holds (λ t. t ≡ s) a.set_nonblock_fails refl (full fd)
      where
        full : (fd : ℕ) → register v a fd s ≡ s
        full fd =
            let back : s.conns + 1 - 1 ≡ s.conns = omega arith in
            rw over (ap (λ m. record s { conns = m }) back)
