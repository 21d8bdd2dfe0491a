-- ===== src/Epoll/Turns.antt =====
-- What one event does to a client of the epoll servers.
use linux_system_programing.Prelude.{
  ℕ, ◌-◌, ◌≤◌, ◌≡◌, ◌≢◌, refl, sym, ◌∙◌, ap, List, [], ◌∷◌, length, arith, Bool, true, false, ltb,
  ◌&&◌, not, if◌then◌else◌, Bool-cases, inl, inr, ltb→le, if_holds,
}
use linux_system_programing.Kernel.{
  Received, bytes, recv_error, Sent, took, send_error, would_block,
}
use linux_system_programing.Echo.Client.{
  Client, init_client, Ret, ok, failed, done, offered, advance, handle_recv, handle_send,
}
use linux_system_programing.Echo.Views.{IsValid, init_client-IsValid, length-queued}
use linux_system_programing.Echo.Recv.{
  Fits, payload, handle_recv-IsValid, handle_recv-ne-done, queue_grows,
}
use linux_system_programing.Echo.Send.{count, offered-eq-queued, Takes, handle_send-queued}
use linux_system_programing.Epoll.Recv.{recv_bytes-eq}
use linux_system_programing.Epoll.Conn.{
  Conn, init_conn, Version, Revents, Verdict, kept, broken, closed, watch_queue, recv_conn,
  advance_conn, send_conn, mark, in_turn, judge, out_turn, turn,
}

-- The counters fit the buffers, and a connection that is not to be closed is watched for EPOLLOUT
-- exactly when bytes wait to be sent.
pub record IsConn (d : Conn) : Type 0 where
  pub valid : IsValid d.client
  pub watched : d.should_close ≡ false → d.epollout ≡ ltb d.client.send_offset d.client.send_len

pub init_conn-IsConn : (fd : ℕ) → IsConn (init_conn fd)
unfolding init_conn init_client
init_conn-IsConn fd =
    let w = init_client-IsValid in
    record {
      valid = record {
        recv_room = w.recv_room;
        message_room = w.message_room;
        used_in = w.used_in;
        send_room = w.send_room;
        len_in = w.len_in;
        offset_in = w.offset_in;
        restarted = w.restarted;
      };
      watched = λ _. refl;
    }

-- to be closed, whatever is watched
marked-IsConn : (d : Conn) → IsValid d.client → IsConn (record d { should_close = true })
marked-IsConn d w = record { valid = w; watched = λ q. cc }

mark_if-IsConn :
    (b : Bool) {d : Conn} → IsConn d → IsConn (if b then record d { should_close = true } else d)
mark_if-IsConn b {d} w = if_holds IsConn b (marked-IsConn d w.valid) w

mark-IsConn :
    (v : Version) (ev : Revents) (p : Conn × Ret)
    → IsValid p.0.client
    → (p.1 ≢ failed → IsConn p.0)
    → IsConn (mark v ev p)
unfolding mark
mark-IsConn v ev (d, failed) w good = marked-IsConn d w
mark-IsConn v ev (d, ok) w good =
    mark_if-IsConn (ev.epollrdhup && not v.rdhup_needs_ret) (good (λ q. cc))
mark-IsConn v ev (d, done) w good = mark_if-IsConn ev.epollrdhup (good (λ q. cc))

watch_queue-IsConn :
    (v : Version) (ev : Revents) {d : Conn} (p : Client × Ret)
    → IsConn d
    → IsValid p.0
    → (p.1 ≡ ok → p.0.send_len ≤ p.0.send_offset → d.client.send_len ≤ d.client.send_offset)
    → p.1 ≢ done
    → IsConn (mark v ev (watch_queue p d))
unfolding watch_queue
watch_queue-IsConn v ev (c, failed) w good grows nd = mark-IsConn v ev _ good (λ q. absurd (q refl))
watch_queue-IsConn v ev (c, done) w good grows nd = absurd (nd refl)
watch_queue-IsConn v ev {d} (c, ok) w good grows nd =
    elim (Bool-cases (ltb c.send_offset c.send_len)) [
      | inl more ↦
          rw more (mark-IsConn v ev _ good (λ q. record { valid = good; watched = λ e. sym more }))
      | inr no_more ↦ rw no_more (
          mark-IsConn v ev _ good (λ q. record {
            valid = good;
            watched =
                λ e. w.watched e ∙ ground (arith, grows refl (ltb→le _ _ no_more)) ∙ sym no_more;
          }))
    ]

recv_conn-IsConn :
    (v : Version) (ev : Revents) (r : Received) {d : Conn}
    → IsConn d
    → Fits (payload r)
    → IsConn (mark v ev (recv_conn v r d))
unfolding recv_conn
recv_conn-IsConn v ev (bytes []) {d} w few = mark-IsConn v ev (d, v.eof) w.valid (λ _. w)
recv_conn-IsConn v ev (bytes (x ∷ xs)) {d} w few = rw (recv_bytes-eq x xs d.client) (
    watch_queue-IsConn v ev (handle_recv (bytes (x ∷ xs)) d.client) w
      (handle_recv-IsValid (bytes (x ∷ xs)) w.valid few) (queue_grows (bytes (x ∷ xs)) w.valid few)
      (handle_recv-ne-done (bytes (x ∷ xs)) w.valid few))
recv_conn-IsConn v ev (recv_error e) {d} w few =
    if_holds (λ p. IsConn (mark v ev p)) (would_block e) {x = (d, ok)} {y = (d, failed)}
      (mark-IsConn v ev (d, ok) w.valid (λ _. w)) (mark-IsConn v ev (d, failed) w.valid (λ _. w))

pub in_turn-IsConn :
    (v : Version) (ev : Revents) (r : Received) {d : Conn}
    → IsConn d
    → Fits (payload r)
    → IsConn (in_turn v ev r d)
unfolding in_turn
in_turn-IsConn v ev r w few = if_holds IsConn ev.epollin (recv_conn-IsConn v ev r w few) w

-- The sending half is the select server's, seen from the client.
pub client-send_conn : (s : Sent) (d : Conn) → (send_conn s d).0.client ≡ (handle_send s d.client).0
unfolding send_conn advance_conn handle_send advance
client-send_conn (took n) d = ground arith
client-send_conn (send_error e) d = ground arith

send_conn-IsConn : (s : Sent) {d : Conn} → IsConn d → Takes s d.client → IsConn (send_conn s d).0
unfolding send_conn advance_conn
send_conn-IsConn s {d} w few = record {
  valid = rw (client-send_conn s d) (handle_send-queued s w.valid few).3;
  watched = bit s few;
}
  where
    bit :
        (s : Sent)
        → Takes s d.client
        → (send_conn s d).0.should_close ≡ false
        → (send_conn s d).0.epollout
          ≡ ltb (send_conn s d).0.client.send_offset (send_conn s d).0.client.send_len
    bit (took n) few q =
        let fits : n ≤ d.client.send_len - d.client.send_offset = omega (
          arith,
          ap (λ (l : List ℕ). length l) (offered-eq-queued w.valid),
          length-queued w.valid,
        ) in
        ground (arith, w.watched, w.valid.offset_in, w.valid.len_in)
    bit (send_error e) few q = ground (arith, w.watched)

-- What a verdict leaves of the connection.
abbrev pub IsVerdict : Verdict → Type 0
IsVerdict (kept d) = IsConn d
IsVerdict (broken d) = IsValid d.client
IsVerdict (closed d) = IsValid d.client × (d.should_close ≡ true)

judge-IsVerdict : (p : Conn × Ret) → IsConn p.0 → IsVerdict (judge p)
unfolding judge
judge-IsVerdict (d, failed) w = w.valid
judge-IsVerdict (d, ok) w = w
judge-IsVerdict (d, done) w = by_flag d.should_close refl
  where
    by_flag : (b : Bool) → d.should_close ≡ b → IsVerdict (if b then closed d else kept d)
    by_flag true e = (w.valid, e)
    by_flag false e = w

-- send() takes no more than it is offered.
abbrev pub TakesFrom : (List ℕ → Sent) → Type 0
TakesFrom s = (xs : List ℕ) → count (s xs) ≤ length xs

Takes-of_count : (s : Sent) (c : Client) → count s ≤ length (offered c) → Takes s c
Takes-of_count (took n) c h = h
Takes-of_count (send_error e) c h = tt

out_turn-IsVerdict :
    (ev : Revents) (s : List ℕ → Sent) {d : Conn}
    → IsConn d
    → TakesFrom s
    → IsVerdict (out_turn ev s d)
unfolding out_turn
out_turn-IsVerdict ev s {d} w takes =
    if_holds IsVerdict ev.epollout {y = kept d}
      (judge-IsVerdict (send_conn (s (offered d.client)) d) (
        send_conn-IsConn (s (offered d.client)) w
          (Takes-of_count (s (offered d.client)) d.client (takes (offered d.client)))))
      w

pub turn-IsVerdict :
    (v : Version) (ev : Revents) (r : Received) (s : List ℕ → Sent) {d : Conn}
    → IsConn d
    → Fits (payload r)
    → TakesFrom s
    → IsVerdict (turn v ev r s d)
unfolding turn
turn-IsVerdict v ev r s w few takes = out_turn-IsVerdict ev s (in_turn-IsConn v ev r w few) takes

-- An event of the end of the stream without EPOLLOUT marks the connection, and it is kept.
pub turn_at_end :
    (v : Version) (s : List ℕ → Sent) (d : Conn)
    → v.eof ≢ ok
    → turn v (record { epollin = true; epollout = false; epollrdhup = true }) (bytes []) s d
      ≡ kept (record d { should_close = true })
unfolding turn in_turn out_turn mark recv_conn
turn_at_end v s d ne = by_ret v.eof refl
  where
    by_ret :
        (q : Ret)
        → v.eof ≡ q
        → kept (mark v (record { epollin = true; epollout = false; epollrdhup = true }) (d, v.eof))
          ≡ kept (record d { should_close = true })
    by_ret failed e = rw e
    by_ret ok e = absurd (ne e)
    by_ret done e = rw e
