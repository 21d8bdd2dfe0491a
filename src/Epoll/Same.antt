-- ===== src/Epoll/Same.antt =====
-- The epoll servers and the select server of socket_test/ treat the bytes of a client alike.
use linux_system_programing.Prelude.{
  ℕ, ◌≡◌, refl, sym, ◌∙◌, ap, List, [], ◌∷◌, arith, Bool, true, false, ◌&&◌, not, if◌then◌else◌,
  if_holds,
}
use linux_system_programing.Bytes.{blit}
use linux_system_programing.Kernel.{Received, bytes, recv_error, Sent}
use linux_system_programing.Echo.Client.{
  Client, Ret, ok, failed, done, offered, fill, handle_recv, handle_send,
}
use linux_system_programing.Epoll.Recv.{recv_bytes-eq}
use linux_system_programing.Epoll.Conn.{
  Conn, Version, Revents, Verdict, kept, broken, closed, watch_queue, recv_conn, send_conn, mark,
  in_turn, judge, out_turn, turn,
}
use linux_system_programing.Epoll.Turns.{client-send_conn}

abbrev pub client_of : Verdict → Client
client_of (kept d) = d.client
client_of (broken d) = d.client
client_of (closed d) = d.client

-- the handlers of the select server, one after the other, as an event asks for them
abbrev pub received_by : Revents → Received → Client → Client
received_by ev r c = if ev.epollin then (handle_recv r c).0 else c

abbrev pub sent_by : Revents → (List ℕ → Sent) → Client → Client
sent_by ev s c = if ev.epollout then (handle_send (s (offered c)) c).0 else c

blit_nothing : (buf : List ℕ) → blit buf 0 [] ≡ buf
unfolding blit
blit_nothing [] = refl
blit_nothing (b ∷ bs) = refl

client-watch_queue : (p : Client × Ret) (d : Conn) → (watch_queue p d).0.client ≡ p.0
unfolding watch_queue
client-watch_queue (c, failed) d = refl
client-watch_queue (c, done) d = refl
client-watch_queue (c, ok) d = ground arith

client-recv_conn :
    (v : Version) (r : Received) (d : Conn)
    → (recv_conn v r d).0.client ≡ (handle_recv r d.client).0
unfolding recv_conn handle_recv fill
client-recv_conn v (bytes []) d =
    ap (λ (buf : List ℕ). record d.client { recv_buf = buf }) (sym (blit_nothing d.client.recv_buf))
client-recv_conn v (bytes (x ∷ xs)) d =
    rw (recv_bytes-eq x xs d.client) (client-watch_queue (handle_recv (bytes (x ∷ xs)) d.client) d)
client-recv_conn v (recv_error e) d = ground arith

client-mark : (v : Version) (ev : Revents) (p : Conn × Ret) → (mark v ev p).client ≡ p.0.client
unfolding mark
client-mark v ev (d, failed) = refl
client-mark v ev (d, ok) =
    if_holds (λ (x : Conn). x.client ≡ d.client) (ev.epollrdhup && not v.rdhup_needs_ret)
      {x = record d { should_close = true }} {y = d} refl refl
client-mark v ev (d, done) =
    if_holds (λ (x : Conn). x.client ≡ d.client) ev.epollrdhup
      {x = record d { should_close = true }} {y = d} refl refl

client-in_turn :
    (v : Version) (ev : Revents) (r : Received) (d : Conn)
    → (in_turn v ev r d).client ≡ received_by ev r d.client
unfolding in_turn
client-in_turn v ev r d = by_bit ev.epollin
  where
    by_bit :
        (b : Bool)
        → (if b then mark v ev (recv_conn v r d) else d).client
          ≡ (if b then (handle_recv r d.client).0 else d.client)
    by_bit true = client-mark v ev (recv_conn v r d) ∙ client-recv_conn v r d
    by_bit false = refl

client_of-judge : (p : Conn × Ret) → client_of (judge p) ≡ p.0.client
unfolding judge
client_of-judge (d, failed) = refl
client_of-judge (d, ok) = refl
client_of-judge (d, done) =
    if_holds (λ u. client_of u ≡ d.client) d.should_close {x = closed d} {y = kept d} refl refl

client_of-out_turn :
    (ev : Revents) (s : List ℕ → Sent) (d : Conn)
    → client_of (out_turn ev s d) ≡ sent_by ev s d.client
unfolding out_turn
client_of-out_turn ev s d = by_bit ev.epollout
  where
    answer : Sent
    answer = s (offered d.client)

    by_bit :
        (b : Bool)
        → client_of (if b then judge (send_conn answer d) else kept d)
          ≡ (if b then (handle_send answer d.client).0 else d.client)
    by_bit true = client_of-judge (send_conn answer d) ∙ client-send_conn answer d
    by_bit false = refl

-- An event leaves the buffers of a client as the handlers of the select server leave them, called in
-- turn for the bits that the event has: in both versions, whatever recv() and send() return, and
-- whatever becomes of the connection.
pub turn-eq-handlers :
    (v : Version) (ev : Revents) (r : Received) (s : List ℕ → Sent) (d : Conn)
    → client_of (turn v ev r s d) ≡ sent_by ev s (received_by ev r d.client)
unfolding turn
turn-eq-handlers v ev r s d =
    client_of-out_turn ev s (in_turn v ev r d) ∙ ap (sent_by ev s) (client-in_turn v ev r d)
