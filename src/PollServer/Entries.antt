-- ===== src/PollServer/Entries.antt =====
-- What the handlers of socket_test/tcp_poll_server_v1.c keep of a connection.
use linux_system_programing.Prelude.{◌≤◌, ◌≡◌, refl, ◌∙◌, ap, [], ◌∷◌, length, arith}
use linux_system_programing.Kernel.{Received, bytes, recv_error, Sent, took, send_error}
use linux_system_programing.Echo.Client.{Client, Ret, ok, failed, done, offered}
use linux_system_programing.Echo.Client
use linux_system_programing.Echo.Views.{IsValid}
use linux_system_programing.Echo.Recv.{Fits, payload, handle_recv-IsValid, client_fd-handle_recv}
use linux_system_programing.Echo.Send.{count, offered-eq-queued, handle_send-Gave}
use linux_system_programing.PollServer.Entry.{Pair, watch, handle_recv, advance, handle_send}

-- The descriptors stay, and the client is valid.
pub record Kept (p q : Pair) : Type 0 where
  pub valid : IsValid q.client
  pub same_fd : q.entry.fd ≡ p.entry.fd
  pub same_client : q.client.client_fd ≡ p.client.client_fd

pub stay-Kept : {p : Pair} → IsValid p.client → Kept p p
stay-Kept v = record { valid = v; same_fd = refl; same_client = refl }

watch-Kept :
    {p : Pair} (r : Client × Ret)
    → IsValid r.0
    → r.0.client_fd ≡ p.client.client_fd
    → Kept p (watch p.entry r).0
unfolding watch
watch-Kept (c, ok) v e = record { valid = v; same_fd = ground arith; same_client = e }
watch-Kept (c, failed) v e = record { valid = v; same_fd = refl; same_client = e }
watch-Kept (c, done) v e = record { valid = v; same_fd = refl; same_client = e }

pub handle_recv-Kept :
    (r : Received) {p : Pair} → IsValid p.client → Fits (payload r) → Kept p (handle_recv r p).0
unfolding handle_recv
handle_recv-Kept (bytes []) v few = stay-Kept v
handle_recv-Kept (bytes (x ∷ xs)) {p} v few =
    watch-Kept (Client.handle_recv (bytes (x ∷ xs)) p.client)
      (handle_recv-IsValid (bytes (x ∷ xs)) v few) (client_fd-handle_recv (bytes (x ∷ xs)) p.client)
handle_recv-Kept (recv_error e) v few = stay-Kept v

-- The client goes the way of the select server's.
client-handle_send :
    (s : Sent) (p : Pair) → (handle_send s p).0.client ≡ (Client.handle_send s p.client).0
unfolding handle_send advance Client.handle_send Client.advance
client-handle_send (took n) p = ground arith
client-handle_send (send_error e) p = ground arith

fd-handle_send : (s : Sent) (p : Pair) → (handle_send s p).0.entry.fd ≡ p.entry.fd
unfolding handle_send advance
fd-handle_send (took n) p = ground arith
fd-handle_send (send_error e) p = ground arith

pub handle_send-Kept :
    (s : Sent) {p : Pair}
    → IsValid p.client
    → count s ≤ length (offered p.client)
    → Kept p (handle_send s p).0
handle_send-Kept s {p} v few =
    let g = handle_send-Gave s v (rw (offered-eq-queued v) at few) in
    record {
      valid = rw (client-handle_send s p) g.valid;
      same_fd = fd-handle_send s p;
      same_client = ap (λ (c : Client). c.client_fd) (client-handle_send s p) ∙ g.same_fd;
    }
