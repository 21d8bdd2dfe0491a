-- ===== src/Echo/Recv.antt =====
-- What `handle_recv` of socket_test/tcp_select_server_v2.c does with each result of recv().
use linux_system_programing.Prelude.{
  ℕ, suc, ◌+◌, ◌≤◌, ◌<◌, ◌≡◌, refl, ◌∙◌, ap, ◌↔◌, ◌≢◌, List, [], ◌++◌, length, arith, ltb,
  Bool-cases, inl, inr, length-append, ltb→lt, ltb→le, lt→ltb, add_u64, sym,
}
use linux_system_programing.Bytes.{length-blit, take-blit, take-blit_start}
use linux_system_programing.Lines.{complete, partial}
use linux_system_programing.Kernel.{Received, bytes, recv_error}
use linux_system_programing.Echo.Client.{
  Client, recv_size, buf_size, fill, append_received, take_in, echo_lines, handle_recv, Ret, ok,
  failed, done,
}
use linux_system_programing.Echo.Views.{pending, queued, IsValid}
use linux_system_programing.Echo.Views.{length-queued}
use linux_system_programing.Echo.Copy.{Copied, echo_lines-Copied, client_fd-echo_lines}

-- recv() writes at most `sizeof(recv_buf)` bytes.
abbrev pub Fits : List ℕ → Type 0
Fits xs = length xs ≤ recv_size

-- How the handler ends on `xs` received bytes.
pub record Took (c : Client) (xs : List ℕ) (r : Client × Ret) : Type 0 where
  pub valid : IsValid r.0
  pub fits : (r.1 ≡ ok) ↔ (
      (c.used + length xs ≤ buf_size)
      × (c.send_len + length (complete (pending c ++ xs)) ≤ buf_size))
  pub all_out : r.1 ≡ ok → queued r.0 ≡ queued c ++ complete (pending c ++ xs)
  pub all_left : r.1 ≡ ok → pending r.0 ≡ partial (pending c ++ xs)
  pub not_done : r.1 ≢ done

fill-IsValid : (xs : List ℕ) {c : Client} → IsValid c → IsValid (fill xs c)
unfolding fill
fill-IsValid xs {c} v = record {
  recv_room = length-blit _ _ _ ∙ v.recv_room;
  message_room = v.message_room;
  used_in = v.used_in;
  send_room = v.send_room;
  len_in = v.len_in;
  offset_in = v.offset_in;
  restarted = v.restarted;
}

module _ (xs : List ℕ) {c : Client} (v : IsValid c) (few : Fits xs) where
  abbrev received : Client
  received = append_received (length xs) (fill xs c)

  module _ (room : c.used + length xs ≤ buf_size) where
    word_add : add_u64 c.used (length xs) ≡ c.used + length xs
    word_add = omega (arith, few, v.used_in)

    received-IsValid : IsValid received
    unfolding append_received fill
    received-IsValid = record {
      recv_room = length-blit _ _ _ ∙ v.recv_room;
      message_room = length-blit _ _ _ ∙ v.message_room;
      used_in = omega (arith, word_add, room);
      send_room = v.send_room;
      len_in = v.len_in;
      offset_in = v.offset_in;
      restarted = v.restarted;
    }

    pending-received : pending received ≡ pending c ++ xs
    unfolding append_received fill
    pending-received =
        rw (word_add, take-blit_start c.recv_buf xs (omega (arith, few, v.recv_room)))
          (take-blit c.recv_message c.used (c.used + length xs) xs refl
            (omega (arith, v.message_room, room)))

  -- Received bytes that do not fit end the connection.
  over-Took : buf_size < c.used + length xs → Took c xs (fill xs c, failed)
  over-Took h = record {
    valid = fill-IsValid xs v;
    fits = (λ q. cc, λ q. absurd (omega arith));
    all_out = λ q. cc;
    all_left = λ q. cc;
    not_done = λ q. cc;
  }

  room-Took : c.used + length xs ≤ buf_size → (r : Client × Ret) → Copied received r → Took c xs r
  unfolding append_received fill
  room-Took room r copied = record {
    valid = copied.valid;
    fits = (
      λ q. (room, rw (ap complete (sym (pending-received room))) (copied.fits.0 q)),
      λ q. copied.fits.1 (rw (ap complete (pending-received room)) q.1),
    );
    all_out = λ q. copied.all_out q ∙ ap (λ l. queued c ++ complete l) (pending-received room);
    all_left = λ q. copied.all_left q ∙ ap partial (pending-received room);
    not_done = copied.not_done;
  }

pub take_in-Took :
    (xs : List ℕ) {c : Client} → IsValid c → Fits xs → Took c xs (take_in (length xs) (fill xs c))
unfolding take_in fill
take_in-Took xs {c} v few = elim (Bool-cases (ltb buf_size (add_u64 c.used (length xs)))) [
  | inl over ↦ rw over (over-Took xs v few (omega (arith, ltb→lt _ _ over, v.used_in)))
  | inr under ↦ rw under (in_room (omega (arith, ltb→le _ _ under, v.used_in)))
]
  where
    in_room :
        c.used + length xs ≤ buf_size
        → Took c xs (echo_lines (suc (received xs v few).used) (received xs v few))
    in_room room =
        room-Took xs v few room _
          (echo_lines-Copied _ (omega arith) (received-IsValid xs v few room))

-- From a valid client and at least one byte, the handler succeeds exactly when the bytes fit
-- `recv_message` and the lines that they complete fit `send_buf`; then these lines, in order, are
-- queued behind what was, and what follows the last newline stays pending. The client is valid
-- whatever it returns, and it never returns 1.
pub handle_recv-Took :
    (xs : List ℕ) {c : Client}
    → IsValid c
    → Fits xs
    → 0 < length xs
    → Took c xs (handle_recv (bytes xs) c)
unfolding handle_recv
handle_recv-Took xs {c} v few pos = rw (lt→ltb 0 (length xs) pos) (take_in-Took xs v few)

-- the bytes of a result of recv()
abbrev pub payload : Received → List ℕ
payload (bytes xs) = xs
payload (recv_error e) = []

-- Whatever recv() returns, the handler leaves the client valid.
pub handle_recv-IsValid :
    (r : Received) {c : Client} → IsValid c → Fits (payload r) → IsValid (handle_recv r c).0
unfolding handle_recv
handle_recv-IsValid (bytes xs) {c} v few =
    ground (arith, fill-IsValid xs v, (take_in-Took xs v few).valid)
handle_recv-IsValid (recv_error e) v few = ground arith

client_fd-take_in : (n : ℕ) (c : Client) → (take_in n c).0.client_fd ≡ c.client_fd
unfolding take_in append_received
client_fd-take_in n c = elim (Bool-cases (ltb buf_size (add_u64 c.used n))) [
  | inl over ↦ rw over
  | inr under ↦ rw under (client_fd-echo_lines _ (append_received n c))
]

pub client_fd-handle_recv :
    (r : Received) (c : Client) → (handle_recv r c).0.client_fd ≡ c.client_fd
unfolding handle_recv fill
client_fd-handle_recv (bytes xs) c = ground (arith, client_fd-take_in (length xs) (fill xs c))
client_fd-handle_recv (recv_error e) c = ground arith

-- It returns -1 or 0.
pub handle_recv-ne-done :
    (r : Received) {c : Client} → IsValid c → Fits (payload r) → (handle_recv r c).1 ≢ done
unfolding handle_recv
handle_recv-ne-done (bytes xs) v few = λ q. ground (arith, (take_in-Took xs v few).not_done)
handle_recv-ne-done (recv_error e) v few = λ q. ground arith

pub some_bytes : (xs : List ℕ) (d : Client) → (handle_recv (bytes xs) d).1 ≡ ok → 0 < length xs
unfolding handle_recv
some_bytes xs d h = ground arith

pub handle_recv-error : (x : ℕ) (d : Client) → (handle_recv (recv_error x) d).0 ≡ d
unfolding handle_recv
handle_recv-error x d = ground arith

-- Success never empties the queue.
pub queue_grows :
    (r : Received) {c : Client}
    → IsValid c
    → Fits (payload r)
    → (handle_recv r c).1 ≡ ok
    → (handle_recv r c).0.send_len ≤ (handle_recv r c).0.send_offset
    → c.send_len ≤ c.send_offset
queue_grows (bytes xs) {c} v few q h =
    let t : Took c xs (handle_recv (bytes xs) c) = handle_recv-Took xs v few (some_bytes xs c q) in
    omega (
      arith,
      ap (λ (l : List ℕ). length l) (t.all_out q),
      length-append (queued c) (complete (pending c ++ xs)),
      length-queued v,
      length-queued t.valid,
    )
queue_grows (recv_error e) {c} v few q h = rw (handle_recv-error e c) at h
